-- ===== src/RpcMethods/Blocks.antt =====
-- rpc_methods.rs: headers and blocks as results. A `usize` has 64 bits.
pub mod Written
use btc_rpc_proxy.Prelude.{ℕ, Bool, Option, List, String, Result, ok, err, ◌>>=◌}
use btc_rpc_proxy.Prelude.Int.{ℤ}
use btc_rpc_proxy.Prelude.Text.{Bytes}
use btc_rpc_proxy.Json.{Value, Fields, bool, string, object, from_u64}
use btc_rpc_proxy.Util.{Either}
use btc_rpc_proxy.Fetch.Block.{BlockHash, Txid}
use btc_rpc_proxy.Serde.{
  DecodeError, invalid_type, Codec, Struct, no_fields, with, Values, from_value, read_flat, write,
  write_flat,
}
use btc_rpc_proxy.Serde.Codecs.{
  required, optional, string_from, bool_from, unsigned_from, signed_from, signed_to, list_from,
  list_to, set_from, hex_from, either_from,
}
use btc_rpc_proxy.RpcMethods.Results.{Crates, hex_to}
use btc_rpc_proxy.State.Peers.{PeerInfo}
use btc_rpc_proxy.State.Network.{BlockchainInfo}

pub record GetBlockHeaderResult : Type 0 where
  pub hash : BlockHash
  pub confirmations : ℤ
  pub height : ℕ
  pub version : ℤ
  pub version_hex : Option Bytes
  pub merkleroot : Bytes
  pub time : ℕ
  pub mediantime : Option ℕ
  pub nonce : ℕ
  pub bits : String
  pub difficulty : ℕ
  pub chainwork : Bytes
  pub n_tx : ℕ
  pub previousblockhash : Option BlockHash
  pub nextblockhash : Option BlockHash

pub record GetBlockResult : Type 0 where
  pub header : GetBlockHeaderResult
  pub size : ℕ
  pub strippedsize : Option ℕ
  pub weight : ℕ
  pub tx : List Txid

abbrev pub usize : Codec ℕ
usize = required (unsigned_from 64) from_u64

module _ (x : Crates) where
  abbrev pub hash_codec : Codec Bytes
  hash_codec = required x.hash_from x.hash_to

  abbrev pub header_rest : Struct
  header_rest = with "nonce" ℕ (required (unsigned_from 32) from_u64) (
      with "bits" String (required string_from string) (
        with "difficulty" ℕ (required x.float_from x.float_to) (
          with "chainwork" Bytes (required (hex_from x.decode) (hex_to x)) (
            with "nTx" ℕ usize (
              with "previousblockhash" (Option Bytes) (optional x.hash_from x.hash_to) (
                with "nextblockhash" (Option Bytes) (optional x.hash_from x.hash_to) no_fields))))))

  abbrev pub header : Struct
  header = with "hash" Bytes hash_codec (
      with "confirmations" ℤ (required (signed_from 31) signed_to) (
        with "height" ℕ usize (
          with "version" ℤ (required (signed_from 31) signed_to) (
            with "versionHex" (Option Bytes) (optional (hex_from x.decode) (hex_to x)) (
              with "merkleroot" Bytes hash_codec (
                with "time" ℕ usize (
                  with "mediantime" (Option ℕ) (optional (unsigned_from 64) from_u64)
                    header_rest)))))))

  abbrev pub header_of : Values header → GetBlockHeaderResult
  header_of
        (
          hash,
          (
            confirmations,
            (
              height,
              (
                version,
                (
                  version_hex,
                  (
                    merkleroot,
                    (
                      time,
                      (
                        mediantime,
                        (
                          nonce,
                          (
                            bits,
                            (
                              difficulty,
                              (chainwork, (n_tx, (previousblockhash, (nextblockhash, _)))),
                            ),
                          ),
                        ),
                      ),
                    ),
                  ),
                ),
              ),
            ),
          ),
        ) =
      record {
        hash = hash;
        confirmations = confirmations;
        height = height;
        version = version;
        version_hex = version_hex;
        merkleroot = merkleroot;
        time = time;
        mediantime = mediantime;
        nonce = nonce;
        bits = bits;
        difficulty = difficulty;
        chainwork = chainwork;
        n_tx = n_tx;
        previousblockhash = previousblockhash;
        nextblockhash = nextblockhash;
      }

  abbrev pub rest_values : GetBlockHeaderResult → Values header_rest
  rest_values h = (
    h.nonce,
    (h.bits, (h.difficulty, (h.chainwork, (h.n_tx, (h.previousblockhash, (h.nextblockhash, tt)))))),
  )

  abbrev pub header_values : GetBlockHeaderResult → Values header
  header_values h = (
    h.hash,
    (
      h.confirmations,
      (
        h.height,
        (h.version, (h.version_hex, (h.merkleroot, (h.time, (h.mediantime, rest_values h))))),
      ),
    ),
  )

  unfoldable pub header_from : Value → Result GetBlockHeaderResult DecodeError
  header_from v = from_value header v >>= λ w. ok (header_of w)

  unfoldable pub header_to : GetBlockHeaderResult → Value
  header_to h = object (write header (header_values h))

  -- The fields of `GetBlockResult` beside the flattened header.
  abbrev pub block : Struct
  block = with "size" ℕ usize (
      with "strippedsize" (Option ℕ) (optional (unsigned_from 64) from_u64) (
        with "weight" ℕ usize (
          with "tx" (List Bytes) (required (list_from x.hash_from) (list_to x.hash_to)) no_fields)))

  abbrev pub block_of : Values header × Values block → GetBlockResult
  block_of (h, (size, (strippedsize, (weight, (tx, _))))) = record {
    header = header_of h;
    size = size;
    strippedsize = strippedsize;
    weight = weight;
    tx = tx;
  }

  abbrev pub block_values : GetBlockResult → Values block
  block_values r = (r.size, (r.strippedsize, (r.weight, (r.tx, tt))))

  -- A struct with a flattened field is read from an object only.
  unfoldable pub block_from : Value → Result GetBlockResult DecodeError
  block_from (object fs) = read_flat block header fs >>= λ w. ok (block_of w)
  block_from _ = err invalid_type

  unfoldable pub block_to : GetBlockResult → Value
  block_to r = object (write_flat block header (header_values r.header, block_values r))

  -- The response of `GetBlockHeader`.
  unfoldable pub header_response_from :
      Value → Result (Either Bytes GetBlockHeaderResult) DecodeError
  header_response_from v = either_from (hex_from x.decode) header_from v

  -- The response of `GetBlock`.
  unfoldable pub block_response_from : Value → Result (Either Bytes GetBlockResult) DecodeError
  block_response_from v = either_from (hex_from x.decode) block_from v
