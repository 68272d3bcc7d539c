-- ===== src/RpcMethods/Blocks/Written.antt =====
-- rpc_methods.rs: a header or a block that is written is read back.
use btc_rpc_proxy.Prelude.{
  ℕ, ◌<◌, ◌^◌, ◌≡◌, refl, Option, none, some, List, [], ◌∷◌, ok, err, All, length,
}
use btc_rpc_proxy.Prelude.Text.{Bytes}
use btc_rpc_proxy.Json.{Fields, object, from_u64}
use btc_rpc_proxy.Util.{left, right}
use btc_rpc_proxy.Serde.{invalid_type, from_value, write, write_flat}
use btc_rpc_proxy.Serde.Codecs.{
  string_from, unsigned_from, hex_from, optional_from, optional_to, Fits, IsWay, either_from-left,
  either_from-right, unsigned_from-from_u64, signed_from-signed_to, optional_from-optional_to,
  list_from-list_to,
}
use btc_rpc_proxy.Serde.Matches.{AreDistinct}
use btc_rpc_proxy.Serde.Written.{AreWritten, read-write}
use btc_rpc_proxy.Serde.Flat.{Apart, read_flat-write_flat}
use btc_rpc_proxy.Serde.Names.{lacks, distinct, apart, distinct-AreDistinct, apart-Apart}
use btc_rpc_proxy.RpcMethods.Results.{Crates, hex_to}
use btc_rpc_proxy.RpcMethods.Blocks.{
  GetBlockHeaderResult, GetBlockResult, header_rest, header, rest_values, header_values,
  header_from, header_to, block, block_values, block_from, block_to, header_response_from,
  block_response_from,
}

module _ (x : Crates) where
  -- A hash has 32 bytes. What the crates promise: a hash is written as a string and read back, and
  -- so are the digits of bytes.
  pub record AreSound : Type 0 where
    pub hash : (h : Bytes) → length h ≡ 32 → IsWay x.hash_from x.hash_to h
    pub hex : (b : Bytes) → x.decode (x.encode b) ≡ ok b

  abbrev pub IsHash : Option Bytes → Type 0
  IsHash none = Unit
  IsHash (some h) = length h ≡ 32

  abbrev pub IsSize : Option ℕ → Type 0
  IsSize none = Unit
  IsSize (some n) = n < 2 ^ 64

  -- A header whose numbers are in the range of their types, and whose difficulty is a number that
  -- can be written.
  pub record IsHeader (h : GetBlockHeaderResult) : Type 0 where
    pub hash : length h.hash ≡ 32
    pub confirmations : Fits 31 h.confirmations
    pub height : h.height < 2 ^ 64
    pub version : Fits 31 h.version
    pub merkleroot : length h.merkleroot ≡ 32
    pub time : h.time < 2 ^ 64
    pub mediantime : IsSize h.mediantime
    pub nonce : h.nonce < 2 ^ 32
    pub difficulty : x.float_from (x.float_to h.difficulty) ≡ ok h.difficulty
    pub n_tx : h.n_tx < 2 ^ 64
    pub previousblockhash : IsHash h.previousblockhash
    pub nextblockhash : IsHash h.nextblockhash

  pub record IsBlock (r : GetBlockResult) : Type 0 where
    pub header : IsHeader r.header
    pub size : r.size < 2 ^ 64
    pub strippedsize : IsSize r.strippedsize
    pub weight : r.weight < 2 ^ 64
    pub tx : All (λ h. length h ≡ 32) r.tx

  module _ (s : AreSound) where
    hash_back :
        (o : Option Bytes) → IsHash o → optional_from x.hash_from (optional_to x.hash_to o) ≡ ok o
    hash_back none h = refl
    hash_back (some a) h = optional_from-optional_to x.hash_from x.hash_to (some a) (s.hash a h)

    size_back :
        (o : Option ℕ) → IsSize o → optional_from (unsigned_from 64) (optional_to from_u64 o) ≡ ok o
    size_back none h = refl
    size_back (some n) h = rw (unsigned_from-from_u64 64 n h) refl

    hex_back : (b : Bytes) → hex_from x.decode (hex_to x b) ≡ ok b
    unfolding hex_from
    hex_back b = rw (s.hex b) refl

    optional_hex_back :
        (o : Option Bytes) → optional_from (hex_from x.decode) (optional_to (hex_to x) o) ≡ ok o
    optional_hex_back none = refl
    optional_hex_back (some b) = rw (hex_back b) refl

    header_rest-AreWritten :
        (h : GetBlockHeaderResult) → IsHeader h → AreWritten (header_rest x) (rest_values x h)
    unfolding string_from
    header_rest-AreWritten h i = (
      unsigned_from-from_u64 32 h.nonce i.nonce,
      (
        refl,
        (
          i.difficulty,
          (
            hex_back h.chainwork,
            (
              unsigned_from-from_u64 64 h.n_tx i.n_tx,
              (
                hash_back h.previousblockhash i.previousblockhash,
                (hash_back h.nextblockhash i.nextblockhash, tt),
              ),
            ),
          ),
        ),
      ),
    )

    header-AreWritten :
        (h : GetBlockHeaderResult) → IsHeader h → AreWritten (header x) (header_values x h)
    header-AreWritten h i = (
      (s.hash h.hash i.hash).back,
      (
        signed_from-signed_to 31 h.confirmations i.confirmations,
        (
          unsigned_from-from_u64 64 h.height i.height,
          (
            signed_from-signed_to 31 h.version i.version,
            (
              optional_hex_back h.version_hex,
              (
                (s.hash h.merkleroot i.merkleroot).back,
                (
                  unsigned_from-from_u64 64 h.time i.time,
                  (size_back h.mediantime i.mediantime, header_rest-AreWritten h i),
                ),
              ),
            ),
          ),
        ),
      ),
    )

    header-AreDistinct : AreDistinct (header x)
    unfolding lacks distinct
    header-AreDistinct = distinct-AreDistinct (header x) refl

    block-AreDistinct : AreDistinct (block x)
    unfolding lacks distinct
    block-AreDistinct = distinct-AreDistinct (block x) refl

    header-Apart : Apart (header x) (block x)
    unfolding lacks apart
    header-Apart = apart-Apart (header x) (block x) refl

    block-Apart : Apart (block x) (header x)
    unfolding lacks apart
    block-Apart = apart-Apart (block x) (header x) refl

    -- A header that is written is read back, one that is not on the main chain included.
    header_from-header_to :
        (h : GetBlockHeaderResult) → IsHeader h → header_from x (header_to x h) ≡ ok h
    unfolding header_from header_to from_value
    header_from-header_to h i =
        rw (read-write (header x) (header_values x h) header-AreDistinct (header-AreWritten h i))
          refl

    hashes_back :
        (l : List Bytes)
        → All (λ h. length h ≡ 32) l
        → All (λ h. x.hash_from (x.hash_to h) ≡ ok h) l
    hashes_back [] a = tt
    hashes_back (h ∷ l) a = ((s.hash h a.0).back, hashes_back l a.1)

    block-AreWritten : (r : GetBlockResult) → IsBlock r → AreWritten (block x) (block_values x r)
    block-AreWritten r i = (
      unsigned_from-from_u64 64 r.size i.size,
      (
        size_back r.strippedsize i.strippedsize,
        (
          unsigned_from-from_u64 64 r.weight i.weight,
          (list_from-list_to x.hash_from x.hash_to r.tx (hashes_back r.tx i.tx), tt),
        ),
      ),
    )

    -- A block that is written, with its header flattened, is read back.
    block_from-block_to : (r : GetBlockResult) → IsBlock r → block_from x (block_to x r) ≡ ok r
    unfolding block_from block_to
    block_from-block_to r i =
        rw
          (read_flat-write_flat (block x) (header x) (block_values x r) (header_values x r.header)
            block-AreDistinct header-AreDistinct header-Apart block-Apart (block-AreWritten r i)
            (header-AreWritten r.header i.header))
          refl

    not_hex : (fs : Fields) → hex_from x.decode (object fs) ≡ err invalid_type
    unfolding hex_from
    not_hex fs = refl

    -- If the crates read back the hashes and digits that they write, a block summary that is
    -- written, with its header flattened, is read back as the response of getblock, its header
    -- alone as that of getblockheader, a negative number of confirmations included, and digits
    -- as the bytes; the numbers have to be in the range of their types.
    pub responses_from-to :
        (r : GetBlockResult)
        → IsBlock r
        → (block_response_from x (block_to x r) ≡ ok (right r))
          × (header_response_from x (header_to x r.header) ≡ ok (right r.header))
          × ((b : Bytes)
              → (block_response_from x (hex_to x b) ≡ ok (left b))
                × (header_response_from x (hex_to x b) ≡ ok (left b)))
    unfolding block_response_from header_response_from block_to header_to
    responses_from-to r i = (
      either_from-right (hex_from x.decode) (block_from x) (block_to x r) invalid_type r
          (not_hex (write_flat (block x) (header x) (header_values x r.header, block_values x r)))
          (block_from-block_to r i),
      either_from-right (hex_from x.decode) (header_from x) (header_to x r.header) invalid_type
          r.header (not_hex (write (header x) (header_values x r.header)))
          (header_from-header_to r.header i.header),
      λ b. (
        either_from-left (hex_from x.decode) (block_from x) (hex_to x b) b (hex_back b),
        either_from-left (hex_from x.decode) (header_from x) (hex_to x b) b (hex_back b),
      ),
    )
