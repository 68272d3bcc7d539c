-- ===== src/Lib.antt =====
-- A model of btc-rpc-proxy, a proxy between JSON-RPC clients and bitcoind that checks who may call
-- what, and fetches blocks from peers where bitcoind has pruned them.
--
-- The parts, from the request inwards. A number of a fixed width keeps its bound written out where
-- it can wrap; text is the list of its bytes where the code reads its bytes.
--   * Proxy (src/proxy.rs): `proxy_request` on the state that requests share, the users with the
--     caches of their cookie files and the block cache. `Run` holds all that the world decides
--     during one request: what the files hold, what bitcoind and the peers answer, and in a batch
--     the order in which the calls finish. Its children say who is refused, how a request that a
--     client writes is taken, and what a request does to the block cache.
--   * Users (src/users.rs): Password has the three kinds of passwords and the comparison, in which
--     `rem_by_zero` is the panic of `% 0`; Login is `Users::get`; Config is `map_default`;
--     Intercept is `User::intercept`, with RawTransaction for `intercept_raw_transaction`, and
--     `index_out_of_bounds` for the panic of an index.
--   * Client (src/client.rs): Rpc and Reply are the messages and the replies; Single and Batch are
--     the two arms of `RpcClient::send`; Merge states what `merge_by` of itertools does; Auth is
--     `AuthSource`; Request is how a body is read as requests and written, on the members and
--     elements that the parser hands over; Call is `RpcClient::call`, whose outcome the callers
--     take as an argument; Response is how what it received is read.
--   * RpcMethods (src/rpc_methods.rs): the names and the parameters of the methods that the proxy
--     calls itself; Results and Blocks are the types of what they return.
--   * Serde: the code that serde derives for a struct, as serde documents it, on the list of the
--     fields with the way each is read and written: members in any order, a member that is no field
--     ignored, one that stands twice refused, an absent one refused unless its type has a value for
--     it, a flattened struct beside the fields. Codecs has the types of the standard library, and
--     `HexBytes` and `Either` (src/util.rs).
--   * Fetch (src/fetch_blocks.rs): Witness is `check_witnesses`, with the bytes of a commitment in
--     Witness/Outputs; Peer is the conversation with a
--     peer, as the list of the messages that arrive before the timeout; Raw is `fetch_block_raw`,
--     with the relation `Step` of what requests do to the cache in Raw/Reach; Connect is
--     `BitcoinPeerConnection::connect`, by the events on the network; Pool has the peers' channels
--     with their idle connections, and in Pool/Steps the relation of the steps of fetches on them.
--   * Cache (src/block_cache.rs): `BlockCache`; Cache/Lru is the abstract cache, a list in the
--     order of last use.
--   * State (src/state.rs, src/fetch_blocks.rs): Network is `network_params`, Peers is `get_peers`,
--     Update is `Peers::updated` and Chain `network_params` on what bitcoind sends.
--   * Start (src/create_state.rs): `create_state`, from the parsed configuration; Bind is the
--     address to listen on, Passthrough the users that bitcoind's own files add, and Sources
--     says which user a name then stands for.
--   * Service (src/lib.rs, src/main.rs): the start and a list of requests in the order in which
--     they end.
--   * Util, Json: `Either`, and the JSON values that the code looks into.
--   * Prelude: names, tests, lists and results that all share. Tests: small inputs.
--
-- The functions of other crates (hashes, base64, serde_json, bitcoin) are parameters; what a
-- theorem relies on is a hypothesis of it. The loop of a peer's conversation reads a finite list of
-- messages, at whose end stands the timeout. The eviction takes one entry of the queue in each
-- round; Cache/Loop has it with rounds as fuel, of which one more than the queue is long is enough.
-- Concurrency is an argument: the order in which the calls of a batch finish, the order in which
-- peers' attempts end, which of two joined calls fails first, and what other requests do to the
-- cache between a lookup and the end of a fetch. Two compositions are coarser than the program:
-- `answer_all` and `serve_all` run each call, and each request, on the cache that the one which
-- ended before it left, where the program polls them together, so that a call looks up a block
-- before the others end: two calls that both miss the same block are no run of these. The relation
-- `Step` of Fetch/Raw/Reach has lookups and ends in every order. A panic ends the list of
-- `serve_all`, where the program drops that connection only.
--
-- Not modelled: reads and writes of sockets, which are outcomes that are given; the parsing of the
-- options, which is generated; the acceptance of connections; the parser and printer of serde_json;
-- and logging. A `f64` is its bits, and a string that HexBytes reads has no escapes.
pub mod Prelude
pub mod Cache
pub mod Json
pub mod Serde
pub mod Client
pub mod Util
pub mod Users
pub mod Fetch
pub mod Proxy
pub mod State
pub mod Start
pub mod Service
pub mod RpcMethods
mod Tests
