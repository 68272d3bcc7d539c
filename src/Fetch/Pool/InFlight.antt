-- ===== src/Fetch/Pool/InFlight.antt =====
-- fetch_blocks.rs: the steps of fetches that have a handle or a connection, and all steps together.
use btc_rpc_proxy.Prelude.{◌≡◌, refl, subst, List, ◌∷◌, ◌++◌, All, arith}
use btc_rpc_proxy.Fetch.Pool.{PeerHandle, RecyclableConnection, put, recycle}
use btc_rpc_proxy.Fetch.Pool.Steps.{
  World, answer, Step, listed, dropped, taken, asked, given_up, answered, failed, Reach, here,
  after, conn_of, in_use, holders, IsWell,
}
use btc_rpc_proxy.Fetch.Pool.Counts.{uses_less, All-middle, uses-put, map-put, put-IsIdle}
use btc_rpc_proxy.Fetch.Pool.Laws.{
  IsTaken, IsAsked, IsTaken-kept, IsAsked-kept, same_addrs, start-IsWell, fewer, listed-IsWell,
  dropped-IsWell, taken-IsWell,
}
use btc_rpc_proxy.Fetch.Pool.Asked.{asked-IsWell}

given_up-IsWell :
    (w : World) (a : List PeerHandle) (h : PeerHandle) (b : List PeerHandle)
    → w.handles ≡ a ++ (h ∷ b)
    → IsWell w
    → IsWell (record w { handles = a ++ b })
unfolding holders
given_up-IsWell w a h b e k =
    let (one, fresh) =
      fewer w (record w { handles = a ++ b })
        (λ id. omega (arith, uses_less conn_of id a h b w.handles e)) refl k in
    record {
      single = one;
      fresh = fresh;
      idle_peers = k.idle_peers;
      taken_peers =
          (All-middle (IsTaken w.peers) a h b (subst (All (IsTaken w.peers)) e k.taken_peers)).1;
      asked_peers = k.asked_peers;
    }

failed-IsWell :
    (w : World) (a : List RecyclableConnection) (r : RecyclableConnection)
    (b : List RecyclableConnection)
    → w.fetching ≡ a ++ (r ∷ b)
    → IsWell w
    → IsWell (record w { fetching = a ++ b })
unfolding holders
failed-IsWell w a r b e k =
    let (one, fresh) =
      fewer w (record w { fetching = a ++ b })
        (λ id. omega (arith, uses_less in_use id a r b w.fetching e)) refl k in
    record {
      single = one;
      fresh = fresh;
      idle_peers = k.idle_peers;
      taken_peers = k.taken_peers;
      asked_peers =
          (All-middle (IsAsked w.peers) a r b (subst (All (IsAsked w.peers)) e k.asked_peers)).1;
    }

answered-IsWell :
    (w : World) (a : List RecyclableConnection) (r : RecyclableConnection)
    (b : List RecyclableConnection)
    → w.fetching ≡ a ++ (r ∷ b)
    → IsWell w
    → IsWell (record w { peers = recycle (answer r) w.peers; fetching = a ++ b })
unfolding holders recycle
answered-IsWell w a r b e k =
    let (one, fresh) =
      fewer w (record w { peers = recycle (answer r) w.peers; fetching = a ++ b })
        (λ id. omega (
          arith,
          uses_less in_use id a r b w.fetching e,
          uses-put id r.send (answer r).conn w.peers,
        ))
        refl k in
    let (mine, others) =
      All-middle (IsAsked w.peers) a r b (subst (All (IsAsked w.peers)) e k.asked_peers) in
    let keep =
      same_addrs w.peers (put r.send (answer r).conn w.peers)
        (map-put r.send (answer r).conn w.peers) in
    record {
      single = one;
      fresh = fresh;
      idle_peers =
          put-IsIdle r.send (answer r).conn w.peers mine.1 (omega (arith, mine.0)) k.idle_peers;
      taken_peers = IsTaken-kept w.peers _ w.handles keep k.taken_peers;
      asked_peers = IsAsked-kept w.peers _ (a ++ b) keep others;
    }

step-IsWell : {v w : World} → Step v w → IsWell v → IsWell w
step-IsWell (listed w addr) k = listed-IsWell w addr k
step-IsWell (dropped w a p b e) k = dropped-IsWell w a p b e k
step-IsWell (taken w a p b e) k = taken-IsWell w a p b e k
step-IsWell (asked w a h b dialled r e c) k = asked-IsWell w a h b dialled r e c k
step-IsWell (given_up w a h b e) k = given_up-IsWell w a h b e k
step-IsWell (answered w a r b e) k = answered-IsWell w a r b e k
step-IsWell (failed w a r b e) k = failed-IsWell w a r b e k

-- In every order of the steps of concurrent fetches a connection is held in one place at most;
-- one that is idle or was taken by a handle was made to that peer and owes no block; one in use
-- owes just the block that its fetch asked for, and goes back to its own peer.
pub Reach-IsWell : (w : World) → Reach w → IsWell w
Reach-IsWell _ here = start-IsWell
Reach-IsWell _ (after r s) = step-IsWell s (Reach-IsWell _ r)
