-- ===== src/Fetch/Pool/Asked.antt =====
-- fetch_blocks.rs: the step in which a fetch connects and asks for its block.
use btc_rpc_proxy.Prelude.{
  ℕ, ◌⊎◌, ◌≢◌, Bool-cases, ltb, ltb→lt, ltb-false, suc, ◌≤◌, ◌≡◌, ap, subst, sym, ◌∙◌, Option, none,
  some, List, ◌∷◌, ◌++◌, String, Result, ok, err, ◌>>=◌, All, ok_inj, arith, inl, inr, Option-cases,
}
use btc_rpc_proxy.Fetch.Pool.{Connection, PeerHandle, RecyclableConnection, connect}
use btc_rpc_proxy.Fetch.Pool.Steps.{
  World, ask, is_number, conn_of, holders, addr_at, IsIdle, IsWell,
}
use btc_rpc_proxy.Fetch.Pool.Counts.{uses_less, All-middle}
use btc_rpc_proxy.Fetch.Pool.Laws.{IsTaken}

-- What a handle connects to: the idle connection that it took, or a new one to its address.
connect-origin :
    (dialled : Result (Unit {0}) String) (n : ℕ) (h : PeerHandle) (r : RecyclableConnection)
    → (connect dialled n h).1 ≡ ok r
    → ((h.conn ≡ some r.conn)
        ⊎ ((h.conn ≡ none) × (r.conn ≡ record { id = n; addr = h.addr; unanswered = 0 })))
      × (r.send ≡ h.send)
unfolding connect
connect-origin dialled n h r k = elim (Option-cases h.conn) [
  | inr (c, e) ↦
      let k' = ok_inj (rw (e, connect) at k) in
      (
        inl (e ∙ ap (λ (x : RecyclableConnection). some x.conn) k'),
        ap (λ (x : RecyclableConnection). x.send) (sym k'),
      )
  | inl e ↦ dialled_new dialled (rw (e, connect) at k) e
]
  where
    dialled_new :
        (d : Result (Unit {0}) String)
        → (d >>= λ _.
            ok (record { conn = record { id = n; addr = h.addr; unanswered = 0 }; send = h.send }))
          ≡ ok r
        → h.conn ≡ none
        → ((h.conn ≡ some r.conn)
            ⊎ ((h.conn ≡ none) × (r.conn ≡ record { id = n; addr = h.addr; unanswered = 0 })))
          × (r.send ≡ h.send)
    dialled_new (ok _) k e = (
      inr (e, ap (λ (x : RecyclableConnection). x.conn) (sym (ok_inj k))),
      ap (λ (x : RecyclableConnection). x.send) (sym (ok_inj k)),
    )
    dialled_new (err m) k e = absurd (cc)

number_bound : (id : ℕ) (o : Option Connection) → is_number id o ≤ 1
number_bound id none = omega arith
number_bound id (some c) = ground arith

number_other : (id : ℕ) (c : Connection) → c.id ≢ id → is_number id (some c) ≡ 0
number_other id c h = ground arith

-- After the connection each one is still held once, and the next number is fresh.
asked-holders :
    (w : World) (a : List PeerHandle) (h : PeerHandle) (b : List PeerHandle)
    (r : RecyclableConnection)
    → w.handles ≡ a ++ (h ∷ b)
    → (h.conn ≡ some r.conn)
      ⊎ ((h.conn ≡ none) × (r.conn ≡ record { id = w.next; addr = h.addr; unanswered = 0 }))
    → IsWell w
    → (id : ℕ)
    → (holders (record w { handles = a ++ b; fetching = ask r ∷ w.fetching; next = suc w.next }) id
        ≤ 1)
      × (suc w.next ≤ id
          → holders
              (record w { handles = a ++ b; fetching = ask r ∷ w.fetching; next = suc w.next })
              id
            ≡ 0)
unfolding holders
asked-holders w a h b r e (inl old) k id =
    let same = ap (is_number id) old in
    (
      omega (arith, uses_less conn_of id a h b w.handles e, k.single id, same),
      λ n. omega (arith, uses_less conn_of id a h b w.handles e, k.fresh id (omega arith), same),
    )
asked-holders w a h b r e (inr (unused, made)) k id =
    let count = uses_less conn_of id a h b w.handles e in
    let none_before = ap (is_number id) unused in
    let number = ap (λ (c : Connection). c.id) made in
    (
      elim (Bool-cases (ltb id w.next)) [
        | inl l ↦
            let other =
              number_other id r.conn (λ x. omega (arith, x, number, ltb→lt id w.next l)) in
            omega (arith, count, k.single id, none_before, other)
        | inr l ↦ omega (
          arith,
          count,
          k.fresh id (ltb-false id w.next l),
          none_before,
          number_bound id (some r.conn),
        )
      ],
      λ n.
          let other = number_other id r.conn (λ x. omega (arith, x, number, n)) in
          omega (arith, count, k.fresh id (omega arith), none_before, other),
    )

pub asked-IsWell :
    (w : World) (a : List PeerHandle) (h : PeerHandle) (b : List PeerHandle)
    (dialled : Result (Unit {0}) String) (r : RecyclableConnection)
    → w.handles ≡ a ++ (h ∷ b)
    → (connect dialled w.next h).1 ≡ ok r
    → IsWell w
    → IsWell (record w { handles = a ++ b; fetching = ask r ∷ w.fetching; next = suc w.next })
asked-IsWell w a h b dialled r e c k =
    let (origin, send) = connect-origin dialled w.next h r c in
    let (mine, others) =
      All-middle (IsTaken w.peers) a h b (subst (All (IsTaken w.peers)) e k.taken_peers) in
    let (none_owed, addr) = from origin mine.0 in
    record {
      single = λ id. (asked-holders w a h b r e origin k id).0;
      fresh = λ id. (asked-holders w a h b r e origin k id).1;
      idle_peers = k.idle_peers;
      taken_peers = others;
      asked_peers = (
        (
          omega (arith, none_owed),
          ap (addr_at w.peers) send ∙ mine.1 ∙ ap (λ x. some x) (sym addr),
        ),
        k.asked_peers,
      );
    }
  where
    from :
        (h.conn ≡ some r.conn)
          ⊎ ((h.conn ≡ none) × (r.conn ≡ record { id = w.next; addr = h.addr; unanswered = 0 }))
        → IsIdle h.addr h.conn
        → (r.conn.unanswered ≡ 0) × (r.conn.addr ≡ h.addr)
    from (inl old) i = let (addr, none_owed) = subst (IsIdle h.addr) old i in (none_owed, addr)
    from (inr (unused, made)) i =
        (ap (λ (c : Connection). c.unanswered) made, ap (λ (c : Connection). c.addr) made)
