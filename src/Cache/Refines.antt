-- ===== src/Cache/Refines.antt =====
-- `insert` keeps the invariant, and the cache does what `Lru` says.
use btc_rpc_proxy.Prelude.{
  ◌+◌, ◌%◌, ◌≤◌, ◌<◌, ◌≡◌, refl, sym, ◌∙◌, true, false, none, [], ◌∷◌, ◌++◌, arith, ltb, ap, length,
  subst, Bool-cases, Option-cases, inl, inr, ltb-false, ltb, le→ltb-false,
}
use btc_rpc_proxy.Cache.{BlockCache, usize_mod, enabled, stats, read, get, evict, store, insert}
use btc_rpc_proxy.Cache.Dict.{
  Bytes, lookup, total, insert as map_insert, insert_absent, lookup-insert_self,
  remove-insert_absent,
}
use btc_rpc_proxy.Cache.Holds.{Holds, Holds-snoc, Holds-absent, length-Holds}
use btc_rpc_proxy.Cache.Entries.{
  entries-cons, entries-snoc, entries-erase, lookup-entries, length-entries, total-entries,
}
use btc_rpc_proxy.Cache.Lru
use btc_rpc_proxy.Cache.Laws.{IsValid, Evicted, evict_lem, view, touch-eq}

module _ {K : Type 0} (dec : Discrete K) where
  -- What the loop of `insert` starts from, for a hash that is not held.
  stored :
      (c : BlockCache K) (hash : K) (block : Bytes)
      → IsValid dec c
      → lookup dec hash c.blocks ≡ none
      → length block ≤ c.max_bytes
      → Evicted dec c.max_bytes (c.order ++ (hash ∷ [])) (map_insert dec hash block c.blocks) (
          evict dec c.max_bytes
            (c.order ++ (hash ∷ []))
            (map_insert dec hash block c.blocks)
            ((c.bytes + length block) % usize_mod))
  unfolding total
  stored c hash block v new fits =
      evict_lem dec c.max_bytes (c.order ++ (hash ∷ [])) (map_insert dec hash block c.blocks)
        ((c.bytes + length block) % usize_mod)
        (Holds-snoc dec hash c.order (map_insert dec hash block c.blocks) block
          (lookup-insert_self dec hash block c.blocks)
          (subst (Holds dec c.order) (sym (remove-insert_absent dec hash block c.blocks new))
            v.agreed.holds))
        (rw (insert_absent dec hash block c.blocks new) (new, v.agreed.distinct))
        (rw (insert_absent dec hash block c.blocks new) (omega arith)) (omega arith)

  -- An insert into a valid cache leaves it valid: the queue names the keys of the map once each,
  -- the counter is the sum of the blocks, and it is within the bound.
  pub insert-IsValid :
      (c : BlockCache K) (hash : K) (block : Bytes)
      → IsValid dec c
      → IsValid dec (insert dec c hash block)
  unfolding insert store
  insert-IsValid c hash block v = elim (Bool-cases (enabled c)) [
    | inl on ↦ rw on (elim (Bool-cases (ltb c.max_bytes (length block))) [
      | inl big ↦ rw big v
      | inr fits ↦ rw fits (elim (Option-cases (lookup dec hash c.blocks)) [
        | inr (b, held) ↦ rw (held, store) v
        | inl new ↦
            rw (new, store)
              (let e = stored c hash block v new (ltb-false _ _ fits) in
                record { agreed = e.agreed; bounded = e.fits; small = v.small })
      ])
    ])
    | inr off ↦ rw off v
  ]

  -- On a valid cache that is enabled, a lookup answers as the abstract cache does, and leaves
  -- the entries in the order in which it does.
  pub get-refines :
      (c : BlockCache K) (hash : K)
      → IsValid dec c
      → enabled c ≡ true
      → (view dec (get dec c hash).0 ≡ (Lru.get dec (view dec c) hash).0)
        × ((get dec c hash).1 ≡ (Lru.get dec (view dec c) hash).1)
  unfolding view get Lru.get
  get-refines c hash v on =
      let same = lookup-entries dec hash c.order c.blocks v.agreed.holds in
      rw (on, same, Lru.get)
        (elim (Option-cases (lookup dec hash c.blocks)) [
          | inl miss ↦ rw (miss, read) (refl, refl)
          | inr (b, hit) ↦
              rw (hit, read)
                (
                  rw (touch-eq dec hash b c.order c.blocks hit v.agreed.holds) (
                      entries-snoc dec hash b _ c.blocks hit
                      ∙ ap (λ l. l ++ ((hash, b) ∷ []))
                          (entries-erase dec hash c.order c.blocks v.agreed.holds)),
                  refl,
                )
        ])

  -- On a valid cache that is enabled, a block that fits its size is stored as the abstract cache
  -- stores it, oldest entries first to go.
  pub insert-refines :
      (c : BlockCache K) (hash : K) (block : Bytes)
      → IsValid dec c
      → enabled c ≡ true
      → length block ≤ c.max_bytes
      → view dec (insert dec c hash block) ≡ Lru.insert dec c.max_bytes (view dec c) hash block
  unfolding view insert Lru.insert
  insert-refines c hash block v on fits =
      let same = lookup-entries dec hash c.order c.blocks v.agreed.holds in
      rw (on, le→ltb-false c.max_bytes (length block) fits, same, Lru.insert)
        (elim (Option-cases (lookup dec hash c.blocks)) [
          | inr (b, held) ↦ rw (held, store)
          | inl new ↦
              rw (new, store)
                ((stored c hash block v new fits).trimmed
                  ∙ ap (Lru.trim c.max_bytes) (
                      entries-snoc dec hash block c.order _
                        (lookup-insert_self dec hash block c.blocks)
                      ∙ rw (insert_absent dec hash block c.blocks new) (
                          ap (λ l. l ++ ((hash, block) ∷ []))
                            (entries-cons dec hash block c.order c.blocks
                              (Holds-absent dec hash c.order c.blocks new v.agreed.holds)))))
        ])

  -- On a valid cache the two counters are the number of the entries and the sum of their
  -- lengths.
  stats-view :
      (c : BlockCache K) → IsValid dec c → stats c ≡ (length (view dec c), total (view dec c))
  unfolding stats view
  stats-view c v = ground (
    arith,
    length-Holds dec c.order c.blocks v.agreed.distinct v.agreed.holds,
    length-entries dec c.order c.blocks v.agreed.holds,
    total-entries dec c.order c.blocks v.agreed.distinct v.agreed.holds,
    v.agreed.counted,
  )

  -- A cache of size 0 answers nothing and takes nothing.
  pub disabled_lem :
      (c : BlockCache K) (hash : K) (block : Bytes)
      → enabled c ≡ false
      → (get dec c hash ≡ (c, none)) × (insert dec c hash block ≡ c)
  unfolding get insert
  disabled_lem c hash block off = (rw off, rw off)

  -- A block larger than the whole cache changes nothing.
  pub insert_oversized :
      (c : BlockCache K) (hash : K) (block : Bytes)
      → c.max_bytes < length block
      → insert dec c hash block ≡ c
  unfolding insert
  insert_oversized c hash block big = ground arith
