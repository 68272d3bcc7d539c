-- ===== src/Cache/Laws.antt =====
-- The invariant of the cache, and that every method keeps it and does what `Lru` says.
use btc_rpc_proxy.Prelude.{
  ℕ, ◌+◌, ◌-◌, ◌≤◌, ◌<◌, ◌≡◌, refl, sym, ◌∙◌, some, List, [], ◌∷◌, ◌++◌, arith, ltb, if◌then◌else◌,
  length, Bool-cases, Option-cases, inl, inr, ltb-false,
}
use btc_rpc_proxy.Cache.{
  BlockCache, Inner, usize_mod, enabled, new, release, touch, read, get, evict,
}
use btc_rpc_proxy.Cache.Dict.{
  HashMap, Bytes, lookup, remove, Distinct, total, remove-Distinct, total-remove,
}
use btc_rpc_proxy.Cache.Queue.{erase, remove_at-position}
use btc_rpc_proxy.Cache.Holds.{Holds, Holds-snoc, Holds-erase, position_found}
use btc_rpc_proxy.Cache.Entries.{entries, entries_step, total-entries}
use btc_rpc_proxy.Cache.Lru.{trim}

module _ {K : Type 0} (dec : Discrete K) where
  pub record IsAgreed (i : Inner K) : Type 0 where
    pub holds : Holds dec i.order i.blocks
    pub distinct : Distinct dec i.blocks
    pub counted : i.bytes ≡ total i.blocks

  -- `small` keeps `bytes + size` below the wrap; `max_bytes` is a memory bound.
  pub record IsValid (c : BlockCache K) : Type 0 where
    pub agreed : IsAgreed c.inner
    pub bounded : c.bytes ≤ c.max_bytes
    pub small : c.max_bytes + c.max_bytes < usize_mod

  -- The abstract view.
  unfoldable pub view : BlockCache K → HashMap K
  view c = entries dec c.order c.blocks

  pub release-eq :
      (bytes : ℕ) (b : Bytes)
      → length b ≤ bytes
      → bytes < usize_mod
      → release (some b) bytes ≡ bytes - length b
  unfolding release
  release-eq bytes b h small = omega arith

  pub record Evicted (max : ℕ) (order : List K) (m : HashMap K) (r : Inner K) : Type 0 where
    pub agreed : IsAgreed r
    pub fits : r.bytes ≤ max
    pub trimmed : entries dec r.order r.blocks ≡ trim max (entries dec order m)

  trim_step :
      (max : ℕ) (k : K) (b : Bytes) (order : List K) (m : HashMap K) (bytes : ℕ)
      → lookup dec k m ≡ some b
      → Holds dec order (remove dec k m)
      → Distinct dec m
      → bytes ≡ total m
      → trim max (entries dec (k ∷ order) m) ≡ (
          if ltb max bytes
          then trim max (entries dec order (remove dec k m))
          else entries dec (k ∷ order) m)
  unfolding trim total
  trim_step max k b order m bytes found h d e = rw (entries_step dec k b order m found h) (
      ground (
        arith,
        total-entries dec order (remove dec k m) (remove-Distinct dec k m d) h,
        total-remove dec k b m d found,
      ))

  pub evict_lem :
      (max : ℕ) (order : List K) (m : HashMap K) (bytes : ℕ)
      → Holds dec order m
      → Distinct dec m
      → bytes ≡ total m
      → bytes < usize_mod
      → Evicted max order m (evict dec max order m bytes)
  unfolding evict total trim entries
  evict_lem max [] m bytes h d e small = record {
    agreed = record { holds = h; distinct = d; counted = e };
    fits = rw (e, h) (omega arith);
    trimmed = refl;
  }
  evict_lem max (k ∷ order) m bytes (b, found, h) d e small =
      let smaller = total-remove dec k b m d found in
      let ih =
        evict_lem max order (remove dec k m) (bytes - length b) h (remove-Distinct dec k m d)
          (omega arith) (omega arith) in
      let step = trim_step max k b order m bytes found h d e in
      elim (Bool-cases (ltb max bytes)) [
        | inl over ↦
            rw (over, found, release-eq bytes b (omega arith) small)
              (record {
                agreed = ih.agreed;
                fits = ih.fits;
                trimmed = ih.trimmed ∙ sym (rw over at step);
              })
        | inr fits ↦ rw fits (record {
          agreed = record { holds = (b, found, h); distinct = d; counted = e };
          fits = ltb-false max bytes fits;
          trimmed = sym (rw fits at step);
        })
      ]

  -- The queue after a hit: the hash at its back.
  pub touch-eq :
      (k : K) (b : Bytes) (order : List K) (m : HashMap K)
      → lookup dec k m ≡ some b
      → Holds dec order m
      → touch dec k order ≡ erase dec k order ++ (k ∷ [])
  unfolding touch
  touch-eq k b order m found h =
      let (i, e) = position_found dec k order m b found h in
      ground (arith, e, remove_at-position dec k i order e)

  touch-Holds :
      (k : K) (b : Bytes) (order : List K) (m : HashMap K)
      → lookup dec k m ≡ some b
      → Holds dec order m
      → Holds dec (touch dec k order) m
  touch-Holds k b order m found h =
      rw (touch-eq k b order m found h)
        (Holds-snoc dec k (erase dec k order) m b found (Holds-erase dec k order m b found h))

  pub new-IsValid : (max : ℕ) → max + max < usize_mod → IsValid (new max)
  unfolding new total
  new-IsValid max h = record {
    agreed = record { holds = refl; distinct = tt; counted = refl };
    bounded = omega arith;
    small = h;
  }

  -- Reading never breaks the invariant.
  pub get-IsValid : (c : BlockCache K) (k : K) → IsValid c → IsValid (get dec c k).0
  unfolding get
  get-IsValid c k v = elim (Bool-cases (enabled c)) [
    | inl on ↦ rw on (elim (Option-cases (lookup dec k c.blocks)) [
      | inl miss ↦ rw (miss, read) v
      | inr (b, hit) ↦
          rw (hit, read)
            (record {
              agreed = record {
                holds = touch-Holds k b c.order c.blocks hit v.agreed.holds;
                distinct = v.agreed.distinct;
                counted = v.agreed.counted;
              };
              bounded = v.bounded;
              small = v.small;
            })
    ])
    | inr off ↦ rw off v
  ]
