-- ===== src/Cache/Entries.antt =====
-- The abstract view of the cache: its blocks in the order of their last use, oldest first.
use btc_rpc_proxy.Prelude.{
  suc, ◌≡◌, refl, sym, ◌∙◌, ◌≢◌, none, some, List, [], ◌∷◌, ◌++◌, arith, if_pos, if_neg, ap, All,
  subst, length,
}
use btc_rpc_proxy.Cache.Dict.{
  HashMap, Bytes, lookup, remove, Distinct, total, lookup-remove_self, lookup-remove_ne,
  remove_absent, remove-Distinct, total-remove,
}
use btc_rpc_proxy.Cache.Queue.{erase}
use btc_rpc_proxy.Cache.Holds.{Holds, Holds-fresh}

module _ {K : Type 0} (dec : Discrete K) where
  -- The queue's keys, each with its block.
  unfoldable pub entries : List K → HashMap K → HashMap K
  entries [] m = []
  entries (k ∷ ks) m = elim (lookup dec k m) [
    | none ↦ entries ks m
    | some b ↦ (k, b) ∷ entries ks m
  ]

  pub entries-remove :
      (k : K) (ks : List K) (m : HashMap K)
      → All (λ i. k ≢ i) ks
      → entries ks (remove dec k m) ≡ entries ks m
  unfolding entries
  entries-remove k [] m h = refl
  entries-remove k (j ∷ ks) m h =
      ground (arith, lookup-remove_ne dec k j m h.0, entries-remove k ks m h.1)

  pub entries-cons :
      (k : K) (b : Bytes) (ks : List K) (m : HashMap K)
      → All (λ i. k ≢ i) ks
      → entries ks ((k, b) ∷ m) ≡ entries ks m
  unfolding entries lookup
  entries-cons k b [] m h = refl
  entries-cons k b (j ∷ ks) m h = ground (arith, h.0, entries-cons k b ks m h.1)

  pub entries-snoc :
      (k : K) (b : Bytes) (ks : List K) (m : HashMap K)
      → lookup dec k m ≡ some b
      → entries (ks ++ (k ∷ [])) m ≡ entries ks m ++ ((k, b) ∷ [])
  unfolding entries
  entries-snoc k b [] m h = ground arith
  entries-snoc k b (j ∷ ks) m h = ground (arith, entries-snoc k b ks m h)

  -- The first of the entries is the queue's front.
  pub entries_step :
      (k : K) (b : Bytes) (ks : List K) (m : HashMap K)
      → lookup dec k m ≡ some b
      → Holds dec ks (remove dec k m)
      → entries (k ∷ ks) m ≡ (k, b) ∷ entries ks (remove dec k m)
  unfolding entries
  entries_step k b ks m found h = ground (arith, entries-remove k ks m (Holds-fresh dec k ks m h))

  pub lookup-entries :
      (q : K) (ks : List K) (m : HashMap K)
      → Holds dec ks m
      → lookup dec q (entries ks m) ≡ lookup dec q m
  unfolding lookup entries
  lookup-entries q [] m h = rw h
  lookup-entries q (k ∷ ks) m (b, found, h) = elim (dec k q) [
    | yes p ↦
        rw (entries_step k b ks m found h, if_pos _ p)
          (sym (subst (λ j. lookup dec j m ≡ some b) p found))
    | no p ↦
        rw (entries_step k b ks m found h, if_neg _ p)
          (lookup-entries q ks (remove dec k m) h ∙ lookup-remove_ne dec k q m p)
  ]

  pub length-entries :
      (ks : List K) (m : HashMap K) → Holds dec ks m → length (entries ks m) ≡ length ks
  unfolding entries
  length-entries [] m h = refl
  length-entries (k ∷ ks) m (b, found, h) =
      rw (entries_step k b ks m found h) (ap suc (length-entries ks (remove dec k m) h))

  pub total-entries :
      (ks : List K) (m : HashMap K)
      → Distinct dec m
      → Holds dec ks m
      → total (entries ks m) ≡ total m
  unfolding total entries
  total-entries [] m d h = rw h
  total-entries (k ∷ ks) m d (b, found, h) = rw (entries_step k b ks m found h) (
      omega (
        arith,
        total-entries ks (remove dec k m) (remove-Distinct dec k m d) h,
        total-remove dec k b m d found,
      ))

  erase-All : (P : K → Type 0) (k : K) (ks : List K) → All P ks → All P (erase dec k ks)
  unfolding erase
  erase-All P k [] h = tt
  erase-All P k (j ∷ ks) h = elim (dec j k) [
    | yes p ↦ rw (if_pos _ p) h.1
    | no p ↦ rw (if_neg _ p) (h.0, erase-All P k ks h.1)
  ]

  pub entries-erase :
      (k : K) (ks : List K) (m : HashMap K)
      → Holds dec ks m
      → entries (erase dec k ks) m ≡ remove dec k (entries ks m)
  unfolding erase entries remove
  entries-erase k [] m h = ground arith
  entries-erase k (j ∷ ks) m (b, found, h) =
      let fresh = Holds-fresh dec j ks m h in
      elim (dec j k) [
        | yes p ↦ ground (
          arith,
          entries-remove j ks m fresh,
          lookup-entries j ks (remove dec j m) h,
          lookup-remove_self dec j m,
          remove_absent dec j (entries ks m),
        )
        | no p ↦ ground (
          arith,
          entries-remove j ks m fresh,
          entries-remove j (erase dec k ks) m (erase-All (λ i. j ≢ i) k ks fresh),
          entries-erase k ks (remove dec j m) h,
        )
      ]
