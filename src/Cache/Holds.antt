-- ===== src/Cache/Holds.antt =====
-- The queue names exactly the keys of the map, each once.
use btc_rpc_proxy.Prelude.{
  ℕ, suc, ◌≡◌, sym, ◌∙◌, ◌≢◌, none, some, List, [], ◌∷◌, ◌++◌, arith, if_pos, if_neg, length, subst,
  All,
}
use btc_rpc_proxy.Cache.Dict.{
  HashMap, Bytes, lookup, remove, Distinct, lookup-remove_self, lookup-remove_ne, remove_absent,
  remove_comm, remove-Distinct, length-remove,
}
use btc_rpc_proxy.Cache.Queue.{erase, position}

module _ {K : Type 0} (dec : Discrete K) where
  abbrev pub Holds : List K → HashMap K → Type 0
  Holds [] m = m ≡ []
  Holds (k ∷ ks) m = (b : Bytes) × (lookup dec k m ≡ some b) × Holds ks (remove dec k m)

  -- A key that is looked up after another was removed is not that other key.
  ne_of_found :
      (k j : K) (m : HashMap K) {c : Bytes} → lookup dec j (remove dec k m) ≡ some c → k ≢ j
  ne_of_found k j m h e = ground (arith, lookup-remove_self dec k m)

  pub Holds-snoc :
      (k : K) (ks : List K) (m : HashMap K) (b : Bytes)
      → lookup dec k m ≡ some b
      → Holds ks (remove dec k m)
      → Holds (ks ++ (k ∷ [])) m
  Holds-snoc k [] m b found h = (b, found, h)
  Holds-snoc k (j ∷ ks) m b found (c, found', h) =
      let ne : k ≢ j = ne_of_found k j m found' in
      (
        c,
        sym (lookup-remove_ne dec k j m ne) ∙ found',
        Holds-snoc k ks (remove dec j m) b (lookup-remove_ne dec j k m (λ e. ne (sym e)) ∙ found)
            (subst (Holds ks) (remove_comm dec j k m) h),
      )

  -- To take a key out of both sides keeps the agreement.
  pub Holds-erase :
      (k : K) (ks : List K) (m : HashMap K) (b : Bytes)
      → lookup dec k m ≡ some b
      → Holds ks m
      → Holds (erase dec k ks) (remove dec k m)
  unfolding erase remove
  Holds-erase k [] m b found h = rw h
  Holds-erase k (j ∷ ks) m b found (c, found', h) = elim (dec j k) [
    | yes p ↦ rw (if_pos _ p) (subst (λ i. Holds ks (remove dec i m)) p h)
    | no p ↦ rw (if_neg _ p) (
      c,
      lookup-remove_ne dec k j m (λ e. p (sym e)) ∙ found',
      subst (Holds (erase dec k ks)) (remove_comm dec k j m)
          (Holds-erase k ks (remove dec j m) b (lookup-remove_ne dec j k m p ∙ found) h),
    )
  ]

  pub length-Holds :
      (ks : List K) (m : HashMap K) → Distinct dec m → Holds ks m → length m ≡ length ks
  length-Holds [] m d h = rw h
  length-Holds (k ∷ ks) m d (b, found, h) = omega (
    arith,
    length-remove dec k b m d found,
    length-Holds ks (remove dec k m) (remove-Distinct dec k m d) h,
  )

  -- Keys that agree with a map without `k` are not `k`.
  pub Holds-fresh :
      (k : K) (ks : List K) (m : HashMap K) → Holds ks (remove dec k m) → All (λ i. k ≢ i) ks
  Holds-fresh k [] m h = tt
  Holds-fresh k (j ∷ ks) m (b, found, h) = (
    ne_of_found k j m found,
    Holds-fresh k ks (remove dec j m) (subst (Holds ks) (remove_comm dec j k m) h),
  )

  pub Holds-absent :
      (k : K) (ks : List K) (m : HashMap K)
      → lookup dec k m ≡ none
      → Holds ks m
      → All (λ i. k ≢ i) ks
  Holds-absent k ks m h a = Holds-fresh k ks m (subst (Holds ks) (sym (remove_absent dec k m h)) a)

  pub position_found :
      (k : K) (ks : List K) (m : HashMap K) (b : Bytes)
      → lookup dec k m ≡ some b
      → Holds ks m
      → (i : ℕ) × (position dec k ks ≡ some i)
  unfolding position lookup
  position_found k [] m b found h = absurd (ground arith)
  position_found k (j ∷ ks) m b found (c, found', h) = elim (dec j k) [
    | yes p ↦ (0, ground arith)
    | no p ↦
        let (i, e) =
          position_found k ks (remove dec j m) b (lookup-remove_ne dec j k m p ∙ found) h in
        (suc i, rw (if_neg _ p, e))
  ]
