-- ===== src/Cache/Members.antt =====
-- What a cache holds after a call, it held before, but for the block that an insert stores.
use btc_rpc_proxy.Prelude.{
  ℕ, ◌+◌, ◌%◌, ◌≡◌, refl, sym, ◌∙◌, ◌⊎◌, inl, inr, Option, none, some, List, [], ◌∷◌, ◌++◌, arith,
  ltb, length, Bool-cases, Option-cases,
}
use btc_rpc_proxy.Cache.{BlockCache, usize_mod, new, enabled, release, get, evict, store, insert}
use btc_rpc_proxy.Cache.Dict.{
  HashMap, Bytes, lookup, remove, insert as map_insert, lookup-remove_self, lookup-remove_ne,
}

module _ {K : Type 0} (dec : Discrete K) where
  -- The block that is held under a key.
  abbrev pub held : BlockCache K → K → Option Bytes
  held c k = lookup dec k c.blocks

  lookup-remove-some :
      (k q : K) (m : HashMap K) (b : Bytes)
      → lookup dec q (remove dec k m) ≡ some b
      → lookup dec q m ≡ some b
  lookup-remove-some k q m b h = elim (dec k q) [
    | yes e ↦ absurd (ground (arith, e, lookup-remove_self dec k m))
    | no n ↦ sym (lookup-remove_ne dec k q m n) ∙ h
  ]

  evict_members :
      (max : ℕ) (order : List K) (m : HashMap K) (bytes : ℕ) (q : K) (b : Bytes)
      → lookup dec q (evict dec max order m bytes).blocks ≡ some b
      → lookup dec q m ≡ some b
  unfolding evict
  evict_members max [] m bytes q b h = h
  evict_members max (k ∷ order) m bytes q b h = elim (Bool-cases (ltb max bytes)) [
    | inl over ↦ lookup-remove-some k q m b (
        evict_members max order (remove dec k m) (release (lookup dec k m) bytes) q b
          (rw over at h))
    | inr fits ↦ rw fits at h
  ]

  map_insert_members :
      (k q : K) (b x : Bytes) (m : HashMap K)
      → lookup dec q (map_insert dec k b m) ≡ some x
      → ((k ≡ q) × (b ≡ x)) ⊎ (lookup dec q m ≡ some x)
  unfolding map_insert lookup
  map_insert_members k q b x m h = elim (dec k q) [
    | yes e ↦ inl (e, ground arith)
    | no n ↦ inr (lookup-remove-some k q m x (ground arith))
  ]

  pub insert-held :
      (c : BlockCache K) (k q : K) (b x : Bytes)
      → held (insert dec c k b) q ≡ some x
      → ((k ≡ q) × (b ≡ x)) ⊎ (held c q ≡ some x)
  unfolding insert
  insert-held c k q b x h = elim (Bool-cases (enabled c)) [
    | inr off ↦ inr (rw off at h)
    | inl on ↦ elim (Bool-cases (ltb c.max_bytes (length b))) [
      | inl big ↦ inr (rw (on, big) at h)
      | inr fits ↦ elim (Option-cases (lookup dec k c.blocks)) [
        | inr (y, e) ↦ inr (rw (on, fits, e, store) at h)
        | inl e ↦ map_insert_members k q b x c.blocks (
            evict_members c.max_bytes (c.order ++ (k ∷ [])) (map_insert dec k b c.blocks)
              ((c.bytes + length b) % usize_mod) q x (rw (on, fits, e, store) at h))
      ]
    ]
  ]

  pub get-held : (c : BlockCache K) (k q : K) → held (get dec c k).0 q ≡ held c q
  unfolding get
  get-held c k q = ground arith

  -- A lookup answers with the block that is held.
  pub get-answer :
      (c : BlockCache K) (k : K) (b : Bytes) → (get dec c k).1 ≡ some b → held c k ≡ some b
  unfolding get
  get-answer c k b h = ground arith

  pub new-held : (max : ℕ) (q : K) → held (new max) q ≡ none
  unfolding new lookup
  new-held max q = refl
