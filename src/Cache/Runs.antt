-- ===== src/Cache/Runs.antt =====
-- Every sequence of calls that a cache serves.
use btc_rpc_proxy.Prelude.{
  ℕ, ◌+◌, ◌<◌, ◌≡◌, refl, ◌∙◌, ap, ap₂, subst, true, Option, List, [], ◌∷◌, arith, ltb,
  if◌then◌else◌, length, Bool-cases, inl, inr, lt→ltb, ltb→lt, ltb-false,
}
use btc_rpc_proxy.Cache.{BlockCache, usize_mod, new, enabled, get, insert}
use btc_rpc_proxy.Cache.Dict.{HashMap, Bytes}
use btc_rpc_proxy.Cache.Entries.{entries}
use btc_rpc_proxy.Cache.Lru
use btc_rpc_proxy.Cache.Laws.{IsValid, view, new-IsValid, get-IsValid}
use btc_rpc_proxy.Cache.Refines.{insert-IsValid, get-refines, insert-refines, insert_oversized}

pub data Call (K : Type 0) : Type 0 where
  gets : K → Call K
  inserts : K → Bytes → Call K

module _ {K : Type 0} (dec : Discrete K) where
  -- The state after the calls, and the answers of the lookups among them.
  unfoldable pub run : BlockCache K → List (Call K) → BlockCache K × List (Option Bytes)
  run c [] = (c, [])
  run c (gets k ∷ calls) =
      let rest = run (get dec c k).0 calls in (rest.0, (get dec c k).1 ∷ rest.1)
  run c (inserts k b ∷ calls) = run (insert dec c k b) calls

  -- The same calls on the abstract cache, where a block larger than the bound is left out.
  unfoldable pub model : ℕ → HashMap K → List (Call K) → HashMap K × List (Option Bytes)
  model max l [] = (l, [])
  model max l (gets k ∷ calls) =
      let rest = model max (Lru.get dec l k).0 calls in (rest.0, (Lru.get dec l k).1 ∷ rest.1)
  model max l (inserts k b ∷ calls) =
      model max (if ltb max (length b) then l else Lru.insert dec max l k b) calls

  run-IsValid :
      (c : BlockCache K) (calls : List (Call K)) → IsValid dec c → IsValid dec (run c calls).0
  unfolding run
  run-IsValid c [] v = v
  run-IsValid c (gets k ∷ calls) v = run-IsValid (get dec c k).0 calls (get-IsValid dec c k v)
  run-IsValid c (inserts k b ∷ calls) v =
      run-IsValid (insert dec c k b) calls (insert-IsValid dec c k b v)

  get-max_bytes : (c : BlockCache K) (k : K) → (get dec c k).0.max_bytes ≡ c.max_bytes
  unfolding get
  get-max_bytes c k = ground arith

  insert-max_bytes :
      (c : BlockCache K) (k : K) (b : Bytes) → (insert dec c k b).max_bytes ≡ c.max_bytes
  unfolding insert
  insert-max_bytes c k b = ground arith

  insert-view :
      (c : BlockCache K) (k : K) (b : Bytes)
      → IsValid dec c
      → enabled c ≡ true
      → view dec (insert dec c k b) ≡ (
          if ltb c.max_bytes (length b)
          then view dec c
          else Lru.insert dec c.max_bytes (view dec c) k b)
  insert-view c k b v on = elim (Bool-cases (ltb c.max_bytes (length b))) [
    | inl big ↦ rw big (ap (view dec) (insert_oversized dec c k b (ltb→lt _ _ big)))
    | inr fits ↦ rw fits (insert-refines dec c k b v on (ltb-false _ _ fits))
  ]

  run_agrees :
      (max : ℕ) (l : HashMap K) (c : BlockCache K) (calls : List (Call K))
      → IsValid dec c
      → 0 < max
      → c.max_bytes ≡ max
      → view dec c ≡ l
      → (view dec (run c calls).0 ≡ (model max l calls).0)
        × ((run c calls).1 ≡ (model max l calls).1)
  unfolding run model enabled
  run_agrees max l c [] v on e same = (same, refl)
  run_agrees max l c (gets k ∷ calls) v on e same =
      let step = get-refines dec c k v (rw (← e) at (lt→ltb 0 max on)) in
      let (state, answers) =
        run_agrees max (Lru.get dec l k).0 (get dec c k).0 calls (get-IsValid dec c k v) on
          (get-max_bytes c k ∙ e)
          (subst (λ l. view dec (get dec c k).0 ≡ (Lru.get dec l k).0) same step.0) in
      (state, ap₂ ◌∷◌ (subst (λ l. (get dec c k).1 ≡ (Lru.get dec l k).1) same step.1) answers)
  run_agrees max l c (inserts k b ∷ calls) v on e same =
      run_agrees max (after max l) (insert dec c k b) calls (insert-IsValid dec c k b v) on
        (insert-max_bytes c k b ∙ e)
        (subst
          (λ n.
            view dec (insert dec c k b) ≡ (if ltb n (length b) then l else Lru.insert dec n l k b))
          e
          (subst (λ l'. view dec (insert dec c k b) ≡ after c.max_bytes l') same
            (insert-view c k b v (rw (← e) at (lt→ltb 0 max on)))))
    where
      after : ℕ → HashMap K → HashMap K
      after n l' = if ltb n (length b) then l' else Lru.insert dec n l' k b

  -- For a size above 0 and below half the range of a usize, after any calls on a new cache its
  -- state is valid and is that of the abstract cache after the same calls, and the answers are
  -- the same.
  pub run-model :
      (max : ℕ) (calls : List (Call K))
      → 0 < max
      → max + max < usize_mod
      → IsValid dec (run (new max) calls).0
        × (view dec (run (new max) calls).0 ≡ (model max [] calls).0)
        × ((run (new max) calls).1 ≡ (model max [] calls).1)
  unfolding new view entries
  run-model max calls on small =
      let v = new-IsValid dec max small in
      let (state, answers) = run_agrees max [] (new max) calls v on refl refl in
      (run-IsValid (new max) calls v, state, answers)
