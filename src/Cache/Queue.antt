-- ===== src/Cache/Queue.antt =====
-- The standard library's `VecDeque` as a list, front first, with what `get` calls of it.
use btc_rpc_proxy.Prelude.{ℕ, zero, suc, ◌≡◌, refl, Option, none, some, List, [], ◌∷◌, arith, ite}
use mathlib.Core.Option

module _ {K : Type 0} where
  -- `order.remove(pos)`
  unfoldable pub remove_at : ℕ → List K → List K
  remove_at i [] = []
  remove_at zero (k ∷ ks) = ks
  remove_at (suc i) (k ∷ ks) = k ∷ remove_at i ks

module _ {K : Type 0} (dec : Discrete K) where
  -- `order.iter().position(|h| h == hash)`
  unfoldable pub position : K → List K → Option ℕ
  position k [] = none
  position k (j ∷ ks) = ite (dec j k) (some 0) (Option.map suc (position k ks))

  -- The queue without the first element that is `k`.
  unfoldable pub erase : K → List K → List K
  erase k [] = []
  erase k (j ∷ ks) = ite (dec j k) ks (j ∷ erase k ks)

  pub remove_at-position :
      (k : K) (i : ℕ) (ks : List K) → position k ks ≡ some i → remove_at i ks ≡ erase k ks
  unfolding remove_at position erase
  remove_at-position k i [] h = refl
  remove_at-position k zero (j ∷ ks) h = ground arith
  remove_at-position k (suc i) (j ∷ ks) h = ground (arith, remove_at-position k i ks)
