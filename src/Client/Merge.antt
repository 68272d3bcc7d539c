-- ===== src/Client/Merge.antt =====
-- `merge_by` of the itertools crate, by the laws that its documentation states.
use btc_rpc_proxy.Prelude.{
  ℕ, ◌≡◌, Bool, false, List, [], ◌∷◌, ◌++◌, arith, ltb, if◌then◌else◌, Bool-cases, inl, inr, ltb→lt,
}
use btc_rpc_proxy.Prelude.Keyed.{Before, Differ, IsSorted}
use mathlib.Core.List.{
  Mem, Perm, Pairwise, perm_middle, forall_mem-cons, mem-cons_self, mem-cons_of_mem, mem-append,
  append-nil,
}
use mathlib.Core.List.Perm
use mathlib.Core.Logic.Or
use native.Mathlib.Bridge.{le_prop}
use native.Mathlib.Nat.{lt_trans}

-- The left head goes first where the test holds, else the right one.
pub record Itertools (A : Type 0) : Type 0 where
  pub merge_by : (A → A → Bool) → List A → List A → List A
  pub merge_by-nil-left : (p : A → A → Bool) (ys : List A) → merge_by p [] ys ≡ ys
  pub merge_by-nil-right : (p : A → A → Bool) (xs : List A) → merge_by p xs [] ≡ xs
  pub merge_by-cons :
      (p : A → A → Bool) (x y : A) (xs ys : List A)
      → merge_by p (x ∷ xs) (y ∷ ys)
        ≡ (if p x y then x ∷ merge_by p xs (y ∷ ys) else y ∷ merge_by p (x ∷ xs) ys)

module _ {A : Type 0} (it : Itertools (ℕ × A)) where
  -- `merge_by(intercepted, |(a, _), (b, _)| a < b)`
  abbrev pub merge : List (ℕ × A) → List (ℕ × A) → List (ℕ × A)
  merge = it.merge_by (λ a b. ltb a.0 b.0)

  pub merge-perm : (xs ys : List (ℕ × A)) → Perm (merge xs ys) (xs ++ ys)
  merge-perm [] ys = rw it.merge_by-nil-left Perm.rfl
  merge-perm (x ∷ xs) [] = rw (it.merge_by-nil-right, append-nil) Perm.rfl
  merge-perm (x ∷ xs) (y ∷ ys) = elim (Bool-cases (ltb x.0 y.0)) [
    | inl lt ↦ rw (it.merge_by-cons, lt) (Perm.cons x (merge-perm xs (y ∷ ys)))
    | inr ge ↦
        rw (it.merge_by-cons, ge)
          (Perm.trans (Perm.cons y (merge-perm (x ∷ xs) ys)) (Perm.symm (perm_middle (x ∷ xs) ys)))
  ]

  abbrev pub IsApart : List (ℕ × A) → List (ℕ × A) → Type 0
  IsApart xs ys = (a : ℕ × A) → Mem a xs → (b : ℕ × A) → Mem b ys → Differ a b

  above :
      (x : ℕ × A) (xs ys : List (ℕ × A))
      → ((z : ℕ × A) → Mem z xs → Before x z)
      → ((z : ℕ × A) → Mem z ys → Before x z)
      → (z : ℕ × A) → Mem z (merge xs ys)
      → Before x z
  above x xs ys h k z m =
      Or.elim le_prop (mem-append.0 ((Perm.mem_iff (merge-perm xs ys)).0 m)) (h z) (k z)

  below_head :
      (x y : ℕ × A) (ys : List (ℕ × A))
      → Before x y
      → ((z : ℕ × A) → Mem z ys → Before y z)
      → (z : ℕ × A) → Mem z (y ∷ ys)
      → Before x z
  below_head x y ys lt h = (forall_mem-cons (λ z. le_prop)).1 (lt, λ z m. lt_trans lt (h z m))

  Differ-lt : (x y : ℕ × A) → ltb x.0 y.0 ≡ false → Differ x y → Before y x
  Differ-lt x y h d = ground arith

  pub merge-IsSorted :
      (xs ys : List (ℕ × A)) → IsApart xs ys → IsSorted xs → IsSorted ys → IsSorted (merge xs ys)
  merge-IsSorted [] ys d sx sy = rw it.merge_by-nil-left sy
  merge-IsSorted (x ∷ xs) [] d sx sy = rw it.merge_by-nil-right sx
  merge-IsSorted (x ∷ xs) (y ∷ ys) d (Pairwise.cons hx sx) (Pairwise.cons hy sy) =
      elim (Bool-cases (ltb x.0 y.0)) [
        | inl lt ↦
            rw (it.merge_by-cons, lt)
              (Pairwise.cons (above x xs (y ∷ ys) hx (below_head x y ys (ltb→lt _ _ lt) hy)) (
                merge-IsSorted xs (y ∷ ys) (λ a m. d a (mem-cons_of_mem x m)) sx
                  (Pairwise.cons hy sy)))
        | inr ge ↦
            rw (it.merge_by-cons, ge)
              (Pairwise.cons
                (above y (x ∷ xs) ys
                  (below_head y x xs (Differ-lt x y ge (d x mem-cons_self y mem-cons_self)) hx) hy)
                (merge-IsSorted (x ∷ xs) ys (λ a m b k. d a m b (mem-cons_of_mem y k))
                  (Pairwise.cons hx sx) sy))
      ]
