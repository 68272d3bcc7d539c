-- ===== src/Prelude/Keyed.antt =====
-- Lists of numbered values: the standard library's `enumerate` and `sort_by_key`, and why a list
-- with distinct numbers has one ascending order.
use btc_rpc_proxy.Prelude.{
  ℕ, suc, ◌≤◌, ◌<◌, ◌≡◌, refl, sym, ◌≢◌, ap₂, true, false, List, [], ◌∷◌, ◌++◌, arith, leb,
  if◌then◌else◌, Bool-cases, Option-cases, inl, inr, Option, none, some, map, ◌⊎◌,
}
use mathlib.Core.List.{
  Mem, Perm, Pairwise, perm_middle, filter_map, mem-cons, mem-cons_self, forall_mem-cons,
  not-mem-nil, Pairwise-singleton, mem-cons_of_mem, mem-filter_map, filter_map-cons-none,
  filter_map-cons-some,
}
use mathlib.Core.List.Pairwise
use mathlib.Core.List.Perm
use mathlib.Core.Logic.Or
use mathlib.Core.Logic.{∥∥₁_elim}
use mathlib.Core.Option
use native.Mathlib.Bridge.{le_prop}
use native.Mathlib.Nat.{lt_trans, lt_irrefl}
use mathlib.Core.HLevel.{¬_prop}

module _ {A : Type 0} where
  enumerate_from : ℕ → List A → List (ℕ × A)
  enumerate_from i [] = []
  enumerate_from i (x ∷ xs) = (i, x) ∷ enumerate_from (suc i) xs

  -- `iter().enumerate()`
  unfoldable pub enumerate : List A → List (ℕ × A)
  unfolding enumerate_from
  enumerate xs = enumerate_from 0 xs

  insert_by_key : ℕ × A → List (ℕ × A) → List (ℕ × A)
  insert_by_key x [] = x ∷ []
  insert_by_key x (y ∷ ys) = if leb x.0 y.0 then x ∷ y ∷ ys else y ∷ insert_by_key x ys

  -- `sort_by_key(|(idx, _)| *idx)`: ascending, and stable
  unfoldable pub sort_by_key : List (ℕ × A) → List (ℕ × A)
  unfolding insert_by_key
  sort_by_key [] = []
  sort_by_key (x ∷ xs) = insert_by_key x (sort_by_key xs)

  abbrev pub Before : ℕ × A → ℕ × A → Type 0
  Before x y = x.0 < y.0

  abbrev pub Differ : ℕ × A → ℕ × A → Type 0
  Differ x y = x.0 ≢ y.0

  abbrev pub IsSorted : List (ℕ × A) → Type 0
  IsSorted = Pairwise Before

  insert-perm : (x : ℕ × A) (l : List (ℕ × A)) → Perm (insert_by_key x l) (x ∷ l)
  unfolding insert_by_key
  insert-perm x [] = Perm.rfl
  insert-perm x (y ∷ ys) = elim (Bool-cases (leb x.0 y.0)) [
    | inl le ↦ rw le Perm.rfl
    | inr gt ↦ rw gt (Perm.trans (Perm.cons y (insert-perm x ys)) (Perm.swap x y ys))
  ]

  pub sort-perm : (l : List (ℕ × A)) → Perm (sort_by_key l) l
  unfolding sort_by_key
  sort-perm [] = Perm.rfl
  sort-perm (x ∷ xs) = Perm.trans (insert-perm x (sort_by_key xs)) (Perm.cons x (sort-perm xs))

  below_of_le : (x y : ℕ × A) → leb x.0 y.0 ≡ true → x.0 ≢ y.0 → x.0 < y.0
  below_of_le x y h d = ground arith

  above_of_gt : (x y : ℕ × A) → leb x.0 y.0 ≡ false → y.0 < x.0
  above_of_gt x y h = ground arith

  insert-IsSorted :
      (x : ℕ × A) (l : List (ℕ × A))
      → ((y : ℕ × A) → Mem y l → Differ x y)
      → IsSorted l
      → IsSorted (insert_by_key x l)
  unfolding insert_by_key
  insert-IsSorted x [] d s = Pairwise-singleton _ x
  insert-IsSorted x (y ∷ ys) d (Pairwise.cons h s) = elim (Bool-cases (leb x.0 y.0)) [
    | inl le ↦
        let lt : x.0 < y.0 = below_of_le x y le (d y mem-cons_self) in
        rw le (
          Pairwise.cons ((forall_mem-cons (λ z. le_prop)).1 (lt, λ z m. lt_trans lt (h z m)))
            (Pairwise.cons h s))
    | inr gt ↦ rw gt (
        Pairwise.cons
          (λ z m.
            (forall_mem-cons (λ z. le_prop)).1 (above_of_gt x y gt, h) z
              ((Perm.mem_iff (insert-perm x ys)).0 m))
          (insert-IsSorted x ys (λ z m. d z (mem-cons_of_mem y m)) s))
  ]

  pub sort-IsSorted : (l : List (ℕ × A)) → Pairwise Differ l → IsSorted (sort_by_key l)
  unfolding sort_by_key
  sort-IsSorted [] d = Pairwise.nil
  sort-IsSorted (x ∷ xs) (Pairwise.cons h d) =
      insert-IsSorted x (sort_by_key xs) (λ y m. h y ((Perm.mem_iff (sort-perm xs)).0 m))
        (sort-IsSorted xs d)

  -- Two ascending lists of the same values are one list.
  module _ (is_set : IsSet A) where
    head_eq :
        {x y : ℕ × A} {xs ys : List (ℕ × A)}
        → IsSorted (x ∷ xs)
        → IsSorted (y ∷ ys)
        → Perm (x ∷ xs) (y ∷ ys)
        → x ≡ y
    head_eq {x} {y} (Pairwise.cons hx sx) (Pairwise.cons hy sy) p =
        Or.elim (pair_set x y) (mem-cons.0 ((Perm.mem_iff p).0 mem-cons_self)) (λ e. e)
          λ mx.
            Or.elim (pair_set x y) (mem-cons.0 ((Perm.mem_iff p).1 mem-cons_self)) (λ e. sym e)
              λ my. absurd (lt_irrefl _ (lt_trans (hy x mx) (hx y my)))
      where
        pair_set : IsSet (ℕ × A)
        pair_set = hlevel is_set

    IsSorted-tail : {x : ℕ × A} {xs : List (ℕ × A)} → IsSorted (x ∷ xs) → IsSorted xs
    IsSorted-tail (Pairwise.cons h s) = s

    tail_perm : {x y : ℕ × A} {xs ys : List (ℕ × A)} → x ≡ y → Perm (x ∷ xs) (y ∷ ys) → Perm xs ys
    tail_perm same p =
        let moved = Perm.cons' same Perm.rfl in Perm.cons_inv (Perm.trans p (Perm.symm moved))

    pub IsSorted-eq_of_perm :
        (xs ys : List (ℕ × A)) → IsSorted xs → IsSorted ys → Perm xs ys → xs ≡ ys
    IsSorted-eq_of_perm [] ys s t p = Perm.nil-eq p
    IsSorted-eq_of_perm (x ∷ xs) [] s t p = Perm.eq-nil p
    IsSorted-eq_of_perm (x ∷ xs) (y ∷ ys) s t p =
        let same = head_eq s t p in
        let rest =
          IsSorted-eq_of_perm xs ys (IsSorted-tail s) (IsSorted-tail t) (tail_perm same p) in
        ap₂ ◌∷◌ same rest

  enumerate_from_bound :
      (k i : ℕ) (xs : List A) → k ≤ i → (z : ℕ × A) → Mem z (enumerate_from i xs) → k ≤ z.0
  unfolding enumerate_from
  enumerate_from_bound k i [] h z m = absurd (not-mem-nil m)
  enumerate_from_bound k i (x ∷ xs) h z m =
      (forall_mem-cons (λ z. le_prop)).1 (h, enumerate_from_bound k (suc i) xs (omega arith)) z m

  enumerate_from-IsSorted : (i : ℕ) (xs : List A) → IsSorted (enumerate_from i xs)
  unfolding enumerate_from
  enumerate_from-IsSorted i [] = Pairwise.nil
  enumerate_from-IsSorted i (x ∷ xs) =
      Pairwise.cons (enumerate_from_bound (suc i) (suc i) xs (omega arith))
        (enumerate_from-IsSorted (suc i) xs)

  pub enumerate-IsSorted : (xs : List A) → IsSorted (enumerate xs)
  unfolding enumerate
  enumerate-IsSorted xs = enumerate_from-IsSorted 0 xs

-- A function that keeps the numbers, applied to an ascending list.
module _ {A B : Type 0} (f : ℕ × A → Option B) where
  abbrev pub keyed : ℕ × A → Option (ℕ × B)
  keyed x = Option.map (λ b. (x.0, b)) (f x)

  filter_map_bound :
      (k : ℕ) (l : List (ℕ × A))
      → ((z : ℕ × A) → Mem z l → k < z.0)
      → (z : ℕ × B) → Mem z (filter_map keyed l)
      → k < z.0
  filter_map_bound k l h z m =
      ∥∥₁_elim (((mem-filter_map keyed l).0 m)) le_prop (λ w. bound w.0 w.1 w.2)
    where
      bound : (x : ℕ × A) → Mem x l → keyed x ≡ some z → k < z.0
      bound x m e = ground (arith, h x m)

  pub filter_map-IsSorted : (l : List (ℕ × A)) → IsSorted l → IsSorted (filter_map keyed l)
  unfolding filter_map
  filter_map-IsSorted [] s = Pairwise.nil
  filter_map-IsSorted (x ∷ xs) (Pairwise.cons h s) = elim (Option-cases (f x)) [
    | inl e ↦ rw (filter_map-cons-none keyed x xs (ground arith)) (filter_map-IsSorted xs s)
    | inr (b, e) ↦
        rw (filter_map-cons-some keyed x xs {b = (x.0, b)} (ground arith))
          (Pairwise.cons (filter_map_bound x.0 xs h) (filter_map-IsSorted xs s))
  ]

-- Two functions that divide what a third one returns between them.
module _ {A B : Type 0} (f g h : ℕ × A → Option B) where
  abbrev pub Divides : ℕ × A → Type 0
  Divides x = ((f x ≡ h x) × (g x ≡ none)) ⊎ ((f x ≡ none) × (g x ≡ h x))

  pub filter_map_divide-perm :
      ((x : ℕ × A) → Divides x)
      → (l : List (ℕ × A))
      → Perm (filter_map (keyed f) l ++ filter_map (keyed g) l) (filter_map (keyed h) l)
  unfolding filter_map
  filter_map_divide-perm d [] = Perm.rfl
  filter_map_divide-perm d (x ∷ l) = elim (d x) [
    | inl (left, rest) ↦
        rw (rest, left)
          (elim (Option-cases (h x)) [
            | inl e ↦ rw e (filter_map_divide-perm d l)
            | inr (b, e) ↦ rw e (Perm.cons (x.0, b) (filter_map_divide-perm d l))
          ])
    | inr (rest, right) ↦
        rw (rest, right)
          (elim (Option-cases (h x)) [
            | inl e ↦ rw e (filter_map_divide-perm d l)
            | inr (b, e) ↦ rw e (
                Perm.trans (perm_middle (filter_map (keyed f) l) (filter_map (keyed g) l))
                  (Perm.cons (x.0, b) (filter_map_divide-perm d l)))
          ])
  ]

-- The values, without their numbers, of a function that does not look at the number.
module _ {A B : Type 0} (f : A → Option B) where
  values_from :
      (i : ℕ) (xs : List A)
      → map (λ y. y.1) (filter_map (keyed (λ x. f x.1)) (enumerate_from i xs)) ≡ filter_map f xs
  unfolding filter_map enumerate_from
  values_from i [] = refl
  values_from i (x ∷ xs) = ground (arith, values_from (suc i) xs)

  pub filter_map-enumerate :
      (xs : List A)
      → map (λ y. y.1) (filter_map (keyed (λ x. f x.1)) (enumerate xs)) ≡ filter_map f xs
  unfolding enumerate
  filter_map-enumerate xs = values_from 0 xs

-- Ascending numbers are distinct, and stay distinct in another order.
pub IsSorted-Differ : {A : Type 0} (l : List (ℕ × A)) → IsSorted l → Pairwise Differ l
IsSorted-Differ l s = Pairwise.imp (λ x y h. omega arith) s

pub Differ-perm :
    {A : Type 0} {l r : List (ℕ × A)} → Perm l r → Pairwise Differ l → Pairwise Differ r
Differ-perm p d = Perm.pairwise (λ x y. ¬_prop) (λ x y n e. n (sym e)) p d
