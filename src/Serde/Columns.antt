-- ===== src/Serde/Columns.antt =====
-- The loop of the derived code, one field at a time.
use btc_rpc_proxy.Prelude.{
  ◌≤◌, ◌≡◌, refl, sym, ap, ap₂, subst, ◌∙◌, inl, inr, true, false, Option, none, some, String,
  Result, ok, err, ◌>>=◌, if◌then◌else◌, Bool-cases, Result-cases, bind-ok, ok_inj, some_inj,
  ok_err_clash, arith,
}
use btc_rpc_proxy.Json.{Value, Fields, end, field, member}
use btc_rpc_proxy.Serde.{
  DecodeError, Codec, Struct, no_fields, with, Slots, once, visit, visit_all, or,
}
use btc_rpc_proxy.Serde.Matches.{count, Means, Lacks}
use text.Mathlib.Text.{◌==◌}
use text.Mathlib.TextEquality.{eq_iff}

-- The loop for one field alone.
unfoldable pub column :
    {A : Type 0} → String → Codec A → Fields → Option A → Result (Option A) DecodeError
column name c end slot = ok slot
column name c (field k v fs) slot =
    (if k == name then once name slot (c.from v >>= λ a. ok (some a)) else ok slot) >>= λ slot'.
    column name c fs slot'

visit-Lacks :
    (s : Struct) (k : String) (v : Value) (slots : Slots s)
    → Lacks k s
    → visit s k v slots ≡ ok slots
unfolding visit
visit-Lacks no_fields k v slots h = refl
visit-Lacks (with name A c rest) k v (slot, slots) h =
    rw (h.0, visit-Lacks rest k v slots h.1, visit) refl

set_once :
    {A B C : Type 0} (name : String) (slot : Option A) (r : Result A DecodeError) (b : B)
    (f : Option A × B → Result C DecodeError)
    → once name slot (r >>= λ a. ok (some a, b)) >>= f
      ≡ once name slot (r >>= λ a. ok (some a)) >>= λ slot'. f (slot', b)
set_once name (some _) r b f = refl
set_once name none (ok a) b f = refl
set_once name none (err e) b f = refl

pair_with :
    {A B C : Type 0} (a : A) (r : Result B DecodeError) (f : A × B → Result C DecodeError)
    → (r >>= λ b. ok (a, b)) >>= f ≡ r >>= λ b. f (a, b)
pair_with a (ok b) f = refl
pair_with a (err e) f = refl

module _ (name : String) (A : Type 0) (c : Codec A) (rest : Struct) where
  own_member :
      (k : String) (v : Value) (fs : Fields) (slot : Option A) (slots : Slots rest)
      → (k == name) ≡ true
      → visit_all (with name A c rest) (field k v fs) (slot, slots)
        ≡ once name slot (c.from v >>= λ a. ok (some a)) >>= λ slot'.
            visit_all (with name A c rest) fs (slot', slots)
  unfolding visit_all visit
  own_member k v fs slot slots e =
      rw (e, visit_all, visit)
        (set_once name slot (c.from v) slots (λ slots'. visit_all (with name A c rest) fs slots'))

  other_member :
      (k : String) (v : Value) (fs : Fields) (slot : Option A) (slots : Slots rest)
      → (k == name) ≡ false
      → visit_all (with name A c rest) (field k v fs) (slot, slots)
        ≡ visit rest k v slots >>= λ slots'. visit_all (with name A c rest) fs (slot, slots')
  unfolding visit_all visit
  other_member k v fs slot slots e =
      rw (e, visit_all, visit)
        (pair_with slot (visit rest k v slots) (λ slots'. visit_all (with name A c rest) fs slots'))

  same_key : (k : String) → (k == name) ≡ true → Lacks name rest → Lacks k rest
  same_key k e l = subst (λ n. Lacks n rest) (sym ((eq_iff k name).0 e)) l

  skipped :
      (k : String) (v : Value) (fs : Fields) (slots : Slots rest)
      → Lacks k rest
      → visit_all rest (field k v fs) slots ≡ visit_all rest fs slots
  unfolding visit_all
  skipped k v fs slots l = rw (visit-Lacks rest k v slots l, visit_all) refl

  -- The fields do not see each other.
  pub visit_all-column :
      (fs : Fields) (slot slot' : Option A) (slots slots' : Slots rest)
      → Lacks name rest
      → column name c fs slot ≡ ok slot'
      → visit_all rest fs slots ≡ ok slots'
      → visit_all (with name A c rest) fs (slot, slots) ≡ ok (slot', slots')
  unfolding visit_all column
  visit_all-column end slot slot' slots slots' l p q = ap₂ (λ x y. ok (x, y)) (ok_inj p) (ok_inj q)
  visit_all-column (field k v fs) slot slot' slots slots' l p q = elim (Bool-cases (k == name)) [
    | inl e ↦
        let (next, set, p') =
          bind-ok (once name slot (c.from v >>= λ a. ok (some a))) (λ x. column name c fs x) slot'
            (rw (e, column) at p) in
        own_member k v fs slot slots e
        ∙ rw set (
            visit_all-column fs next slot' slots slots' l p'
              (sym (skipped k v fs slots (same_key k e l)) ∙ q))
    | inr e ↦
        let (next, seen, q') = bind-ok (visit rest k v slots) (λ x. visit_all rest fs x) slots' q in
        other_member k v fs slot slots e
        ∙ rw seen (visit_all-column fs slot slot' next slots' l (rw (e, column) at p) q')
  ]

  pub column-visit_all :
      (fs : Fields) (slot : Option A) (slots : Slots rest) (end' : Option A × Slots rest)
      → Lacks name rest
      → visit_all (with name A c rest) fs (slot, slots) ≡ ok end'
      → (column name c fs slot ≡ ok end'.0) × (visit_all rest fs slots ≡ ok end'.1)
  unfolding visit_all column
  column-visit_all end slot slots end' l h = (
    ap (λ (x : Option A × Slots rest). ok x.0) (ok_inj h),
    ap (λ (x : Option A × Slots rest). ok x.1) (ok_inj h),
  )
  column-visit_all (field k v fs) slot slots end' l h = elim (Bool-cases (k == name)) [
    | inl e ↦
        let (next, set, h') =
          bind-ok (once name slot (c.from v >>= λ a. ok (some a)))
            (λ x. visit_all (with name A c rest) fs (x, slots)) end'
            (sym (own_member k v fs slot slots e) ∙ h) in
        let (p, q) = column-visit_all fs next slots end' l h' in
        (rw (e, set, column) p, skipped k v fs slots (same_key k e l) ∙ q)
    | inr e ↦
        let (next, seen, h') =
          bind-ok (visit rest k v slots) (λ x. visit_all (with name A c rest) fs (slot, x)) end'
            (sym (other_member k v fs slot slots e) ∙ h) in
        let (p, q) = column-visit_all fs slot next end' l h' in
        (rw (e, column) p, rw (seen, visit_all) q)
  ]

module _ {A : Type 0} (name : String) (c : Codec A) where
  absent :
      (fs : Fields) (slot : Option A)
      → count name fs ≡ 0
      → (column name c fs slot ≡ ok slot) × (member name fs ≡ none)
  unfolding column count member
  absent end slot h = (refl, refl)
  absent (field k v fs) slot h = elim (Bool-cases (k == name)) [
    | inl e ↦ absurd (ground arith)
    | inr e ↦
        let (p, q) = absent fs slot (rw (e, count) at h) in (rw (e, column) p, rw (e, member) q)
  ]

  -- A field that stands once at most is set to what its member means.
  pub column-Means :
      (fs : Fields) (a : A)
      → Means c (member name fs) a
      → count name fs ≤ 1
      → (slot : Option A) × (column name c fs none ≡ ok slot) × (or slot c.missing ≡ some a)
  unfolding column count member
  column-Means end a m h = (none, refl, m)
  column-Means (field k v fs) a m h = elim (Bool-cases (k == name)) [
    | inl e ↦
        let (p, _) = absent fs (some a) (ground (arith, e)) in
        (some a, rw (e, (rw (e, member) at m), column) p, refl)
    | inr e ↦
        let (slot, p, q) = column-Means fs a (rw (e, member) at m) (rw (e, count) at h) in
        (slot, rw (e, column) p, q)
  ]

  filled :
      (fs : Fields) (a : A) (slot : Option A)
      → column name c fs (some a) ≡ ok slot
      → (count name fs ≡ 0) × (slot ≡ some a)
  unfolding column count
  filled end a slot h = (refl, sym (ok_inj h))
  filled (field k v fs) a slot h = elim (Bool-cases (k == name)) [
    | inl e ↦ absurd (ok_err_clash (sym (rw (e, column) at h)))
    | inr e ↦ let (p, q) = filled fs a slot (rw (e, column) at h) in (rw (e, count) p, q)
  ]

  pub Means-column :
      (fs : Fields) (a : A) (slot : Option A)
      → column name c fs none ≡ ok slot
      → or slot c.missing ≡ some a
      → Means c (member name fs) a × (count name fs ≤ 1)
  unfolding column count member
  Means-column end a slot h m =
      (subst (λ x. or x c.missing ≡ some a) (sym (ok_inj h)) m, omega arith)
  Means-column (field k v fs) a slot h m = elim (Bool-cases (k == name)) [
    | inl e ↦ elim (Result-cases (c.from v)) [
      | inl (b, d) ↦
          let (p, q) = filled fs b slot (rw (e, d, column) at h) in
          (
            rw (e, member)
                (d ∙ ap (λ x. ok x) (some_inj (subst (λ x. or x c.missing ≡ some a) q m))),
            ground (arith, e, p),
          )
      | inr (x, d) ↦ absurd (ok_err_clash (sym (rw (e, d, column) at h)))
    ]
    | inr e ↦
        let (p, q) = Means-column fs a slot (rw (e, column) at h) m in
        (rw (e, member) p, rw (e, count) q)
  ]

pub no_fields-visit_all : (fs : Fields) → visit_all no_fields fs tt ≡ ok tt
unfolding visit_all visit
no_fields-visit_all end = refl
no_fields-visit_all (field k v fs) = no_fields-visit_all fs
