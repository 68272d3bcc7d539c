-- ===== src/Serde/Flat.antt =====
-- A struct with a flattened one is read and written.
use btc_rpc_proxy.Prelude.{
  suc, ◌+◌, ◌≤◌, ◌≡◌, refl, sym, ap, subst, ◌∙◌, ◌↔◌, inl, inr, false, Option, none, some, String,
  ok, ◌>>=◌, Bool-cases, bind-ok, ok_inj, arith,
}
use btc_rpc_proxy.Json.{Fields, end, field, member}
use btc_rpc_proxy.Serde.{
  Struct, no_fields, with, Values, or, read, write, known, others, read_flat, write_flat, append,
}
use btc_rpc_proxy.Serde.Laws.{read-Matches_iff}
use btc_rpc_proxy.Serde.Matches.{count, Means, Matches, Lacks, AreDistinct}
use btc_rpc_proxy.Serde.Written.{AreWritten, write-Lacks, write-Matches}
use text.Mathlib.Text.{◌==◌}
use text.Mathlib.TextEquality.{eq_iff}

-- No field of the second struct has the name of one of the first.
abbrev pub Apart : Struct → Struct → Type 0
Apart no_fields t = Unit
Apart (with name A c rest) t = Lacks name t × Apart rest t

known-Lacks : (s : Struct) (k : String) → Lacks k s → known s k ≡ false
unfolding known
known-Lacks no_fields k l = refl
known-Lacks (with name A c rest) k l = rw (l.0, known) (known-Lacks rest k l.1)

others-Lacks :
    (s : Struct) (k : String) (fs : Fields)
    → Lacks k s
    → (member k (others s fs) ≡ member k fs) × (count k (others s fs) ≡ count k fs)
unfolding others member count
others-Lacks s k end l = (refl, refl)
others-Lacks s k (field j x fs) l = elim (Bool-cases (j == k)) [
  | inl e ↦
      let unknown = known-Lacks s j (subst (λ n. Lacks n s) (sym ((eq_iff j k).0 e)) l) in
      rw (unknown, e, others, member, count) (refl, ap suc (others-Lacks s k fs l).1)
  | inr e ↦ elim (Bool-cases (known s j)) [
    | inl h ↦ rw (h, e, others, member, count) (others-Lacks s k fs l)
    | inr h ↦ rw (h, e, others, member, count) (others-Lacks s k fs l)
  ]
]

others-Matches_iff :
    (s t : Struct) (v : Values s) (fs : Fields)
    → Apart s t
    → Matches s v (others t fs) ↔ Matches s v fs
others-Matches_iff no_fields t v fs l = (λ m. m, λ m. m)
others-Matches_iff (with name A c rest) t (a, v) fs l =
    let (same, number) = others-Lacks t name fs l.0 in
    let (there, back) = others-Matches_iff rest t v fs l.1 in
    (
      λ m. (subst (λ o. Means c o a) same m.0, subst (λ n. n ≤ 1) number m.1, there m.2),
      λ m. (subst (λ o. Means c o a) (sym same) m.0, subst (λ n. n ≤ 1) (sym number) m.1, back m.2),
    )

-- A struct with a flattened one is read exactly from an object that matches both.
pub read_flat-Matches_iff :
    (own inner : Struct) (v : Values own) (w : Values inner) (fs : Fields)
    → AreDistinct own
    → AreDistinct inner
    → Apart inner own
    → (read_flat own inner fs ≡ ok (w, v)) ↔ (Matches inner w fs × Matches own v fs)
unfolding read_flat
read_flat-Matches_iff own inner v w fs d e l =
    let (there, back) = others-Matches_iff inner own w fs l in
    (
      λ h.
          let (v', first, h') =
            bind-ok (read own fs) (λ x. read inner (others own fs) >>= λ y. ok (y, x)) (w, v) h in
          let (w', second, same) =
            bind-ok (read inner (others own fs)) (λ y. ok (y, v')) (w, v) h' in
          (
            there (
                (read-Matches_iff inner w (others own fs) e).0
                  (second ∙ ap (λ (z : Values inner × Values own). ok z.0) (ok_inj same))),
            (read-Matches_iff own v fs d).0
                (first ∙ ap (λ (z : Values inner × Values own). ok z.1) (ok_inj same)),
          ),
      λ m.
          rw
            (
              (read-Matches_iff own v fs d).1 m.1,
              (read-Matches_iff inner w (others own fs) e).1 (back m.0),
            )
            refl,
    )

member-append :
    (k : String) (fs gs : Fields) → member k (append fs gs) ≡ or (member k fs) (member k gs)
unfolding member append
member-append k end gs = refl
member-append k (field j x fs) gs = ground (arith, member-append k fs gs)

count-append : (k : String) (fs gs : Fields) → count k (append fs gs) ≡ count k fs + count k gs
unfolding count append
count-append k end gs = omega arith
count-append k (field j x fs) gs = ground (arith, count-append k fs gs)

or_none : {A : Type 0} (o : Option A) → or o none ≡ o
or_none none = refl
or_none (some a) = refl

before-Matches :
    (s t : Struct) (v : Values s) (w : Values t) (fs : Fields)
    → Apart s t
    → Matches s v fs
    → Matches s v (append fs (write t w))
before-Matches no_fields t v w fs l m = tt
before-Matches (with name A c rest) t (a, v) w fs l m =
    let (no_member, no_count) = write-Lacks t w name l.0 in
    (
      subst (λ o. Means c o a)
          (sym (
            member-append name fs (write t w)
            ∙ ap (or (member name fs)) no_member
            ∙ or_none (member name fs)))
          m.0,
      omega (arith, count-append name fs (write t w), no_count, m.1),
      before-Matches rest t v w fs l.1 m.2,
    )

behind-Matches :
    (s t : Struct) (v : Values s) (w : Values t) (fs : Fields)
    → Apart s t
    → Matches s v fs
    → Matches s v (append (write t w) fs)
behind-Matches no_fields t v w fs l m = tt
behind-Matches (with name A c rest) t (a, v) w fs l m =
    let (no_member, no_count) = write-Lacks t w name l.0 in
    (
      subst (λ o. Means c o a)
          (sym (member-append name (write t w) fs ∙ ap (λ o. or o (member name fs)) no_member)) m.0,
      omega (arith, count-append name (write t w) fs, no_count, m.1),
      behind-Matches rest t v w fs l.1 m.2,
    )

pub read_flat-write_flat :
    (own inner : Struct) (v : Values own) (w : Values inner)
    → AreDistinct own
    → AreDistinct inner
    → Apart inner own
    → Apart own inner
    → AreWritten own v
    → AreWritten inner w
    → read_flat own inner (write_flat own inner (w, v)) ≡ ok (w, v)
unfolding write_flat
read_flat-write_flat own inner v w d e l r a b =
    (read_flat-Matches_iff own inner v w (append (write inner w) (write own v)) d e l).1 (
      before-Matches inner own w v (write inner w) l (write-Matches inner w e b),
      behind-Matches own inner v w (write own v) r (write-Matches own v d a),
    )
