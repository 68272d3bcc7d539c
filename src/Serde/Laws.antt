-- ===== src/Serde/Laws.antt =====
-- What the derived code reads, said without its loop.
use btc_rpc_proxy.Prelude.{
  ◌≡◌, refl, ap, ◌∙◌, ◌↔◌, Option, none, some, ok, ◌>>=◌, ok_or, bind-ok, ok_inj,
}
use btc_rpc_proxy.Json.{Fields}
use btc_rpc_proxy.Serde.{
  DecodeError, Struct, no_fields, with, Values, Slots, unset, visit_all, or, finish, read,
  missing_field,
}
use btc_rpc_proxy.Serde.Matches.{Matches, AreDistinct}
use btc_rpc_proxy.Serde.Columns.{
  visit_all-column, column-visit_all, column-Means, Means-column, no_fields-visit_all,
}

ok_or-some : {A : Type 0} (o : Option A) (e : DecodeError) (a : A) → ok_or o e ≡ ok a → o ≡ some a
ok_or-some (some b) e a h = ap (λ x. some x) (ok_inj h)
ok_or-some none e a h = absurd (cc)

visit_all-Matches :
    (s : Struct) (v : Values s) (fs : Fields)
    → AreDistinct s
    → Matches s v fs
    → (slots : Slots s) × (visit_all s fs (unset s) ≡ ok slots) × (finish s slots ≡ ok v)
unfolding finish
visit_all-Matches no_fields v fs d m = (tt, no_fields-visit_all fs, refl)
visit_all-Matches (with name A c rest) (a, v) fs d (means, single, m) =
    let (slots, p, q) = visit_all-Matches rest v fs d.1 m in
    let (slot, x, y) = column-Means name c fs a means single in
    (
      (slot, slots),
      visit_all-column name A c rest fs none slot (unset rest) slots d.0 x p,
      rw (y, q, finish) refl,
    )

Matches-visit_all :
    (s : Struct) (v : Values s) (fs : Fields) (slots : Slots s)
    → AreDistinct s
    → visit_all s fs (unset s) ≡ ok slots
    → finish s slots ≡ ok v
    → Matches s v fs
unfolding finish
Matches-visit_all no_fields v fs slots d p q = tt
Matches-visit_all (with name A c rest) (a, v) fs (slot, slots) d p q =
    let (x, y) = column-visit_all name A c rest fs none (unset rest) (slot, slots) d.0 p in
    let (b, present, q') =
      bind-ok (ok_or (or slot c.missing) (missing_field name))
        (λ b. finish rest slots >>= λ w. ok (b, w)) (a, v) q in
    let (w, finished, same) = bind-ok (finish rest slots) (λ w. ok (b, w)) (a, v) q' in
    let (means, single) = Means-column name c fs a slot x (
      ok_or-some (or slot c.missing) (missing_field name) b present
      ∙ ap (λ (z : A × Values rest). some z.0) (ok_inj same)) in
    (
      means,
      single,
      Matches-visit_all rest v fs slots d.1 y
          (finished ∙ ap (λ (z : A × Values rest). ok z.1) (ok_inj same)),
    )

-- The derived code reads an object as some values exactly if each field stands in it once at most
-- and means its value.
pub read-Matches_iff :
    (s : Struct) (v : Values s) (fs : Fields) → AreDistinct s → (read s fs ≡ ok v) ↔ Matches s v fs
unfolding read
read-Matches_iff s v fs d = (
  λ h.
      let (slots, p, q) = bind-ok (visit_all s fs (unset s)) (λ x. finish s x) v h in
      Matches-visit_all s v fs slots d p q,
  λ m. let (slots, p, q) = visit_all-Matches s v fs d m in rw p q,
)
