-- ===== src/Serde/Written.antt =====
-- That what the derived code writes is read back, and how flattened structs are read.
use btc_rpc_proxy.Prelude.{◌≤◌, ◌≡◌, refl, true, false, Option, none, some, String, ok, arith}
use btc_rpc_proxy.Json.{Value, Fields, field, member}
use btc_rpc_proxy.Serde.{Struct, no_fields, with, Values, read, write, unless_skipped}
use btc_rpc_proxy.Serde.Laws.{read-Matches_iff}
use btc_rpc_proxy.Serde.Matches.{count, Means, Matches, Lacks, AreDistinct}
use text.Mathlib.Text.{◌==◌}
use text.Mathlib.TextEquality.{eq_iff}

-- Each value is read back as it is written.
abbrev pub AreWritten : (s : Struct) → Values s → Type 0
AreWritten no_fields v = Unit
AreWritten (with name A c rest) (a, v) = Means c (c.to a) a × AreWritten rest v

str_eq_sym : (j k : String) → (j == k) ≡ false → (k == j) ≡ false
str_eq_sym j k h = ground (arith, eq_iff j k, eq_iff k j)

str_eq_refl : (k : String) → (k == k) ≡ true
str_eq_refl k = (eq_iff k k).1 refl

-- A member of another name changes nothing.
Matches-field :
    (s : Struct) (v : Values s) (k : String) (x : Value) (fs : Fields)
    → Lacks k s
    → Matches s v fs
    → Matches s v (field k x fs)
unfolding member count
Matches-field no_fields v k x fs l m = tt
Matches-field (with name A c rest) (a, v) k x fs l (means, single, m) =
    (rw (l.0, member) means, rw (l.0, count) single, Matches-field rest v k x fs l.1 m)

Matches-unless_skipped :
    (s : Struct) (v : Values s) (k : String) (o : Option Value) (fs : Fields)
    → Lacks k s
    → Matches s v fs
    → Matches s v (unless_skipped k o fs)
Matches-unless_skipped s v k none fs l m = m
Matches-unless_skipped s v k (some x) fs l m = Matches-field s v k x fs l m

-- A name that no field has is not written.
pub write-Lacks :
    (s : Struct) (v : Values s) (k : String)
    → Lacks k s
    → (member k (write s v) ≡ none) × (count k (write s v) ≡ 0)
unfolding member count write
write-Lacks no_fields v k l = (refl, refl)
write-Lacks (with name A c rest) (a, v) k l = without (c.to a) (write-Lacks rest v k l.1)
  where
    without :
        (o : Option Value)
        → (member k (write rest v) ≡ none) × (count k (write rest v) ≡ 0)
        → (member k (unless_skipped name o (write rest v)) ≡ none)
          × (count k (unless_skipped name o (write rest v)) ≡ 0)
    without none h = h
    without (some x) h = rw (str_eq_sym k name l.0, member, count) h

first_written :
    (name : String) (o : Option Value) (fs : Fields)
    → member name fs ≡ none
    → count name fs ≡ 0
    → (member name (unless_skipped name o fs) ≡ o) × (count name (unless_skipped name o fs) ≤ 1)
unfolding member count
first_written name none fs m n = (m, omega (arith, n))
first_written name (some x) fs m n = rw (str_eq_refl name, member, count) (refl, omega (arith, n))

pub write-Matches :
    (s : Struct) (v : Values s) → AreDistinct s → AreWritten s v → Matches s v (write s v)
unfolding write
write-Matches no_fields v d w = tt
write-Matches (with name A c rest) (a, v) d w =
    let (none_yet, no_count) = write-Lacks rest v name d.0 in
    let (here, single) = first_written name (c.to a) (write rest v) none_yet no_count in
    (
      rw here w.0,
      single,
      Matches-unless_skipped rest v name (c.to a) (write rest v) d.0 (write-Matches rest v d.1 w.1),
    )

-- What is written is read back.
pub read-write :
    (s : Struct) (v : Values s) → AreDistinct s → AreWritten s v → read s (write s v) ≡ ok v
read-write s v d w = (read-Matches_iff s v (write s v) d).1 (write-Matches s v d w)
