-- ===== src/Serde.antt =====
-- The code that serde derives for the program's structs, as serde documents it: a struct is the
-- list of its fields, each with the way its values are read and written.
pub mod Codecs
pub mod Laws
pub mod Names
pub mod Written
pub mod Matches
pub mod Columns
pub mod Flat
use btc_rpc_proxy.Prelude.{
  ℕ, ◌+◌, Option, none, some, List, [], ◌∷◌, String, Result, ok, err, ◌>>=◌, ok_or, Bool, true,
  false, if◌then◌else◌,
}
use btc_rpc_proxy.Json.{Value, Items, nil, cons, Fields, end, field, null, array, object}
use text.Mathlib.Text.{◌==◌}

pub data DecodeError : Type 0 where
  missing_field duplicate_field : String → DecodeError
  invalid_type invalid_value invalid_length trailing_characters no_variant : DecodeError

-- How a field is read and written. Without a value to write it is skipped; `missing` is what an
-- object without the field holds.
pub record Codec (A : Type 0) : Type 0 where
  pub from : Value → Result A DecodeError
  pub to : A → Option Value
  pub missing : Option A

pub data Struct : Type 1 where
  no_fields : Struct
  with : (name : String) (A : Type 0) → Codec A → Struct → Struct

abbrev pub Values : Struct → Type 0
Values no_fields = Unit
Values (with name A c rest) = A × Values rest

-- The variables of the loop over the members.
abbrev pub Slots : Struct → Type 0
Slots no_fields = Unit
Slots (with name A c rest) = Option A × Slots rest

abbrev pub unset : (s : Struct) → Slots s
unset no_fields = tt
unset (with name A c rest) = (none, unset rest)

-- A field is set once.
abbrev pub once : {A B : Type 0} → String → Option A → Result B DecodeError → Result B DecodeError
once name none r = r
once name (some _) r = err (duplicate_field name)

-- One member; one that is no field is ignored.
unfoldable pub visit : (s : Struct) → String → Value → Slots s → Result (Slots s) DecodeError
visit no_fields k v slots = ok slots
visit (with name A c rest) k v (slot, slots) =
    let others = visit rest k v slots >>= λ s. ok (slot, s) in
    if k == name then once name slot (c.from v >>= λ a. ok (some a, slots)) else others

unfoldable pub visit_all : (s : Struct) → Fields → Slots s → Result (Slots s) DecodeError
visit_all s end slots = ok slots
visit_all s (field k v fs) slots = visit s k v slots >>= λ slots'. visit_all s fs slots'

abbrev pub or : {A : Type 0} → Option A → Option A → Option A
or (some a) o = some a
or none o = o

unfoldable pub finish : (s : Struct) → Slots s → Result (Values s) DecodeError
finish no_fields slots = ok tt
finish (with name A c rest) (slot, slots) = ok_or (or slot c.missing) (missing_field name) >>= λ a.
    finish rest slots >>= λ others. ok (a, others)

-- `visit_map`
unfoldable pub read : (s : Struct) → Fields → Result (Values s) DecodeError
read s fs = visit_all s fs (unset s) >>= λ slots. finish s slots

abbrev pub to_list : Items → List Value
to_list nil = []
to_list (cons v vs) = v ∷ to_list vs

abbrev pub from_list : List Value → Items
from_list [] = nil
from_list (v ∷ vs) = cons v (from_list vs)

-- `visit_seq`
unfoldable pub read_seq : (s : Struct) → List Value → Result (Values s) DecodeError
read_seq no_fields [] = ok tt
read_seq no_fields (v ∷ vs) = err trailing_characters
read_seq (with name A c rest) [] = err invalid_length
read_seq (with name A c rest) (v ∷ vs) =
    c.from v >>= λ a. read_seq rest vs >>= λ others. ok (a, others)

-- `Deserialize::deserialize`
unfoldable pub from_value : (s : Struct) → Value → Result (Values s) DecodeError
from_value s (object fs) = read s fs
from_value s (array vs) = read_seq s (to_list vs)
from_value s _ = err invalid_type

abbrev pub unless_skipped : String → Option Value → Fields → Fields
unless_skipped name none fs = fs
unless_skipped name (some v) fs = field name v fs

-- `Serialize::serialize`
unfoldable pub write : (s : Struct) → Values s → Fields
write no_fields v = end
write (with name A c rest) (a, v) = unless_skipped name (c.to a) (write rest v)

unfoldable pub known : Struct → String → Bool
known no_fields k = false
known (with name A c rest) k = let others = known rest k in if k == name then true else others

-- The members that are no fields of a struct.
unfoldable pub others : Struct → Fields → Fields
others s end = end
others s (field k v fs) = let rest = others s fs in if known s k then rest else field k v rest

-- `#[serde(flatten)]`: the fields of `inner` stand beside those of `own`.
unfoldable pub read_flat :
    (own inner : Struct) → Fields → Result (Values inner × Values own) DecodeError
read_flat own inner fs = do v ← read own fs; w ← read inner (others own fs); ok (w, v)

unfoldable pub append : Fields → Fields → Fields
append end gs = gs
append (field k v fs) gs = field k v (append fs gs)

unfoldable pub write_flat : (own inner : Struct) → Values inner × Values own → Fields
write_flat own inner (w, v) = append (write inner w) (write own v)
