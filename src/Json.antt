-- ===== src/Json.antt =====
-- The JSON values that the code inspects and builds (`serde_json::Value`), with its accessors as
-- their documentation states them. A number is an integer, or the text of one that is not.
use btc_rpc_proxy.Prelude.{ℕ, Bool, Option, none, some, String, if◌then◌else◌}
use btc_rpc_proxy.Prelude.Int.{ℤ, pos}
use text.Mathlib.Text.{◌==◌}
use text.Mathlib.TextEquality.{IsScalar-prop}

pub data Number : Type 0 where
  int : ℤ → Number
  float : String → Number

mutual
  pub data Value : Type 0 where
    null : Value
    bool : Bool → Value
    number : Number → Value
    string : String → Value
    array : Items → Value
    object : Fields → Value

  pub data Items : Type 0 where
    nil : Items
    cons : Value → Items → Items

  pub data Fields : Type 0 where
    end : Fields
    field : String → Value → Fields → Fields

unfoldable pub as_u64 : Number → Option ℕ
as_u64 (int (pos n)) = some n
as_u64 _ = none

-- `Value::as_str`
unfoldable pub as_str : Value → Option String
as_str (string s) = some s
as_str _ = none

-- The member of an object.
unfoldable pub member : String → Fields → Option Value
member k end = none
member k (field j v fs) = if j == k then some v else member k fs

-- `Map::insert`: the value of a key that is there is replaced.
unfoldable pub insert : String → Value → Fields → Fields
insert k v end = field k v end
insert k v (field j w fs) = if j == k then field k v fs else field j w (insert k v fs)

-- A number, from an unsigned integer.
abbrev pub from_u64 : ℕ → Value
from_u64 n = number (int (pos n))

pub Value-set : IsSet Value
Value-set = hlevel IsScalar-prop
