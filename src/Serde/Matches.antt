-- ===== src/Serde/Matches.antt =====
-- What it means that an object matches a struct.
use btc_rpc_proxy.Prelude.{ℕ, suc, ◌≤◌, ◌≡◌, false, Option, none, some, String, ok, if◌then◌else◌}
use btc_rpc_proxy.Json.{Value, Fields, end, field, member}
use btc_rpc_proxy.Serde.{Codec, Struct, no_fields, with, Values}
use text.Mathlib.Text.{◌==◌}

-- How often a key stands in an object.
unfoldable pub count : String → Fields → ℕ
count name end = 0
count name (field k v fs) = let rest = count name fs in if k == name then suc rest else rest

-- A value that a member means, or that its absence means.
abbrev pub Means : {A : Type 0} → Codec A → Option Value → A → Type 0
Means c none a = c.missing ≡ some a
Means c (some v) a = c.from v ≡ ok a

-- Each field stands in the object once at most and means its value; nothing is said of the order or
-- of other members.
abbrev pub Matches : (s : Struct) → Values s → Fields → Type 0
Matches no_fields v fs = Unit
Matches (with name A c rest) (a, v) fs =
    Means c (member name fs) a × (count name fs ≤ 1) × Matches rest v fs

-- No field has the name.
abbrev pub Lacks : String → Struct → Type 0
Lacks n no_fields = Unit
Lacks n (with name A c rest) = ((n == name) ≡ false) × Lacks n rest

abbrev pub AreDistinct : Struct → Type 0
AreDistinct no_fields = Unit
AreDistinct (with name A c rest) = Lacks name rest × AreDistinct rest
