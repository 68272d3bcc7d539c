-- ===== src/Serde/Names.antt =====
-- The names of fields, compared by computing.
use btc_rpc_proxy.Prelude.{◌≡◌, Bool, true, false, not, ◌&&◌, arith, String}
use btc_rpc_proxy.Serde.{Struct, no_fields, with}
use btc_rpc_proxy.Serde.Matches.{Lacks, AreDistinct}
use btc_rpc_proxy.Serde.Flat.{Apart}
use text.Mathlib.Text.{◌==◌}

unfoldable pub lacks : String → Struct → Bool
lacks n no_fields = true
lacks n (with name A c rest) = not (n == name) && lacks n rest

unfoldable pub distinct : Struct → Bool
distinct no_fields = true
distinct (with name A c rest) = lacks name rest && distinct rest

unfoldable pub apart : Struct → Struct → Bool
apart no_fields t = true
apart (with name A c rest) t = lacks name t && apart rest t

both : (a b : Bool) → (a && b) ≡ true → (a ≡ true) × (b ≡ true)
both a b h = ground arith

negated : (a : Bool) → not a ≡ true → a ≡ false
negated a h = ground arith

lacks-Lacks : (n : String) (s : Struct) → lacks n s ≡ true → Lacks n s
unfolding lacks
lacks-Lacks n no_fields h = tt
lacks-Lacks n (with name A c rest) h =
    let (here, there) = both (not (n == name)) (lacks n rest) h in
    (negated (n == name) here, lacks-Lacks n rest there)

pub distinct-AreDistinct : (s : Struct) → distinct s ≡ true → AreDistinct s
unfolding distinct
distinct-AreDistinct no_fields h = tt
distinct-AreDistinct (with name A c rest) h =
    let (here, there) = both (lacks name rest) (distinct rest) h in
    (lacks-Lacks name rest here, distinct-AreDistinct rest there)

pub apart-Apart : (s t : Struct) → apart s t ≡ true → Apart s t
unfolding apart
apart-Apart no_fields t h = tt
apart-Apart (with name A c rest) t h =
    let (here, there) = both (lacks name t) (apart rest t) h in
    (lacks-Lacks name t here, apart-Apart rest t there)
