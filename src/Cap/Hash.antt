-- ===== src/Cap/Hash.antt =====
-- `capAdvertHash` of de_databus/cap_schema.cpp.
use Prim.Native.String.{◌++◌ as str_append}
use droneengage_common.Common.{ℕ, zero, suc, String, str_eq, List, [], ◌∷◌, if◌then◌else◌}
use droneengage_common.Common.Text.{bytes}
use droneengage_common.Sha.Stream.{sha256_hex}

-- The loop that joins the adverts, and what it has joined: a line break goes before an advert unless nothing has
-- been joined yet.
unfoldable pub join : String → List String → String
join joined [] = joined
join joined (a ∷ adverts) =
    join (str_append (if str_eq joined "" then joined else str_append joined "\n") a) adverts

-- `substr(0, n)`
unfoldable pub substr : ℕ → String → String
substr zero s = ""
substr (suc n) String.[] = ""
substr (suc n) (String.◌∷◌ c s) = String.◌∷◌ c (substr n s)

unfoldable pub cap_advert_hash : List String → String
unfolding join substr sha256_hex bytes
cap_advert_hash adverts = substr 16 (sha256_hex (bytes (join "" adverts)))
