-- ===== src/Cap/Outcome.antt =====
-- The results of the checks of cap_schema.cpp. An error's text is its path and the words of its
-- problem. `thrown` is an exception of the JSON library, which the checks do not catch.
use droneengage_common.Common.{Bool, true, false, String, List}
use droneengage_common.Json.{Json}

pub data Problem (F : Type 0) : Type 0 where
  too_deep not_an_object bad_type type_list_not_scalar no_enum_values fields_not_object : Problem F
  unknown_type bad_name : String → Problem F
  min_not_number max_not_number min_above_max : Problem F
  no_usable_type not_allowed_value missing_required unknown_param schema_not_object : Problem F
  expected : List String → Problem F
  below_min above_max : Json F → Problem F
  -- the first error of the default, its path and its problem
  bad_default : String → Problem F → Problem F
  -- the member of an advert that is missing or has a bad value
  bad_member : String → Problem F

pub record CapError (F : Type 0) : Type 0 where
  pub path : String
  pub problem : Problem F

pub data Outcome (F A : Type 0) : Type 0 where
  ok : A → Outcome F A
  err : CapError F → Outcome F A
  thrown : Outcome F A

infixl 5 ◌>>=◌ ◌>>◌
abbrev pub ◌>>=◌ : {F A B : Type 0} → Outcome F A → (A → Outcome F B) → Outcome F B
ok a >>= f = f a
err e >>= f = err e
thrown >>= f = thrown

abbrev pub ◌>>◌ : {F B : Type 0} → Outcome F (Unit {0}) → Outcome F B → Outcome F B
m >> k = m >>= λ _. k

abbrev pub require : {F : Type 0} → Bool → String → Problem F → Outcome F (Unit {0})
require true path p = ok tt
require false path p = err (record { path = path; problem = p })
