-- ===== src/Module/Adverts.antt =====
-- The capability messages that a module of de_databus/de_module.cpp sends: one when it is registered and has
-- adverts, and one for each request.
use droneengage_common.Common.{
  ℕ, ◌+◌, Bool, false, ◌&&◌, Option, none, some, String, str_eq, List, [], ◌∷◌, if◌then◌else◌,
}
use droneengage_common.Common.Int.{ℤ, pos, eqb_ℤ}
use droneengage_common.Common.Float.{FloatOps}
use droneengage_common.Json.{as_int, Json, at}
use droneengage_common.Module.Message.{Outgoing, text}
use droneengage_common.Module.Message.Kind
use droneengage_common.Module.Message.Route
use droneengage_common.Module.State.{Module}
use droneengage_common.Module.Capabilities.{set_capabilities, publish_state, fire_event, on_invoke}
use droneengage_common.Module.Receive.{on_message, as_text, asks, c_str}

-- What happens to a module: a message arrives that the parser accepts, or its program calls it.
pub data Event (F : Type 0) : Type 0 where
  arrives : Json F → Event F
  sets_capabilities : List String → Event F
  publishes : String → Json F → Bool → Event F
  fires : ℕ → String → String → Json F → Event F
  handles_invokes : Bool → Event F

module _ {F : Type 0} ⦃o : FloatOps F⦄ where
  -- A message of the type MODULE_CAPABILITIES.
  abbrev pub is_type : Option (Json F) → Bool
  is_type none = false
  is_type (some t) = elim (as_int t) [
    | none ↦ false
    | some k ↦ eqb_ℤ k (pos Kind.module_capabilities)
  ]

  abbrev pub is_advert : Outgoing F → Bool
  is_advert (text j) = is_type (at "mt" j)
  is_advert _ = false

  unfoldable pub adverts : List (Outgoing F) → ℕ
  adverts [] = 0
  adverts (out ∷ outs) = (if is_advert out then 1 else 0) + adverts outs

  -- A request for the adverts, by its command and type, its routing, and its members.
  abbrev pub asked : Option (Json F) → Option ℤ → Bool
  asked none type = false
  asked (some cmd) none = false
  asked (some cmd) (some type) = eqb_ℤ type (pos Kind.module_capabilities) && asks cmd

  abbrev pub asked_by : Option String → Json F → Json F → Bool
  asked_by none type j = false
  asked_by (some routing) type j =
      str_eq (c_str routing) Route.intermodule && asked (at "ms" j) (as_int type)

  abbrev pub asked_in : Option (Json F) → Option (Json F) → Json F → Bool
  asked_in none routing j = false
  asked_in (some type) none j = false
  asked_in (some type) (some routing) j = asked_by (as_text routing) type j

  abbrev pub is_request : Event F → Bool
  is_request (arrives j) = asked_in (at "mt" j) (at "ty" j) j
  is_request _ = false

  unfoldable pub requests : List (Event F) → ℕ
  requests [] = 0
  requests (e ∷ es) = (if is_request e then 1 else 0) + requests es

  module _ (parse : String → Option (Json F)) where
    unfoldable pub step : Event F → Module F → Module F
    unfolding on_message set_capabilities publish_state fire_event on_invoke
    step (arrives j) m = on_message j m
    step (sets_capabilities adverts) m = (set_capabilities parse adverts m).1
    step (publishes ns changed full) m = publish_state ns changed full m
    step (fires now ns ev payload) m = (fire_event now ns ev payload m).1
    step (handles_invokes has_handler) m = on_invoke has_handler m

    unfoldable pub run : List (Event F) → Module F → Module F
    unfolding step
    run [] m = m
    run (e ∷ es) m = run es (step e m)
