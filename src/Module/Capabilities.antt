-- ===== src/Module/Capabilities.antt =====
-- The capability adverts of a module in de_databus/de_module.cpp: `setCapabilities`, `sendCapabilities`,
-- `onInvoke`, `publishState` and `fireEvent`.
use Prim.Native.String.{◌++◌ as str_append}
use droneengage_common.Common.{
  ℕ, suc, ◌*◌, ◌%◌, Bool, true, false, not, ◌&&◌, Option, none, some, String, str_eq, List, [], ◌∷◌,
  length, map, ltb, if◌then◌else◌,
}
use droneengage_common.Common.Int.{pos, u64_mod}
use droneengage_common.Common.Float.{FloatOps}
use droneengage_common.Common.Text.{bytes, to_string}
use droneengage_common.Json.{Json, null, boolean, string, array, of_items}
use droneengage_common.Cap.Outcome.{ok, err, thrown}
use droneengage_common.Cap.Advert.{validate_advert}
use droneengage_common.Cap.Hash.{cap_advert_hash}
use droneengage_common.Config.Merge.{assign_all}
use droneengage_common.Module.Message.Kind
use droneengage_common.Module.State.{
  Module, send_jmsg, append_extra_field, cap_add_to_filter, create_json_id,
}

abbrev pub cap_advert_max_bytes : ℕ
cap_advert_max_bytes = 16 * 1024

-- What the loop of `setCapabilities` ends with: the values of the adverts, `false`, or an exception.
pub data Adverts (F : Type 0) : Type 0 where
  usable : List (Json F) → Adverts F
  refused : Adverts F
  failed : Adverts F

module _ {F : Type 0} where
  abbrev pub keep_advert : Json F → Adverts F → Adverts F
  keep_advert j (usable js) = usable (j ∷ js)
  keep_advert j refused = refused
  keep_advert j failed = failed

  unfoldable pub send_capabilities : Module F → Module F
  unfolding send_jmsg assign_all
  send_capabilities m =
      send_jmsg ""
        (assign_all null (
          ("caps", array (of_items (map string m.capability_adverts)))
          ∷ ("ch", string m.capability_hash)
          ∷ []))
        (pos Kind.module_capabilities) true m

  unfoldable pub on_invoke : Bool → Module F → Module F
  on_invoke has_handler m = record m { invokes = record m.invokes { has_handler = has_handler } }

  unfoldable pub publish_state : String → Json F → Bool → Module F → Module F
  unfolding send_jmsg assign_all
  publish_state ns changed full m =
      let msg = assign_all null (("ns", string ns) ∷ ("s", changed) ∷ []) in
      send_jmsg "" (if full then assign_all msg (("full", boolean true) ∷ []) else msg)
        (pos Kind.module_state) true m

  -- The nonce, of the time in milliseconds and the counter, and the module after the message.
  unfoldable pub fire_event : ℕ → String → String → Json F → Module F → String × Module F
  unfolding send_jmsg assign_all to_string
  fire_event now ns ev payload m =
      let counter = suc m.event_counter % u64_mod in
      let nonce = str_append (to_string now) (str_append "-" (to_string counter)) in
      (
        nonce,
        send_jmsg ""
            (assign_all null (
              ("d", string (str_append ns (str_append "." ev)))
              ∷ ("ed", payload)
              ∷ ("n", string nonce)
              ∷ []))
            (pos Kind.sync_event_fire) true (record m { event_counter = counter }),
      )

module _ {F : Type 0} ⦃o : FloatOps F⦄ where
  -- One advert of the loop, and what the loop makes of the rest. `parsed` is its value.
  unfoldable pub read_advert : Option (Json F) → Adverts F → Adverts F
  unfolding validate_advert
  read_advert none rest = refused
  read_advert (some j) rest = elim (validate_advert j) [
    | ok u ↦ keep_advert j rest
    | err e ↦ refused
    | thrown ↦ failed
  ]

  unfoldable pub read_adverts : (String → Option (Json F)) → List String → Adverts F
  unfolding read_advert bytes
  read_adverts parse [] = usable []
  read_adverts parse (a ∷ adverts) =
      let read = read_advert (parse a) (read_adverts parse adverts) in
      if ltb cap_advert_max_bytes (length (bytes a)) then refused else read

  -- The members after all adverts have passed, and the entries of the message filter.
  unfoldable pub with_adverts : List String → List (Json F) → Module F → Module F
  unfolding append_extra_field cap_advert_hash
  with_adverts adverts parsed m =
      append_extra_field "ch" (string (cap_advert_hash adverts)) (record m {
        capability_adverts = adverts;
        invokes = record m.invokes { capability_parsed = parsed };
        capability_hash = cap_advert_hash adverts;
      })

  unfoldable pub store_adverts : List String → List (Json F) → Module F → Module F
  unfolding with_adverts cap_add_to_filter
  store_adverts adverts parsed m =
      cap_add_to_filter (pos Kind.capability_invoke)
        (cap_add_to_filter (pos Kind.module_capabilities) (with_adverts adverts parsed m))

  unfoldable pub refresh_id : Module F → Module F
  unfolding create_json_id
  refresh_id m = if m.initialized then create_json_id false m else m

  unfoldable pub advertise : Module F → Module F
  unfolding send_capabilities
  advertise m = send_capabilities (record m { capabilities_sent = true })

  unfoldable pub announce : Module F → Module F
  unfolding advertise
  announce m =
      if m.initialized && (not (str_eq m.party_id "") && not m.capabilities_sent)
      then advertise m
      else m

  unfoldable pub use_adverts : List String → Adverts F → Module F → Option Bool × Module F
  unfolding store_adverts refresh_id announce
  use_adverts adverts (usable parsed) m =
      (some true, announce (refresh_id (store_adverts adverts parsed m)))
  use_adverts adverts refused m = (some false, m)
  use_adverts adverts failed m = (none, m)

  -- `none` is an exception of the validation.
  unfoldable pub set_capabilities :
      (String → Option (Json F)) → List String → Module F → Option Bool × Module F
  unfolding read_adverts use_adverts
  set_capabilities parse adverts m = use_adverts adverts (read_adverts parse adverts) m
