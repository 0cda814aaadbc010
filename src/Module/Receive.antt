-- ===== src/Module/Receive.antt =====
-- `onReceive` of de_databus/de_module.cpp. Its exceptions are caught and logged: the module keeps what it
-- had become.
use Prim.Native.Char.{code}
use droneengage_common.Common.{
  ℕ, Bool, true, false, not, ◌&&◌, Option, none, some, String, str_eq, List, [], ◌∷◌, ◌==◌,
  if◌then◌else◌,
}
use droneengage_common.Common.Int.{ℤ, pos, eqb_ℤ}
use droneengage_common.Common.Float.{FloatOps}
use droneengage_common.Bus.Udp.{is_empty}
use droneengage_common.Json.{as_int, Json, boolean, string, at}
use droneengage_common.Invoke.Handle.{handle_capability_invoke}
use droneengage_common.Module.Message.Kind
use droneengage_common.Module.Message.Route
use droneengage_common.Module.State.{Module, create_json_id}
use droneengage_common.Module.Capabilities.{send_capabilities, advertise}

-- What `strcmp` reads of a text, and the parser of the bytes of a message: up to the first zero.
unfoldable pub c_str : String → String
c_str String.[] = ""
c_str (String.◌∷◌ c s) = let rest = c_str s in if code c == 0 then "" else String.◌∷◌ c rest

unfoldable pub c_text : List ℕ → List ℕ
c_text [] = []
c_text (b ∷ bs) = let rest = c_text bs in if b == 0 then [] else b ∷ rest

module _ {F : Type 0} where
  -- `get<std::string>()`
  abbrev pub as_text : Json F → Option String
  as_text (string s) = some s
  as_text _ = none

  unfoldable pub hand_over : Json F → Module F → Module F
  hand_over j m = if m.has_receiver then record m { received = j ∷ m.received } else m

  -- `cmd.value("r", false)`; what is no flag is an exception.
  abbrev pub asks : Json F → Bool
  asks cmd = elim (at "r" cmd) [ some (boolean b) ↦ b | _ ↦ false ]

module _ {F : Type 0} ⦃o : FloatOps F⦄ where
  -- The first reply of the communicator.
  unfoldable pub register : Module F → Module F
  unfolding create_json_id advertise
  register m =
      if m.first_received
      then m
      else (let m1 = record (create_json_id false m) { first_received = true } in
          if not m1.capabilities_sent && not (is_empty m1.capability_adverts)
          then advertise m1
          else m1)

  unfoldable pub take_ids : Option String → Option String → Json F → Module F → Module F
  unfolding register hand_over
  take_ids none group j m = m
  take_ids (some party) none j m = record m { party_id = party }
  take_ids (some party) (some group) j m =
      hand_over j (register (record m { party_id = party; group_id = group }))

  -- TYPE_AndruavModule_ID
  unfoldable pub take_record : Option (Json F) → Option (Json F) → Json F → Module F → Module F
  unfolding take_ids
  take_record none group j m = m
  take_record (some sender) none j m = m
  take_record (some sender) (some group) j m = take_ids (as_text sender) (as_text group) j m

  unfoldable pub on_module_id : Option (Json F) → Json F → Module F → Module F
  unfolding take_record
  on_module_id none j m = m
  on_module_id (some ids) j m = take_record (at "sd" ids) (at "gr" ids) j m

  unfoldable pub on_invoke_message : Json F → Module F → Module F
  unfolding handle_capability_invoke
  on_invoke_message cmd m = record m { invokes = (handle_capability_invoke cmd m.invokes).0 }

  unfoldable pub answer_request : Json F → Module F → Module F
  unfolding send_capabilities
  answer_request cmd m = if asks cmd then send_capabilities m else m

  -- The `switch`.
  unfoldable pub on_kind : ℤ → Json F → Json F → Module F → Module F
  unfolding on_module_id answer_request on_invoke_message hand_over
  on_kind type cmd j m =
      if eqb_ℤ type (pos Kind.module_id)
      then on_module_id (at "f" cmd) j m
      else if eqb_ℤ type (pos Kind.module_capabilities)
      then answer_request cmd m
      else if eqb_ℤ type (pos Kind.capability_invoke)
      then on_invoke_message cmd m
      else hand_over j m

  unfoldable pub on_intermodule : Option (Json F) → Option ℤ → Json F → Module F → Module F
  unfolding on_kind
  on_intermodule none type j m = m
  on_intermodule (some cmd) none j m = m
  on_intermodule (some cmd) (some type) j m = on_kind type cmd j m

  unfoldable pub on_routed : Option String → Json F → Json F → Module F → Module F
  unfolding on_intermodule hand_over c_str as_int
  on_routed none type j m = m
  on_routed (some routing) type j m =
      if str_eq (c_str routing) Route.intermodule
      then on_intermodule (at "ms" j) (as_int type) j m
      else hand_over j m

  -- A message that the parser accepts.
  unfoldable pub on_typed : Option (Json F) → Option (Json F) → Json F → Module F → Module F
  unfolding on_routed
  on_typed none routing j m = m
  on_typed (some type) none j m = m
  on_typed (some type) (some routing) j m = on_routed (as_text routing) type j m

  unfoldable pub on_message : Json F → Module F → Module F
  unfolding on_typed
  on_message j m = on_typed (at "mt" j) (at "ty" j) j m

  unfoldable pub on_parsed : Option (Json F) → Module F → Module F
  unfolding on_message
  on_parsed none m = m
  on_parsed (some j) m = on_message j m

  unfoldable pub on_receive : (List ℕ → Option (Json F)) → List ℕ → Module F → Module F
  unfolding on_parsed c_text
  on_receive parse message m = on_parsed (parse (c_text message)) m
