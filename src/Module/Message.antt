-- ===== src/Module/Message.antt =====
-- The messages of the databus: the constants of de_databus/messages.hpp that the module uses, and what
-- `sendJMSG`, `sendSYSMSG` and `sendMREMSG` of de_databus/de_module.cpp put together.
use droneengage_common.Common.{ℕ, Bool, true, String, str_eq, List, [], ◌∷◌, ◌++◌, if◌then◌else◌}
use droneengage_common.Common.Assoc.{Assoc}
use droneengage_common.Common.Int.{ℤ, pos}
use droneengage_common.Json.{Json, null, integer, string}
use droneengage_common.Config.Merge.{put, assign_all}
-- TYPE_AndruavMessage_* and TYPE_AndruavModule_*
pub mod Kind
-- CMD_*
pub mod Route

-- What is handed to `sendMSG`: a JSON text, a JSON text with binary data behind it, or bytes to forward.
pub data Outgoing (F : Type 0) : Type 0 where
  text : Json F → Outgoing F
  binary : Json F → List ℕ → Outgoing F
  raw : List ℕ → Outgoing F

abbrev pub routing : String → Bool → String
routing target internal =
    if internal
    then Route.intermodule
    else if str_eq target ""
    then Route.group
    else Route.individual

module _ {F : Type 0} where
  abbrev pub number : ℕ → Json F
  number n = integer (pos n)

  -- The message of `sendJMSG`, and the header of `sendBMSG`.
  unfoldable pub full_message : String → String → Json F → ℤ → Bool → Json F
  unfolding assign_all
  full_message key target cmd type internal = assign_all null (
      ("GU", string key)
      ∷ ("tg", string target)
      ∷ ("ty", string (routing target internal))
      ∷ ("mt", integer type)
      ∷ ("ms", cmd)
      ∷ [])

  unfoldable pub system_message : Json F → ℤ → Json F
  unfolding assign_all
  system_message cmd type = assign_all null (
      ("tg", string "_SYS_")
      ∷ ("ty", string Route.system)
      ∷ ("mt", integer type)
      ∷ ("ms", cmd)
      ∷ [])

  unfoldable pub remote_execute_message : String → ℤ → Json F
  unfolding assign_all
  remote_execute_message key command = assign_all null (
      ("GU", string key)
      ∷ ("ty", string Route.intermodule)
      ∷ ("mt", number Kind.module_remote_execute)
      ∷ ("ms", assign_all null (("C", integer command) ∷ []))
      ∷ [])

  -- The bytes of a message, given those of a JSON text.
  unfoldable pub wire_bytes : (Json F → List ℕ) → Outgoing F → List ℕ
  wire_bytes dump (text j) = dump j
  wire_bytes dump (binary j bytes) = dump j ++ 0 ∷ bytes
  wire_bytes dump (raw bytes) = bytes
