-- ===== src/Module/State.antt =====
-- The members of `CModule` (de_databus/de_module.hpp), its senders, and the ID message of
-- de_databus/de_module.cpp.
use droneengage_common.Common.{
  ℕ, Bool, false, ◌&&◌, ◌||◌, Option, none, some, String, List, [], ◌∷◌, ◌++◌, if◌then◌else◌,
}
use droneengage_common.Common.Assoc.{Assoc, insert}
use droneengage_common.Common.Int.{ℤ, pos, eqb_ℤ}
use droneengage_common.Common.Float.{FloatOps}
use droneengage_common.Json.{
  Json, null, boolean, integer, string, array, elements, of_items, is_array, is_number, get_int,
}
use droneengage_common.Invoke.Handle.{CModule}
use droneengage_common.Bus.Udp.{UdpClient}
use droneengage_common.Bus.Unix.{UnixClient}
use droneengage_common.Module.Message.{
  Outgoing, text, binary, raw, number, full_message, system_message, remote_execute_message,
}
use droneengage_common.Config.Merge.{assign_all}
use droneengage_common.Module.Message.Kind
use droneengage_common.Module.Message.Route

-- The client in use: `m_use_unix_socket` chooses it. Before `init` neither is started.
pub data Transport : Type 0 where
  unset : Transport
  over_udp : UdpClient → Transport
  over_unix : UnixClient → Transport

abbrev pub is_started : Transport → Bool
is_started unset = false
is_started (over_udp c) = c.started
is_started (over_unix c) = c.started

-- `invokes` has the members that capability invokes use, `json_id` is the message whose text the client sends as
-- its ID, and `first_received` is the static variable of `onReceive`. Two members are what has left the
-- module, the last first: the messages handed to the client, and those handed to `m_OnReceive`.
pub record Module (F : Type 0) : Type 0 where
  pub module_class : String
  pub module_id : String
  pub module_key : String
  pub module_version : String
  pub hardware_serial : String
  pub hardware_serial_type : ℤ
  pub instance_time_stamp : ℤ
  pub transport : Transport
  pub party_id : String
  pub group_id : String
  pub message_filter : Json F
  pub module_features : Json F
  pub stdin_values : Assoc (Json F)
  pub capability_adverts : List String
  pub capability_hash : String
  pub capabilities_sent : Bool
  pub event_counter : ℕ
  pub initialized : Bool
  pub first_received : Bool
  pub has_receiver : Bool
  pub invokes : CModule F
  pub json_id : Option (Json F)
  pub sent : List (Outgoing F)
  pub received : List (Json F)

module _ {F : Type 0} where
  -- The constructor of `CModule`, with the members' initial values. It is given the time.
  abbrev pub new : ℤ → Module F
  new time = record {
    module_class = "";
    module_id = "";
    module_key = "";
    module_version = "";
    hardware_serial = "";
    hardware_serial_type = pos 0;
    instance_time_stamp = time;
    transport = unset;
    party_id = "";
    group_id = "";
    message_filter = null;
    module_features = array (of_items []);
    stdin_values = [];
    capability_adverts = [];
    capability_hash = "";
    capabilities_sent = false;
    event_counter = 0;
    initialized = false;
    first_received = false;
    has_receiver = false;
    invokes = record {
      invoke_results = [];
      invoke_order = [];
      invoke_inflight = [];
      capability_parsed = [];
      has_handler = false;
      sent = [];
      started = [];
    };
    json_id = none;
    sent = [];
    received = [];
  }

  unfoldable pub define_module : (class id key version : String) → Json F → Module F → Module F
  define_module class id key version filter m = record m {
    module_class = class;
    module_id = id;
    module_key = key;
    module_version = version;
    message_filter = filter;
  }

  unfoldable pub send_msg : Outgoing F → Module F → Module F
  send_msg out m = if is_started m.transport then record m { sent = out ∷ m.sent } else m

  unfoldable pub send_jmsg : String → Json F → ℤ → Bool → Module F → Module F
  unfolding send_msg full_message
  send_jmsg target cmd type internal m =
      send_msg (text (full_message m.module_key target cmd type internal)) m

  unfoldable pub send_bmsg : String → List ℕ → ℤ → Bool → Json F → Module F → Module F
  unfolding send_msg full_message
  send_bmsg target bytes type internal cmd m =
      send_msg (binary (full_message m.module_key target cmd type internal) bytes) m

  unfoldable pub send_sysmsg : Json F → ℤ → Module F → Module F
  unfolding send_msg system_message
  send_sysmsg cmd type m = send_msg (text (system_message cmd type)) m

  unfoldable pub send_mremsg : ℤ → Module F → Module F
  unfolding send_msg remote_execute_message
  send_mremsg command m = send_msg (text (remote_execute_message m.module_key command)) m

  unfoldable pub forward_msg : List ℕ → Module F → Module F
  unfolding send_msg
  forward_msg bytes m = send_msg (raw bytes) m

  unfoldable pub append_extra_field : String → Json F → Module F → Module F
  unfolding insert
  append_extra_field name value m = record m { stdin_values = insert name value m.stdin_values }

  -- The fields "ms" of the ID message.
  unfoldable pub id_fields : Bool → Module F → Json F
  unfolding assign_all
  id_fields re_send m =
      assign_all
        (assign_all null (
          ("a", string m.module_id)
          ∷ ("b", string m.module_class)
          ∷ ("c", m.message_filter)
          ∷ ("d", m.module_features)
          ∷ ("e", string m.module_key)
          ∷ ("s", string m.hardware_serial)
          ∷ ("t", integer m.hardware_serial_type)
          ∷ ("v", string m.module_version)
          ∷ ("z", boolean re_send)
          ∷ ("u", integer m.instance_time_stamp)
          ∷ []))
        m.stdin_values

  unfoldable pub create_json_id : Bool → Module F → Module F
  unfolding id_fields assign_all
  create_json_id re_send m = record m {
    json_id = some (
        assign_all null (
          ("ty", string Route.intermodule)
          ∷ ("mt", number Kind.module_id)
          ∷ ("ms", id_fields re_send m)
          ∷ []));
  }

module _ {F : Type 0} ⦃o : FloatOps F⦄ where
  -- `e.is_number() && e.get<int>() == msg_id` for an entry.
  unfoldable pub lists_id : ℤ → List (Json F) → Bool
  unfolding get_int
  lists_id id [] = false
  lists_id id (e ∷ es) = (is_number e && eqb_ℤ (get_int e) id) || lists_id id es

  unfoldable pub cap_add_to_filter : ℤ → Module F → Module F
  unfolding lists_id
  cap_add_to_filter id m =
      let filter = if is_array m.message_filter then m.message_filter else array (of_items []) in
      if lists_id id (elements filter)
      then record m { message_filter = filter }
      else record m { message_filter = array (of_items (elements filter ++ integer id ∷ [])) }
