-- ===== src/Module/Unmoved.antt =====
-- What the parts of de_databus/de_module.cpp leave alone of the members that an announcement depends on.
use droneengage_common.Common.{◌≡◌, refl, ◌∙◌, Bool, true, String, [], if◌then◌else◌, if_rule}
use droneengage_common.Common.Int.{ℤ, pos}
use droneengage_common.Common.Float.{FloatOps}
use droneengage_common.Json.{Json, is_array, elements, array, of_items}
use droneengage_common.Module.Message.{Outgoing}
use droneengage_common.Module.Message.Kind
use droneengage_common.Module.State.{
  Module, is_started, send_msg, send_jmsg, create_json_id, cap_add_to_filter, lists_id,
}
use droneengage_common.Module.Capabilities.{refresh_id, send_capabilities}
use droneengage_common.Module.Receive.{hand_over}

module _ {F : Type 0} where
  -- The members that the announcement depends on are left alone.
  pub record IsUnmoved (m t : Module F) : Type 0 where
    pub initialized : t.initialized ≡ m.initialized
    pub first_received : t.first_received ≡ m.first_received
    pub party_id : t.party_id ≡ m.party_id
    pub capability_adverts : t.capability_adverts ≡ m.capability_adverts
    pub capabilities_sent : t.capabilities_sent ≡ m.capabilities_sent

  unmoved :
      (m t : Module F)
      → t.initialized ≡ m.initialized
      → t.first_received ≡ m.first_received
      → t.party_id ≡ m.party_id
      → t.capability_adverts ≡ m.capability_adverts
      → t.capabilities_sent ≡ m.capabilities_sent
      → IsUnmoved m t
  unmoved m t a b c d e = record {
    initialized = a;
    first_received = b;
    party_id = c;
    capability_adverts = d;
    capabilities_sent = e;
  }

  pub IsUnmoved-refl : (m : Module F) → IsUnmoved m m
  IsUnmoved-refl m = record {
    initialized = refl;
    first_received = refl;
    party_id = refl;
    capability_adverts = refl;
    capabilities_sent = refl;
  }

  pub send_msg-IsUnmoved : (out : Outgoing F) (m : Module F) → IsUnmoved m (send_msg out m)
  unfolding send_msg
  send_msg-IsUnmoved out m =
      if_rule (λ t. IsUnmoved m t) (is_started m.transport) _ m
        (λ e. unmoved m _ refl refl refl refl refl) (λ e. IsUnmoved-refl m)

  pub send_jmsg-IsUnmoved :
      (target : String) (cmd : Json F) (type : ℤ) (internal : Bool) (m : Module F)
      → IsUnmoved m (send_jmsg target cmd type internal m)
  unfolding send_jmsg
  send_jmsg-IsUnmoved target cmd type internal m = send_msg-IsUnmoved _ m

  pub hand_over-IsUnmoved : (j : Json F) (m : Module F) → IsUnmoved m (hand_over j m)
  unfolding hand_over
  hand_over-IsUnmoved j m =
      if_rule (λ t. IsUnmoved m t) m.has_receiver _ m (λ e. unmoved m _ refl refl refl refl refl)
        (λ e. IsUnmoved-refl m)

  pub send_capabilities-IsUnmoved : (m : Module F) → IsUnmoved m (send_capabilities m)
  unfolding send_capabilities
  send_capabilities-IsUnmoved m = send_jmsg-IsUnmoved "" _ (pos Kind.module_capabilities) true m

module _ {F : Type 0} ⦃o : FloatOps F⦄ where
  pub cap_add_to_filter-IsUnmoved : (id : ℤ) (m : Module F) → IsUnmoved m (cap_add_to_filter id m)
  unfolding cap_add_to_filter
  cap_add_to_filter-IsUnmoved id m =
      if_rule (λ t. IsUnmoved m t)
        (lists_id id
          (elements (if is_array m.message_filter then m.message_filter else array (of_items []))))
        _ _ (λ e. unmoved m _ refl refl refl refl refl) (λ e. unmoved m _ refl refl refl refl refl)

  pub refresh_id-IsUnmoved : (m : Module F) → IsUnmoved m (refresh_id m)
  unfolding refresh_id create_json_id
  refresh_id-IsUnmoved m =
      if_rule (λ t. IsUnmoved m t) m.initialized _ m (λ e. unmoved m _ refl refl refl refl refl)
        (λ e. IsUnmoved-refl m)

  pub onward : {m t u : Module F} → IsUnmoved m t → IsUnmoved t u → IsUnmoved m u
  onward h k = record {
    initialized = k.initialized ∙ h.initialized;
    first_received = k.first_received ∙ h.first_received;
    party_id = k.party_id ∙ h.party_id;
    capability_adverts = k.capability_adverts ∙ h.capability_adverts;
    capabilities_sent = k.capabilities_sent ∙ h.capabilities_sent;
  }
