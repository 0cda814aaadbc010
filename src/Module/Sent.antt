-- ===== src/Module/Sent.antt =====
-- The capability messages that the parts of de_databus/de_module.cpp send.
use droneengage_common.Common.{
  ℕ, ◌+◌, ◌≡◌, refl, ap, ◌∙◌, Bool, true, false, String, [], if◌then◌else◌, if_rule, arith,
}
use droneengage_common.Common.Assoc.{insert, lookup}
use droneengage_common.Common.Int.{ℤ, pos, eqb_ℤ, to_int32}
use droneengage_common.Common.Float.{FloatOps}
use droneengage_common.Json.{as_int, Json, is_array, elements, array, of_items, get_int}
use droneengage_common.Module.Message.{text, full_message}
use droneengage_common.Config.Merge.{assign_all}
use droneengage_common.Module.Message.Kind
use droneengage_common.Module.State.{
  Module, is_started, send_msg, send_jmsg, cap_add_to_filter, lists_id,
}
use droneengage_common.Module.Capabilities.{send_capabilities, advertise}
use droneengage_common.Module.Receive.{hand_over}
use droneengage_common.Module.Adverts.{is_advert, adverts}

abbrev pub flag : Bool → ℕ
flag b = if b then 1 else 0

module _ {F : Type 0} ⦃o : FloatOps F⦄ where
  -- Between two states of a module `n` adverts were asked for: it sent so many, and one more if it noted that it had
  -- sent them unasked.
  pub record IsCounted (n : ℕ) (m t : Module F) : Type 0 where
    pub transport : t.transport ≡ m.transport
    pub counted :
        adverts t.sent + flag m.capabilities_sent ≡ n + (adverts m.sent + flag t.capabilities_sent)

  pub IsCounted-refl : (m : Module F) → IsCounted 0 m m
  IsCounted-refl m = record { transport = refl; counted = omega arith }

  pub in_turn :
      {a b : ℕ} {m t u : Module F} → IsCounted a m t → IsCounted b t u → IsCounted (a + b) m u
  in_turn h k = record {
    transport = k.transport ∙ h.transport;
    counted = omega (arith, h.counted, k.counted);
  }

  is_advert-full_message :
      (key target : String) (cmd : Json F) (type : ℤ) (internal : Bool)
      → is_advert (text (full_message key target cmd type internal))
        ≡ eqb_ℤ (to_int32 type) (pos Kind.module_capabilities)
  unfolding full_message assign_all insert lookup as_int get_int
  is_advert-full_message key target cmd type internal = refl

  -- A message is sent, and is counted by its type.
  send_jmsg-sent :
      (target : String) (cmd : Json F) (type : ℤ) (internal : Bool) (m : Module F)
      → is_started m.transport ≡ true
      → ((send_jmsg target cmd type internal m).transport ≡ m.transport)
        × (adverts (send_jmsg target cmd type internal m).sent
            ≡ flag (eqb_ℤ (to_int32 type) (pos Kind.module_capabilities)) + adverts m.sent)
        × ((send_jmsg target cmd type internal m).capabilities_sent ≡ m.capabilities_sent)
  unfolding send_jmsg send_msg adverts
  send_jmsg-sent target cmd type internal m up =
      rw up (refl, rw (is_advert-full_message m.module_key target cmd type internal) refl, refl)

  -- One that is no advert.
  pub send_jmsg-IsCounted :
      (target : String) (cmd : Json F) (type : ℤ) (internal : Bool) (m : Module F)
      → is_started m.transport ≡ true
      → eqb_ℤ (to_int32 type) (pos Kind.module_capabilities) ≡ false
      → IsCounted 0 m (send_jmsg target cmd type internal m)
  send_jmsg-IsCounted target cmd type internal m up other =
      let (same, more, noted) = send_jmsg-sent target cmd type internal m up in
      record { transport = same; counted = ground (arith, more, noted, other) }

  pub send_capabilities-IsCounted :
      (m : Module F) → is_started m.transport ≡ true → IsCounted 1 m (send_capabilities m)
  unfolding send_capabilities to_int32
  send_capabilities-IsCounted m up =
      let (same, more, noted) = send_jmsg-sent "" _ (pos Kind.module_capabilities) true m up in
      record { transport = same; counted = ground (arith, more, noted) }

  -- The advert that is sent unasked is noted.
  pub advertise-IsCounted :
      (m : Module F)
      → is_started m.transport ≡ true
      → m.capabilities_sent ≡ false
      → IsCounted 0 m (advertise m)
  unfolding advertise
  advertise-IsCounted m up new =
      let h = send_capabilities-IsCounted (record m { capabilities_sent = true }) up in
      record { transport = h.transport; counted = omega (arith, h.counted, ap flag new) }

  -- What is sent and noted stays.
  pub IsCounted-same :
      (m t : Module F)
      → t.transport ≡ m.transport
      → t.sent ≡ m.sent
      → t.capabilities_sent ≡ m.capabilities_sent
      → IsCounted 0 m t
  IsCounted-same m t same quiet noted = record {
    transport = same;
    counted = omega (arith, ap adverts quiet, ap flag noted);
  }

  pub hand_over-IsCounted : (j : Json F) (m : Module F) → IsCounted 0 m (hand_over j m)
  unfolding hand_over
  hand_over-IsCounted j m =
      if_rule (λ t. IsCounted 0 m t) m.has_receiver _ m (λ e. IsCounted-same m _ refl refl refl)
        (λ e. IsCounted-refl m)

  pub cap_add_to_filter-IsCounted : (id : ℤ) (m : Module F) → IsCounted 0 m (cap_add_to_filter id m)
  unfolding cap_add_to_filter
  cap_add_to_filter-IsCounted id m =
      if_rule (λ t. IsCounted 0 m t)
        (lists_id id
          (elements (if is_array m.message_filter then m.message_filter else array (of_items []))))
        _ _ (λ e. IsCounted-same m _ refl refl refl) (λ e. IsCounted-same m _ refl refl refl)
