-- ===== src/Module/Counts.antt =====
-- How many capability messages a module of de_databus/de_module.cpp sends.
use droneengage_common.Common.{
  ℕ, suc, ◌%◌, ◌≡◌, refl, ap, ◌∙◌, Bool, true, false, not, ◌&&◌, Option, none, some, String, str_eq,
  List, [], ◌∷◌, ◌==◌, if_rule, arith,
}
use droneengage_common.Common.Int.{ℤ, pos, u64_mod, eqb_ℤ, to_int32}
use droneengage_common.Common.Float.{FloatOps}
use droneengage_common.Bus.Udp.{is_empty}
use droneengage_common.Json.{as_int, Json, at}
use droneengage_common.Module.Message.Kind
use droneengage_common.Module.Message.Route
use droneengage_common.Module.State.{Module, is_started, create_json_id, append_extra_field}
use droneengage_common.Module.Capabilities.{
  Adverts, usable, refused, failed, set_capabilities, read_adverts, use_adverts, announce,
  refresh_id, store_adverts, with_adverts, publish_state, fire_event, on_invoke, advertise,
}
use droneengage_common.Module.Receive.{
  on_message, on_typed, on_routed, on_intermodule, on_kind, answer_request, on_invoke_message,
  on_module_id, take_record, take_ids, register, hand_over, as_text, asks, c_str,
}
use droneengage_common.Module.Adverts.{
  Event, arrives, sets_capabilities, publishes, fires, handles_invokes, asked, asked_by, asked_in,
  is_request, requests, step, run,
}
use droneengage_common.Module.Sent.{
  flag, IsCounted, IsCounted-refl, IsCounted-same, in_turn, send_jmsg-IsCounted,
  send_capabilities-IsCounted, advertise-IsCounted, hand_over-IsCounted,
  cap_add_to_filter-IsCounted,
}

differs :
    (k : ℤ) (n : ℕ)
    → eqb_ℤ k (pos n) ≡ true
    → (n == Kind.module_capabilities) ≡ false
    → eqb_ℤ k (pos Kind.module_capabilities) ≡ false
differs k n e other = ground (arith, e, other)

module _ {F : Type 0} ⦃o : FloatOps F⦄ where
  -- The first reply of the communicator.
  register-IsCounted : (m : Module F) → is_started m.transport ≡ true → IsCounted 0 m (register m)
  unfolding register create_json_id
  register-IsCounted m up =
      if_rule (λ t. IsCounted 0 m t) m.first_received m _ (λ e. IsCounted-refl m)
        (λ e.
          let m1 = record (create_json_id false m) { first_received = true } in
          if_rule (λ t. IsCounted 0 m t)
            (not m.capabilities_sent && not (is_empty m.capability_adverts)) (advertise m1) m1
            (λ f.
              in_turn (IsCounted-same m m1 refl refl refl)
                (advertise-IsCounted m1 up (ground (arith, f))))
            (λ f. IsCounted-same m m1 refl refl refl))

  take_ids-IsCounted :
      (party group : Option String) (j : Json F) (m : Module F)
      → is_started m.transport ≡ true
      → IsCounted 0 m (take_ids party group j m)
  unfolding take_ids
  take_ids-IsCounted none group j m up = IsCounted-refl m
  take_ids-IsCounted (some party) none j m up = IsCounted-same m _ refl refl refl
  take_ids-IsCounted (some party) (some group) j m up =
      let m1 = record m { party_id = party; group_id = group } in
      in_turn (IsCounted-same m m1 refl refl refl)
        (in_turn (register-IsCounted m1 up) (hand_over-IsCounted j (register m1)))

  take_record-IsCounted :
      (sender group : Option (Json F)) (j : Json F) (m : Module F)
      → is_started m.transport ≡ true
      → IsCounted 0 m (take_record sender group j m)
  unfolding take_record
  take_record-IsCounted none group j m up = IsCounted-refl m
  take_record-IsCounted (some sender) none j m up = IsCounted-refl m
  take_record-IsCounted (some sender) (some group) j m up =
      take_ids-IsCounted (as_text sender) (as_text group) j m up

  on_module_id-IsCounted :
      (ids : Option (Json F)) (j : Json F) (m : Module F)
      → is_started m.transport ≡ true
      → IsCounted 0 m (on_module_id ids j m)
  unfolding on_module_id
  on_module_id-IsCounted none j m up = IsCounted-refl m
  on_module_id-IsCounted (some ids) j m up =
      take_record-IsCounted (at "sd" ids) (at "gr" ids) j m up

  answer_request-IsCounted :
      (cmd : Json F) (m : Module F)
      → is_started m.transport ≡ true
      → IsCounted (flag (asks cmd)) m (answer_request cmd m)
  unfolding answer_request
  answer_request-IsCounted cmd m up =
      if_rule (λ t. IsCounted (flag (asks cmd)) m t) (asks cmd) _ m
        (λ e. rw e (send_capabilities-IsCounted m up)) (λ e. rw e (IsCounted-refl m))

  -- A type that is not the one of a request.
  not_asked :
      (k : ℤ) (b : Bool) (n : ℕ) (m t : Module F)
      → eqb_ℤ k (pos n) ≡ true
      → (n == Kind.module_capabilities) ≡ false
      → IsCounted 0 m t
      → IsCounted (flag (eqb_ℤ k (pos Kind.module_capabilities) && b)) m t
  not_asked k b n m t e other h = rw (differs k n e other) h

  on_kind-IsCounted :
      (k : ℤ) (cmd j : Json F) (m : Module F)
      → is_started m.transport ≡ true
      → IsCounted (flag (eqb_ℤ k (pos Kind.module_capabilities) && asks cmd)) m (on_kind k cmd j m)
  unfolding on_kind on_invoke_message
  on_kind-IsCounted k cmd j m up =
      let P : Module F → Type 0 =
        λ t. IsCounted (flag (eqb_ℤ k (pos Kind.module_capabilities) && asks cmd)) m t in
      if_rule P (eqb_ℤ k (pos Kind.module_id)) (on_module_id (at "f" cmd) j m) _
        (λ e.
          not_asked k (asks cmd) Kind.module_id m _ e refl
            (on_module_id-IsCounted (at "f" cmd) j m up))
        (λ e.
          if_rule P (eqb_ℤ k (pos Kind.module_capabilities)) (answer_request cmd m) _
            (λ f. rw f (answer_request-IsCounted cmd m up))
            (λ f.
              if_rule P (eqb_ℤ k (pos Kind.capability_invoke)) (on_invoke_message cmd m)
                (hand_over j m) (λ g. rw f (IsCounted-same m _ refl refl refl))
                (λ g. rw f (hand_over-IsCounted j m))))

  on_intermodule-IsCounted :
      (cmd : Option (Json F)) (type : Option ℤ) (j : Json F) (m : Module F)
      → is_started m.transport ≡ true
      → IsCounted (flag (asked cmd type)) m (on_intermodule cmd type j m)
  unfolding on_intermodule
  on_intermodule-IsCounted none type j m up = IsCounted-refl m
  on_intermodule-IsCounted (some cmd) none j m up = IsCounted-refl m
  on_intermodule-IsCounted (some cmd) (some type) j m up = on_kind-IsCounted type cmd j m up

  on_routed-IsCounted :
      (routing : Option String) (type j : Json F) (m : Module F)
      → is_started m.transport ≡ true
      → IsCounted (flag (asked_by routing type j)) m (on_routed routing type j m)
  unfolding on_routed
  on_routed-IsCounted none type j m up = IsCounted-refl m
  on_routed-IsCounted (some routing) type j m up =
      if_rule (λ t. IsCounted (flag (asked_by (some routing) type j)) m t)
        (str_eq (c_str routing) Route.intermodule) _ (hand_over j m)
        (λ e. rw e (on_intermodule-IsCounted (at "ms" j) (as_int type) j m up))
        (λ e. rw e (hand_over-IsCounted j m))

  on_typed-IsCounted :
      (type routing : Option (Json F)) (j : Json F) (m : Module F)
      → is_started m.transport ≡ true
      → IsCounted (flag (asked_in type routing j)) m (on_typed type routing j m)
  unfolding on_typed
  on_typed-IsCounted none routing j m up = IsCounted-refl m
  on_typed-IsCounted (some type) none j m up = IsCounted-refl m
  on_typed-IsCounted (some type) (some routing) j m up =
      on_routed-IsCounted (as_text routing) type j m up

  announce-IsCounted : (m : Module F) → is_started m.transport ≡ true → IsCounted 0 m (announce m)
  unfolding announce
  announce-IsCounted m up =
      if_rule (λ t. IsCounted 0 m t)
        (m.initialized && (not (str_eq m.party_id "") && not m.capabilities_sent)) (advertise m) m
        (λ e. advertise-IsCounted m up (ground (arith, e))) (λ e. IsCounted-refl m)

  refresh_id-IsCounted : (m : Module F) → IsCounted 0 m (refresh_id m)
  unfolding refresh_id create_json_id
  refresh_id-IsCounted m =
      if_rule (λ t. IsCounted 0 m t) m.initialized (create_json_id false m) m
        (λ e. IsCounted-same m _ refl refl refl) (λ e. IsCounted-refl m)

  store_adverts-IsCounted :
      (texts : List String) (parsed : List (Json F)) (m : Module F)
      → IsCounted 0 m (store_adverts texts parsed m)
  unfolding store_adverts with_adverts append_extra_field
  store_adverts-IsCounted texts parsed m =
      in_turn (IsCounted-same m (with_adverts texts parsed m) refl refl refl) (
        in_turn
          (cap_add_to_filter-IsCounted (pos Kind.module_capabilities) (with_adverts texts parsed m))
          (cap_add_to_filter-IsCounted (pos Kind.capability_invoke) _))

  use_adverts-IsCounted :
      (texts : List String) (read : Adverts F) (m : Module F)
      → is_started m.transport ≡ true
      → IsCounted 0 m (use_adverts texts read m).1
  unfolding use_adverts
  use_adverts-IsCounted texts (usable parsed) m up =
      let m1 = store_adverts texts parsed m in
      let h = in_turn (store_adverts-IsCounted texts parsed m) (refresh_id-IsCounted m1) in
      in_turn h (announce-IsCounted (refresh_id m1) (ap is_started h.transport ∙ up))
  use_adverts-IsCounted texts refused m up = IsCounted-refl m
  use_adverts-IsCounted texts failed m up = IsCounted-refl m

  publish_state-IsCounted :
      (ns : String) (changed : Json F) (full : Bool) (m : Module F)
      → is_started m.transport ≡ true
      → IsCounted 0 m (publish_state ns changed full m)
  unfolding publish_state to_int32
  publish_state-IsCounted ns changed full m up =
      send_jmsg-IsCounted "" _ (pos Kind.module_state) true m up refl

  fire_event-IsCounted :
      (now : ℕ) (ns ev : String) (payload : Json F) (m : Module F)
      → is_started m.transport ≡ true
      → IsCounted 0 m (fire_event now ns ev payload m).1
  unfolding fire_event to_int32
  fire_event-IsCounted now ns ev payload m up = in_turn (IsCounted-same m _ refl refl refl) (
      send_jmsg-IsCounted "" _ (pos Kind.sync_event_fire) true
        (record m { event_counter = suc m.event_counter % u64_mod }) up refl)

  module _ (parse : String → Option (Json F)) where
    step-IsCounted :
        (e : Event F) (m : Module F)
        → is_started m.transport ≡ true
        → IsCounted (flag (is_request e)) m (step parse e m)
    unfolding step on_message set_capabilities on_invoke
    step-IsCounted (arrives j) m up = on_typed-IsCounted (at "mt" j) (at "ty" j) j m up
    step-IsCounted (sets_capabilities texts) m up =
        use_adverts-IsCounted texts (read_adverts parse texts) m up
    step-IsCounted (publishes ns changed full) m up = publish_state-IsCounted ns changed full m up
    step-IsCounted (fires now ns ev payload) m up = fire_event-IsCounted now ns ev payload m up
    step-IsCounted (handles_invokes has_handler) m up = IsCounted-same m _ refl refl refl

    -- Over any run of a module whose client is started, the capability messages that it sends are those that it is asked
    -- for, and one more when it notes that it has sent them unasked.
    pub run-IsCounted :
        (events : List (Event F)) (m : Module F)
        → is_started m.transport ≡ true
        → IsCounted (requests events) m (run parse events m)
    unfolding run requests
    run-IsCounted [] m up = IsCounted-refl m
    run-IsCounted (e ∷ events) m up =
        let h = step-IsCounted e m up in
        in_turn h (run-IsCounted events (step parse e m) (ap is_started h.transport ∙ up))
