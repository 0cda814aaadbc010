-- ===== src/Module/Announced.antt =====
-- A module of de_databus/de_module.cpp announces its adverts once the communicator has replied.
use droneengage_common.Common.{
  ◌≡◌, refl, sym, ap, ◌∙◌, true, false, not, ◌&&◌, Option, none, some, String, str_eq, List, [],
  ◌∷◌, if_rule, arith, All, suc, ◌+◌, ◌%◌,
}
use droneengage_common.Common.Int.{ℤ, pos, u64_mod, eqb_ℤ}
use droneengage_common.Common.Float.{FloatOps}
use droneengage_common.Bus.Udp.{is_empty}
use droneengage_common.Json.{as_int, Json, at}
use droneengage_common.Module.Message.Kind
use droneengage_common.Module.Message.Route
use droneengage_common.Module.State.{
  Module, is_started, create_json_id, cap_add_to_filter, append_extra_field,
}
use droneengage_common.Module.Capabilities.{
  Adverts, usable, refused, failed, set_capabilities, read_adverts, use_adverts, announce,
  refresh_id, store_adverts, with_adverts, publish_state, fire_event, on_invoke, send_capabilities,
  advertise,
}
use droneengage_common.Module.Receive.{
  on_message, on_typed, on_routed, on_intermodule, on_kind, answer_request, on_invoke_message,
  on_module_id, take_record, take_ids, register, hand_over, as_text, asks, c_str,
}
use droneengage_common.Module.Adverts.{
  Event, arrives, sets_capabilities, publishes, fires, handles_invokes, adverts, requests, step,
  run,
}
use droneengage_common.Module.Counts.{run-IsCounted}
use droneengage_common.Module.Unmoved.{
  IsUnmoved, send_jmsg-IsUnmoved, send_capabilities-IsUnmoved, hand_over-IsUnmoved,
  cap_add_to_filter-IsUnmoved, refresh_id-IsUnmoved, onward,
}

abbrev IsNamed : Option String → Type 0
IsNamed none = Unit
IsNamed (some party) = str_eq party "" ≡ false

module _ {F : Type 0} where
  abbrev NamesSender : Option (Json F) → Type 0
  NamesSender none = Unit
  NamesSender (some sender) = IsNamed (as_text sender)

  abbrev NamesIn : Option (Json F) → Type 0
  NamesIn none = Unit
  NamesIn (some ids) = NamesSender (at "sd" ids)

  abbrev NamesAt : Option (Json F) → Type 0
  NamesAt none = Unit
  NamesAt (some cmd) = NamesIn (at "f" cmd)

  -- A message that has the ids of a party gives the party a name that is not empty.
  abbrev pub NamesParty : Event F → Type 0
  NamesParty (arrives j) = NamesAt (at "ms" j)
  NamesParty _ = Unit

  pub record IsAnnounced (m : Module F) : Type 0 where
    pub ready : m.initialized ≡ true
    pub named : m.first_received ≡ true → str_eq m.party_id "" ≡ false
    pub told :
        m.first_received ≡ true → is_empty m.capability_adverts ≡ false → m.capabilities_sent ≡ true

  still : (m t : Module F) → IsUnmoved m t → IsAnnounced m → IsAnnounced t
  still m t u h = record {
    ready = u.initialized ∙ h.ready;
    named = λ e. ap (λ s. str_eq s "") u.party_id ∙ h.named (sym u.first_received ∙ e);
    told = λ e f.
        u.capabilities_sent
        ∙ h.told (sym u.first_received ∙ e) (sym (ap is_empty u.capability_adverts) ∙ f);
  }

module _ {F : Type 0} ⦃o : FloatOps F⦄ where
  advertise-IsAnnounced :
      (m : Module F)
      → m.initialized ≡ true
      → (m.first_received ≡ true → str_eq m.party_id "" ≡ false)
      → IsAnnounced (advertise m)
  unfolding advertise
  advertise-IsAnnounced m ready named =
      let t = record m { capabilities_sent = true } in
      still t (send_capabilities t) (send_capabilities-IsUnmoved t)
        (record { ready = ready; named = named; told = λ e f. refl })

  register-IsAnnounced :
      (m : Module F) → str_eq m.party_id "" ≡ false → IsAnnounced m → IsAnnounced (register m)
  unfolding register create_json_id
  register-IsAnnounced m named h =
      let t = record (create_json_id false m) { first_received = true } in
      if_rule IsAnnounced m.first_received m _ (λ e. h)
        (λ e.
          if_rule IsAnnounced (not m.capabilities_sent && not (is_empty m.capability_adverts))
            (advertise t) t (λ f. advertise-IsAnnounced t h.ready (λ x. named))
            (λ f. record {
              ready = h.ready;
              named = λ x. named;
              told = λ x g. ground (arith, f, g);
            }))

  take_ids-IsAnnounced :
      (party group : Option String) (j : Json F) (m : Module F)
      → IsNamed party
      → IsAnnounced m
      → IsAnnounced (take_ids party group j m)
  unfolding take_ids
  take_ids-IsAnnounced none group j m named h = h
  take_ids-IsAnnounced (some party) none j m named h = record {
    ready = h.ready;
    named = λ e. named;
    told = h.told;
  }
  take_ids-IsAnnounced (some party) (some group) j m named h =
      let t = record m { party_id = party; group_id = group } in
      still (register t) _ (hand_over-IsUnmoved j (register t)) (
        register-IsAnnounced t named
          (record { ready = h.ready; named = λ e. named; told = h.told }))

  take_record-IsAnnounced :
      (sender group : Option (Json F)) (j : Json F) (m : Module F)
      → NamesSender sender
      → IsAnnounced m
      → IsAnnounced (take_record sender group j m)
  unfolding take_record
  take_record-IsAnnounced none group j m named h = h
  take_record-IsAnnounced (some sender) none j m named h = h
  take_record-IsAnnounced (some sender) (some group) j m named h =
      take_ids-IsAnnounced (as_text sender) (as_text group) j m named h

  on_module_id-IsAnnounced :
      (ids : Option (Json F)) (j : Json F) (m : Module F)
      → NamesIn ids
      → IsAnnounced m
      → IsAnnounced (on_module_id ids j m)
  unfolding on_module_id
  on_module_id-IsAnnounced none j m named h = h
  on_module_id-IsAnnounced (some ids) j m named h =
      take_record-IsAnnounced (at "sd" ids) (at "gr" ids) j m named h

  on_kind-IsAnnounced :
      (type : ℤ) (cmd j : Json F) (m : Module F)
      → NamesIn (at "f" cmd)
      → IsAnnounced m
      → IsAnnounced (on_kind type cmd j m)
  unfolding on_kind on_invoke_message answer_request
  on_kind-IsAnnounced type cmd j m named h =
      if_rule IsAnnounced (eqb_ℤ type (pos Kind.module_id)) (on_module_id (at "f" cmd) j m) _
        (λ e. on_module_id-IsAnnounced (at "f" cmd) j m named h)
        (λ e.
          if_rule IsAnnounced (eqb_ℤ type (pos Kind.module_capabilities)) (answer_request cmd m) _
            (λ f.
              if_rule IsAnnounced (asks cmd) (send_capabilities m) m
                (λ g. still m _ (send_capabilities-IsUnmoved m) h) (λ g. h))
            (λ f.
              if_rule IsAnnounced (eqb_ℤ type (pos Kind.capability_invoke))
                (on_invoke_message cmd m) (hand_over j m)
                (λ g. record { ready = h.ready; named = h.named; told = h.told })
                (λ g. still m _ (hand_over-IsUnmoved j m) h)))

  on_intermodule-IsAnnounced :
      (cmd : Option (Json F)) (type : Option ℤ) (j : Json F) (m : Module F)
      → NamesAt cmd
      → IsAnnounced m
      → IsAnnounced (on_intermodule cmd type j m)
  unfolding on_intermodule
  on_intermodule-IsAnnounced none type j m named h = h
  on_intermodule-IsAnnounced (some cmd) none j m named h = h
  on_intermodule-IsAnnounced (some cmd) (some type) j m named h =
      on_kind-IsAnnounced type cmd j m named h

  on_routed-IsAnnounced :
      (routing : Option String) (type j : Json F) (m : Module F)
      → NamesAt (at "ms" j)
      → IsAnnounced m
      → IsAnnounced (on_routed routing type j m)
  unfolding on_routed
  on_routed-IsAnnounced none type j m named h = h
  on_routed-IsAnnounced (some routing) type j m named h =
      if_rule IsAnnounced (str_eq (c_str routing) Route.intermodule) _ (hand_over j m)
        (λ e. on_intermodule-IsAnnounced (at "ms" j) (as_int type) j m named h)
        (λ e. still m _ (hand_over-IsUnmoved j m) h)

  on_typed-IsAnnounced :
      (type routing : Option (Json F)) (j : Json F) (m : Module F)
      → NamesAt (at "ms" j)
      → IsAnnounced m
      → IsAnnounced (on_typed type routing j m)
  unfolding on_typed
  on_typed-IsAnnounced none routing j m named h = h
  on_typed-IsAnnounced (some type) none j m named h = h
  on_typed-IsAnnounced (some type) (some routing) j m named h =
      on_routed-IsAnnounced (as_text routing) type j m named h

  -- A registered module announces the adverts that it was given.
  announce-IsAnnounced :
      (m : Module F)
      → m.initialized ≡ true
      → (m.first_received ≡ true → str_eq m.party_id "" ≡ false)
      → IsAnnounced (announce m)
  unfolding announce
  announce-IsAnnounced m ready named =
      if_rule IsAnnounced (m.initialized && (not (str_eq m.party_id "") && not m.capabilities_sent))
        (advertise m) m (λ e. advertise-IsAnnounced m ready named)
        (λ e. record {
          ready = ready;
          named = named;
          told = λ x f. ground (arith, e, ready, named x);
        })

  use_adverts-IsAnnounced :
      (texts : List String) (read : Adverts F) (m : Module F)
      → IsAnnounced m
      → IsAnnounced (use_adverts texts read m).1
  unfolding use_adverts store_adverts with_adverts append_extra_field
  use_adverts-IsAnnounced texts (usable parsed) m h =
      let t = with_adverts texts parsed m in
      let a = cap_add_to_filter-IsUnmoved (pos Kind.module_capabilities) t in
      let b =
        cap_add_to_filter-IsUnmoved (pos Kind.capability_invoke)
          (cap_add_to_filter (pos Kind.module_capabilities) t) in
      let u = onward (onward a b) (refresh_id-IsUnmoved (store_adverts texts parsed m)) in
      announce-IsAnnounced (refresh_id (store_adverts texts parsed m)) (u.initialized ∙ h.ready)
        (λ e. ap (λ s. str_eq s "") u.party_id ∙ h.named (sym u.first_received ∙ e))
  use_adverts-IsAnnounced texts refused m h = h
  use_adverts-IsAnnounced texts failed m h = h

  module _ (parse : String → Option (Json F)) where
    step-IsAnnounced :
        (e : Event F) (m : Module F) → NamesParty e → IsAnnounced m → IsAnnounced (step parse e m)
    unfolding step on_message set_capabilities publish_state fire_event on_invoke
    step-IsAnnounced (arrives j) m named h =
        on_typed-IsAnnounced (at "mt" j) (at "ty" j) j m named h
    step-IsAnnounced (sets_capabilities texts) m named h =
        use_adverts-IsAnnounced texts (read_adverts parse texts) m h
    step-IsAnnounced (publishes ns changed full) m named h =
        still m _ (send_jmsg-IsUnmoved "" _ (pos Kind.module_state) true m) h
    step-IsAnnounced (fires now ns ev payload) m named h =
        still (record m { event_counter = suc m.event_counter % u64_mod }) _
          (send_jmsg-IsUnmoved "" _ (pos Kind.sync_event_fire) true _)
          (record { ready = h.ready; named = h.named; told = h.told })
    step-IsAnnounced (handles_invokes has_handler) m named h = record {
      ready = h.ready;
      named = h.named;
      told = h.told;
    }

    run-IsAnnounced :
        (events : List (Event F)) (m : Module F)
        → All NamesParty events
        → IsAnnounced m
        → IsAnnounced (run parse events m)
    unfolding run
    run-IsAnnounced [] m named h = h
    run-IsAnnounced (e ∷ events) m (named, later) h =
        run-IsAnnounced events (step parse e m) later (step-IsAnnounced e m named h)

    -- However messages and calls are interleaved: an initialised module whose client is started, which has had no reply
    -- and sent no adverts, and whose replies all name a party, has handed its client one capability message more than
    -- it was asked for, as soon as it has both a reply and adverts.
    pub adverts-run :
        (events : List (Event F)) (m : Module F)
        → m.initialized ≡ true
        → is_started m.transport ≡ true
        → m.first_received ≡ false
        → m.capabilities_sent ≡ false
        → All NamesParty events
        → (run parse events m).first_received ≡ true
        → is_empty (run parse events m).capability_adverts ≡ false
        → adverts (run parse events m).sent ≡ suc (requests events + adverts m.sent)
    adverts-run events m ready up unheard untold named replied given =
        let h : IsAnnounced m = record {
          ready = ready;
          named = λ e. absurd (ground (arith, e, unheard));
          told = λ e f. absurd (ground (arith, e, unheard));
        } in
        let told = (run-IsAnnounced events m named h).told replied given in
        ground (arith, (run-IsCounted parse events m up).counted, told, untold)
