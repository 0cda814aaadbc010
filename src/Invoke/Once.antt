-- ===== src/Invoke/Once.antt =====
-- How often the handler of de_databus/de_module.cpp runs for an id, in every order of the steps of
-- the receive thread and of the workers.
use droneengage_common.Common.{
  ◌≡◌, ◌≢◌, refl, Bool, true, false, Option, none, some, String, str_eq, List, [], ◌∷◌,
  if◌then◌else◌, arith, eq_iff, Option-cases, inl, inr,
}
use droneengage_common.Common.Assoc.{Assoc, lookup}
use droneengage_common.Common.Float.{FloatOps}
use droneengage_common.Json.{Json}
use droneengage_common.Cap.Outcome.{CapError}
use droneengage_common.Cap.Schema.{elem}
use droneengage_common.Cap.Check.{Errors, check_params}
use droneengage_common.Invoke.Handle.{
  Answer, no_handler, invalid_params, unknown_action, run_invoke_on_worker, InvokeResult, Job,
  CModule, Command, cache_invoke_result, send_invoke_result, erase_id, retire, answer, fail,
  resolve, params_schema, invoke_action, dispatch, handle_command,
}
use droneengage_common.Invoke.Cache.{
  IsSound, cache_invoke_result-IsSound, lookup-cache_invoke_result,
}

pub elem-erase_id : (k : String) (js : List String) → elem k (erase_id k js) ≡ false
unfolding erase_id
elem-erase_id k [] = refl
elem-erase_id k (j ∷ js) = ground (arith, elem-erase_id k js, eq_iff j k, eq_iff k j)

module _ {F : Type 0} where
  -- The id was failed: its result is cached and sent, and it is not in flight.
  pub record IsFailed (id : String) (reason : Answer F) (m n : CModule F) : Type 0 where
    pub cached : lookup id n.invoke_results ≡ some (record { id = id; answer = reason })
    pub sent : n.sent ≡ record { id = id; answer = reason } ∷ m.sent
    pub retired : elem id n.invoke_inflight ≡ false
    pub quiet : n.started ≡ m.started
    pub sound : IsSound n

  retire-IsSound : (id : String) (m : CModule F) → IsSound m → IsSound (retire id m)
  unfolding retire
  retire-IsSound id m s = record { agrees = s.agrees; bounded = s.bounded }

  answer-IsSound : (r : InvokeResult F) (m : CModule F) → IsSound m → IsSound (answer r m)
  unfolding answer send_invoke_result
  answer-IsSound r m s = record {
    agrees = (cache_invoke_result-IsSound r.id r m s).agrees;
    bounded = (cache_invoke_result-IsSound r.id r m s).bounded;
  }

  fail-IsFailed :
      (id : String) (a : Answer F) (m : CModule F) → IsSound m → IsFailed id a m (fail id a m)
  unfolding fail answer retire send_invoke_result cache_invoke_result
  fail-IsFailed id a m s = record {
    cached =
        lookup-cache_invoke_result id (record { id = id; answer = a }) (retire id m)
          (retire-IsSound id m s);
    sent = refl;
    retired = elem-erase_id id m.invoke_inflight;
    quiet = refl;
    sound = answer-IsSound (record { id = id; answer = a }) (retire id m) (retire-IsSound id m s);
  }

module _ {F : Type 0} ⦃o : FloatOps F⦄ where
  -- The handler was started on a found action, under its current name, with checked parameters.
  pub record IsRun (c : Command F) (m n : CModule F) : Type 0 where
    pub action : Json F
    pub act : String
    pub filled : Assoc (Json F)
    pub found : resolve c.ns c.act m.capability_parsed ≡ some (some (action, act))
    pub accepted : check_params (params_schema action) c.with ≡ some ([], filled)
    pub ready : m.has_handler ≡ true
    pub after : n ≡ record m {
      invoke_inflight = c.id ∷ m.invoke_inflight;
      started =
          record { id = c.id; ns = c.ns; act = act; params = filled; deadline_s = c.deadline_s }
          ∷ m.started;
    }

  -- Why a new id is failed, and what the answer says.
  pub data IsReason (c : Command F) (m : CModule F) : Answer F → Type 0 where
    no_action :
        resolve c.ns c.act m.capability_parsed ≡ some none
        → IsReason c m (unknown_action c.ns c.act)
    bad_params :
        (action : Json F) (act : String) (e : CapError F) (es : Errors F) (filled : Assoc (Json F))
        → resolve c.ns c.act m.capability_parsed ≡ some (some (action, act))
        → check_params (params_schema action) c.with ≡ some (e ∷ es, filled)
        → IsReason c m (invalid_params (e ∷ es))
    handler_missing :
        (action : Json F) (act : String) (filled : Assoc (Json F))
        → resolve c.ns c.act m.capability_parsed ≡ some (some (action, act))
        → check_params (params_schema action) c.with ≡ some ([], filled)
        → m.has_handler ≡ false
        → IsReason c m no_handler

  -- Where an exception comes from: the adverts, or the schema of the action that was found.
  pub data IsThrown (c : Command F) (m : CModule F) : Type 0 where
    in_advert : resolve c.ns c.act m.capability_parsed ≡ none → IsThrown c m
    in_schema :
        (action : Json F) (act : String)
        → resolve c.ns c.act m.capability_parsed ≡ some (some (action, act))
        → check_params (params_schema action) c.with ≡ none
        → IsThrown c m

  -- What becomes of an invoke with an id, and whether it ends by an exception: a cached result is sent again, an id in
  -- flight is ignored, and a new id is failed, given to a handler, or lost to an exception, which leaves it in flight.
  pub data Fate (c : Command F) (m n : CModule F) (threw : Bool) : Type 0 where
    replayed :
        (r : InvokeResult F)
        → lookup c.id m.invoke_results ≡ some r
        → n ≡ send_invoke_result r m
        → threw ≡ false
        → Fate c m n threw
    ignored :
        lookup c.id m.invoke_results ≡ none
        → elem c.id m.invoke_inflight ≡ true
        → n ≡ m
        → threw ≡ false
        → Fate c m n threw
    failed :
        lookup c.id m.invoke_results ≡ none
        → elem c.id m.invoke_inflight ≡ false
        → (a : Answer F) → IsReason c m a
        → IsFailed c.id a m n
        → threw ≡ false
        → Fate c m n threw
    run :
        lookup c.id m.invoke_results ≡ none
        → elem c.id m.invoke_inflight ≡ false
        → IsRun c m n
        → threw ≡ false
        → Fate c m n threw
    lost :
        lookup c.id m.invoke_results ≡ none
        → elem c.id m.invoke_inflight ≡ false
        → IsThrown c m
        → n ≡ record m { invoke_inflight = c.id ∷ m.invoke_inflight }
        → threw ≡ true
        → Fate c m n threw

  abbrev pub HasFate : Command F → CModule F → CModule F × Bool → Type 0
  HasFate c m r = Fate c m r.0 r.1

  -- `m` with the id of a new invoke in flight.
  abbrev taken : String → CModule F → CModule F
  taken id m = record m { invoke_inflight = id ∷ m.invoke_inflight }

  taken-IsSound : (id : String) (m : CModule F) → IsSound m → IsSound (taken id m)
  taken-IsSound id m s = record { agrees = s.agrees; bounded = s.bounded }

  IsFailed-of :
      (id : String) (a : Answer F) (m n : CModule F)
      → IsFailed id a (taken id m) n
      → IsFailed id a m n
  IsFailed-of id a m n f = record {
    cached = f.cached;
    sent = f.sent;
    retired = f.retired;
    quiet = f.quiet;
    sound = f.sound;
  }

  module _ (c : Command F) (m : CModule F) (s : IsSound m)
      (new : lookup c.id m.invoke_results ≡ none) (idle : elem c.id m.invoke_inflight ≡ false) where
    fate_of_failure : (a : Answer F) → IsReason c m a → Fate c m (fail c.id a (taken c.id m)) false
    fate_of_failure a why =
        failed new idle a why
          (IsFailed-of c.id a m (fail c.id a (taken c.id m))
            (fail-IsFailed c.id a (taken c.id m) (taken-IsSound c.id m s)))
          refl

    -- The command's parameters were accepted.
    module _ (action : Json F) (act : String) (filled : Assoc (Json F))
        (e : resolve c.ns c.act m.capability_parsed ≡ some (some (action, act)))
        (h : check_params (params_schema action) c.with ≡ some ([], filled)) where
      abbrev the_job : Job F
      the_job = record {
        id = c.id;
        ns = c.ns;
        act = act;
        params = filled;
        deadline_s = c.deadline_s;
      }

      fate_of_ready :
          (b : Bool)
          → m.has_handler ≡ b
          → HasFate c m (
              if◌then◌else◌ {A = CModule F × Bool} b
                (run_invoke_on_worker the_job (taken c.id m), false)
                (fail c.id no_handler (taken c.id m), false))
      unfolding run_invoke_on_worker
      fate_of_ready true ready =
          run new idle
            (record {
              action = action;
              act = act;
              filled = filled;
              found = e;
              accepted = h;
              ready = ready;
              after = refl;
            })
            refl
      fate_of_ready false missing =
          fate_of_failure no_handler (handler_missing action act filled e h missing)

    fate_of_checked :
        (action : Json F) (act : String) (v : Option (Errors F × Assoc (Json F)))
        → resolve c.ns c.act m.capability_parsed ≡ some (some (action, act))
        → check_params (params_schema action) c.with ≡ v
        → HasFate c m (invoke_action c action act (taken c.id m))
    unfolding invoke_action
    fate_of_checked action act none e h =
        rw (h, invoke_action) (lost new idle (in_schema action act e h) refl refl)
    fate_of_checked action act (some (p ∷ ps, filled)) e h =
        rw (h, invoke_action)
          (fate_of_failure (invalid_params (p ∷ ps)) (bad_params action act p ps filled e h))
    fate_of_checked action act (some ([], filled)) e h =
        rw (h, invoke_action) (fate_of_ready action act filled e h m.has_handler refl)

    fate_of_resolved :
        (v : Option (Option (Json F × String)))
        → resolve c.ns c.act m.capability_parsed ≡ v
        → HasFate c m (dispatch c (taken c.id m))
    unfolding dispatch
    fate_of_resolved none e = rw (e, dispatch) (lost new idle (in_advert e) refl refl)
    fate_of_resolved (some none) e =
        rw (e, dispatch) (fate_of_failure (unknown_action c.ns c.act) (no_action e))
    fate_of_resolved (some (some (action, act))) e =
        rw (e, dispatch) (fate_of_checked action act _ e refl)

  fate_of_flight :
      (c : Command F) (m : CModule F) (b : Bool)
      → IsSound m
      → lookup c.id m.invoke_results ≡ none
      → elem c.id m.invoke_inflight ≡ b
      → HasFate c m (if◌then◌else◌ {A = CModule F × Bool} b (m, false) (dispatch c (taken c.id m)))
  fate_of_flight c m true s new e = ignored new e refl refl
  fate_of_flight c m false s new e = fate_of_resolved c m s new e _ refl

  -- An invoke with an id, of a module whose cache is sound: a cached id is answered by its result and nothing else
  -- changes, and an id in flight changes nothing. A new id is failed, with an answer that is cached and sent, exactly for
  -- an unknown action, parameters with errors or a missing handler; or it starts the handler once, on the action that
  -- its name resolves to, with parameters that were accepted; or the adverts or the schema make it end in an exception,
  -- and it stays in flight. There is an exception in the last case only.
  pub handle_command_lem :
      (c : Command F) (m : CModule F) → IsSound m → c.id ≢ "" → HasFate c m (handle_command c m)
  unfolding handle_command
  handle_command_lem c m s named = elim (Option-cases (lookup c.id m.invoke_results)) [
    | inl e ↦ rw (e, named_test) (fate_of_flight c m _ s e refl)
    | inr (r, e) ↦ rw (e, named_test) (replayed r e refl refl)
  ]
    where
      named_test : str_eq c.id "" ≡ false
      named_test = ground (arith, eq_iff c.id "")
