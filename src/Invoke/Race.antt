-- ===== src/Invoke/Race.antt =====
-- When the handler of de_databus/de_module.cpp runs a second time for an id.
use droneengage_common.Common.{
  ◌≡◌, ◌≢◌, refl, true, false, none, some, String, str_eq, [], arith, eq_iff,
}
use droneengage_common.Common.Assoc.{Assoc, lookup}
use droneengage_common.Json.{Json}
use droneengage_common.Common.Float.{FloatOps}
use droneengage_common.Cap.Schema.{elem}
use droneengage_common.Cap.Check.{check_params}
use droneengage_common.Invoke.Handle.{
  CModule, Command, retire, resolve, params_schema, invoke_action, dispatch, handle_command,
  run_invoke_on_worker,
}
use droneengage_common.Invoke.Once.{IsRun, elem-erase_id}

-- The text is not empty.
named_test : (id : String) → id ≢ "" → str_eq id "" ≡ false
named_test id h = ground (arith, eq_iff id "")

module _ {F : Type 0} ⦃o : FloatOps F⦄ where
  -- A new id whose action is found and whose parameters are accepted does run.
  new_invoke_runs :
      (c : Command F) (m : CModule F)
      → c.id ≢ ""
      → lookup c.id m.invoke_results ≡ none
      → elem c.id m.invoke_inflight ≡ false
      → m.has_handler ≡ true
      → (action : Json F) (act : String) (filled : Assoc (Json F))
      → resolve c.ns c.act m.capability_parsed ≡ some (some (action, act))
      → check_params (params_schema action) c.with ≡ some ([], filled)
      → IsRun c m (handle_command c m).0
  unfolding handle_command dispatch invoke_action run_invoke_on_worker
  new_invoke_runs c m h new idle ready action act filled found accepted = record {
    action = action;
    act = act;
    filled = filled;
    found = found;
    accepted = accepted;
    ready = ready;
    after =
        rw (named_test c.id h, new, idle)
          (rw (found, dispatch) (rw (accepted, invoke_action) (rw ready refl)));
  }

  -- A worker whose invoke has run erases the id before it caches the result. Where the same invoke
  -- comes again between the two steps, the handler is started again for the same id.
  pub retired_invoke_runs_again :
      (c : Command F) (m n : CModule F)
      → c.id ≢ ""
      → lookup c.id m.invoke_results ≡ none
      → IsRun c m n
      → IsRun c (retire c.id n) (handle_command c (retire c.id n)).0
  unfolding retire
  retired_invoke_runs_again c m n h new r =
      new_invoke_runs c (retire c.id n) h (rw r.after new) (elem-erase_id c.id n.invoke_inflight)
        (rw r.after r.ready) r.action r.act r.filled (rw r.after r.found) r.accepted
