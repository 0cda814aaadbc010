-- ===== src/Invoke/Handle.antt =====
-- `handleCapabilityInvoke`, `cacheInvokeResult` and `runInvokeOnWorker` of de_databus/de_module.cpp.
-- The receive thread handles an invoke in one step. A worker takes two: it erases the id of its invoke
-- under the lock (`retire`), and then, under the lock again, caches the result, and sends it (`answer`).
use droneengage_common.Common.{
  Bool, true, false, Option, none, some, String, str_eq, List, [], ◌∷◌, ◌++◌, if◌then◌else◌, ltb,
  length,
}
use droneengage_common.Common.Assoc.{Assoc, lookup, contains, insert, erase}
use droneengage_common.Common.Int.{pos}
use droneengage_common.Common.Float.{FloatOps}
use droneengage_common.Json.{Json, object, end, at, is_number, is_object, get_double}
use droneengage_common.Cap.Schema.{elem}
use droneengage_common.Cap.Check.{Errors, check_params}
use droneengage_common.Cap.Action.{text_or, find_action, canonical_action}

pub data Answer (F : Type 0) : Type 0 where
  done : Json F → Answer F
  handler_error : String → Answer F
  handler_exception : String → Answer F
  timeout no_handler : Answer F
  unknown_action : String → String → Answer F
  invalid_params : Errors F → Answer F

pub record InvokeResult (F : Type 0) : Type 0 where
  pub id : String
  pub answer : Answer F

-- What a worker runs the handler on.
pub record Job (F : Type 0) : Type 0 where
  pub id : String
  pub ns : String
  pub act : String
  pub params : Assoc (Json F)
  pub deadline_s : F

-- The members of `CModule` that an invoke touches, with what left the module: the results sent, the
-- last first, and the jobs started, the last first.
pub record CModule (F : Type 0) : Type 0 where
  pub invoke_results : Assoc (InvokeResult F)
  pub invoke_order : List String
  pub invoke_inflight : List String
  pub capability_parsed : List (Json F)
  pub has_handler : Bool
  pub sent : List (InvokeResult F)
  pub started : List (Job F)

unfoldable pub erase_id : String → List String → List String
erase_id k [] = []
erase_id k (j ∷ js) = let rest = erase_id k js in if str_eq j k then rest else j ∷ rest

module _ {F : Type 0} where
  -- The loop that keeps 64 results.
  unfoldable pub trim : Assoc (InvokeResult F) → List String → Assoc (InvokeResult F) × List String
  unfolding erase
  trim results [] = (results, [])
  trim results (k ∷ ks) =
      let rest = trim (erase k results) ks in
      if ltb 64 (length (k ∷ ks)) then rest else (results, k ∷ ks)

  unfoldable pub cache_invoke_result : String → InvokeResult F → CModule F → CModule F
  unfolding trim contains insert
  cache_invoke_result id r m =
      let kept =
        trim (insert id r m.invoke_results)
          (if contains id m.invoke_results then m.invoke_order else m.invoke_order ++ id ∷ []) in
      record m { invoke_results = kept.0; invoke_order = kept.1 }

  unfoldable pub send_invoke_result : InvokeResult F → CModule F → CModule F
  send_invoke_result r m = record m { sent = r ∷ m.sent }

  unfoldable pub retire : String → CModule F → CModule F
  unfolding erase_id
  retire id m = record m { invoke_inflight = erase_id id m.invoke_inflight }

  unfoldable pub answer : InvokeResult F → CModule F → CModule F
  unfolding cache_invoke_result send_invoke_result
  answer r m = send_invoke_result r (cache_invoke_result r.id r m)

  -- The lambda `fail`.
  unfoldable pub fail : String → Answer F → CModule F → CModule F
  unfolding retire answer
  fail id a m = answer (record { id = id; answer = a }) (retire id m)

  -- The action and its current name, in the first advert of the namespace.
  unfoldable pub resolve : String → String → List (Json F) → Option (Option (Json F × String))
  unfolding text_or find_action canonical_action
  resolve ns act [] = some none
  resolve ns act (advert ∷ adverts) =
      let rest = resolve ns act adverts in
      if is_object advert
      then elim (text_or "ns" "" advert) [
        | none ↦ none
        | some n ↦
            if str_eq n ns
            then elim (find_action advert act) [
              | none ↦ none
              | some none ↦ some none
              | some (some a) ↦ elim (canonical_action advert act) [
                | none ↦ none
                | some c ↦ some (some (a, c))
              ]
            ]
            else rest
      ]
      else none

  abbrev pub params_schema : Json F → Json F
  params_schema action = elim (at "params" action) [ none ↦ object end | some p ↦ p ]

-- What the handler reads of an invoke.
pub record Command (F : Type 0) : Type 0 where
  pub id : String
  pub ns : String
  pub act : String
  pub with : Json F
  pub deadline_s : F

module _ {F : Type 0} ⦃o : FloatOps F⦄ where
  abbrev object_or_empty : Option (Json F) → Json F
  object_or_empty none = object end
  object_or_empty (some p) = if is_object p then p else object end

  abbrev deadline : Option (Json F) → F
  deadline none = o.of_int (pos 10)
  deadline (some d) =
      if is_number d
      then (if o.le (get_double d) (o.of_int (pos 0)) then o.of_int (pos 10) else get_double d)
      else o.of_int (pos 10)

  abbrev command : Json F → Option String → Option String → Option String → Option (Command F)
  command cmd (some id) (some ns) (some act) = some record {
    id = id;
    ns = ns;
    act = act;
    with = object_or_empty (at "p" cmd);
    deadline_s = deadline (at "dl" cmd);
  }
  command cmd _ _ _ = none

  unfoldable pub read_command : Json F → Option (Command F)
  unfolding text_or
  read_command cmd =
      if is_object cmd
      then command cmd (text_or "id" "" cmd) (text_or "ns" "" cmd) (text_or "act" "" cmd)
      else none

  unfoldable pub run_invoke_on_worker : Job F → CModule F → CModule F
  run_invoke_on_worker job m = record m { started = job ∷ m.started }

  -- The action is found: its parameters are checked, and the handler runs.
  unfoldable pub invoke_action : Command F → Json F → String → CModule F → CModule F × Bool
  unfolding check_params run_invoke_on_worker fail
  invoke_action c action act m = elim (check_params (params_schema action) c.with) [
    | none ↦ (m, true)
    | some (e ∷ es, filled) ↦ (fail c.id (invalid_params (e ∷ es)) m, false)
    | some ([], filled) ↦
        if m.has_handler
        then (
          run_invoke_on_worker
              (record {
                id = c.id;
                ns = c.ns;
                act = act;
                params = filled;
                deadline_s = c.deadline_s;
              })
              m,
          false,
        )
        else (fail c.id no_handler m, false)
  ]

  -- A new id.
  unfoldable pub dispatch : Command F → CModule F → CModule F × Bool
  unfolding resolve invoke_action
  dispatch c m = elim (resolve c.ns c.act m.capability_parsed) [
    | none ↦ (m, true)
    | some none ↦ (fail c.id (unknown_action c.ns c.act) m, false)
    | some (some (action, act)) ↦ invoke_action c action act m
  ]

  unfoldable pub handle_command : Command F → CModule F → CModule F × Bool
  unfolding dispatch lookup
  handle_command c m = if str_eq c.id "" then (m, false) else elim (lookup c.id m.invoke_results) [
    | some r ↦ (send_invoke_result r m, false)
    | none ↦
        if elem c.id m.invoke_inflight
        then (m, false)
        else dispatch c (record m { invoke_inflight = c.id ∷ m.invoke_inflight })
  ]

  -- `handleCapabilityInvoke`: the module after it, and whether it ended by an exception.
  unfoldable pub handle_capability_invoke : Json F → CModule F → CModule F × Bool
  unfolding handle_command read_command
  handle_capability_invoke cmd m = elim (read_command cmd) [
    | none ↦ (m, true)
    | some c ↦ handle_command c m
  ]
