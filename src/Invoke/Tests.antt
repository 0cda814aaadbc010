-- ===== src/Invoke/Tests.antt =====
-- The theorems on capability invokes at a concrete module and invoke, with `double` as numbers of
-- three decimal places.
use droneengage_common.Common.{false, ◌≡◌, refl, true, none, [], ◌∷◌, arith}
use droneengage_common.Common.Assoc.{lookup, contains}
use droneengage_common.Common.Int.{ℤ, pos}
use droneengage_common.Common.Float.{FloatOps, milli}
use droneengage_common.Json.{object, string, end, member}
use droneengage_common.Cap.Check.{check_params, check_each, unknown_keys}
use droneengage_common.Cap.Action.{actions_of, find_action, canonical_action, by_alias, text_or}
use droneengage_common.Invoke.Handle.{
  done, InvokeResult, CModule, Command, resolve, handle_command, retire, answer, send_invoke_result,
  cache_invoke_result,
}
use droneengage_common.Invoke.Cache.{IsSound, cache_invoke_result-IsSound}
use droneengage_common.Invoke.Once.{HasFate, IsRun, handle_command_lem}
use droneengage_common.Invoke.Race.{retired_invoke_runs_again}
use droneengage_common.Invoke.Recent.{answers, handle_command-answers}

instance abbrev decimals : FloatOps ℤ
decimals = milli

-- A camera with one action, "shoot", that takes no parameters.
abbrev camera : CModule ℤ
camera = record {
  invoke_results = [];
  invoke_order = [];
  invoke_inflight = [];
  capability_parsed =
      object (
        member "actions" (object (member "shoot" (object end) end))
          (member "ns" (string "camera") end))
      ∷ [];
  has_handler = true;
  sent = [];
  started = [];
}

camera-IsSound : IsSound camera
unfolding contains lookup
camera-IsSound = record {
  agrees = record { listed = λ k. refl; distinct = tt };
  bounded = omega arith;
}

abbrev shoot : Command ℤ
shoot = record {
  id = "i1";
  ns = "camera";
  act = "shoot";
  with = object end;
  deadline_s = pos 10000;
}

abbrev picture : InvokeResult ℤ
picture = record { id = "i1"; answer = done (string "picture.jpg") }

handle_command_lem_example : HasFate shoot camera (handle_command shoot camera)
handle_command_lem_example = handle_command_lem shoot camera camera-IsSound (λ h. cc h)

cache_invoke_result-IsSound_example : IsSound (cache_invoke_result "i1" picture camera)
cache_invoke_result-IsSound_example = cache_invoke_result-IsSound "i1" picture camera camera-IsSound

-- The camera while the handler runs.
abbrev shooting : CModule ℤ
shooting = record camera {
  invoke_inflight = "i1" ∷ [];
  started =
      record { id = "i1"; ns = "camera"; act = "shoot"; params = []; deadline_s = pos 10000 } ∷ [];
}

shoot_runs : IsRun shoot camera shooting
unfolding resolve text_or find_action canonical_action actions_of by_alias lookup check_params
    check_each unknown_keys
shoot_runs = record {
  action = object end;
  act = "shoot";
  filled = [];
  found = refl;
  accepted = refl;
  ready = refl;
  after = refl;
}

nothing_cached : lookup "i1" camera.invoke_results ≡ none
unfolding lookup
nothing_cached = refl

retired_invoke_runs_again_example :
    IsRun shoot (retire "i1" shooting) (handle_command shoot (retire "i1" shooting)).0
retired_invoke_runs_again_example =
    retired_invoke_runs_again shoot camera shooting (λ h. cc h) nothing_cached shoot_runs

-- The answer to an invoke that came later.
abbrev another : InvokeResult ℤ
another = record { id = "i2"; answer = done (string "film.mp4") }

nothing_answered : contains "i1" camera.invoke_results ≡ false
unfolding contains lookup
nothing_answered = refl

handle_command-answers_example :
    handle_command shoot (answers (another ∷ []) (answer picture camera))
    ≡ (send_invoke_result picture (answers (another ∷ []) (answer picture camera)), false)
handle_command-answers_example =
    handle_command-answers shoot camera picture (another ∷ []) camera-IsSound (λ h. cc h) refl
      nothing_answered (refl, tt) (omega arith)
