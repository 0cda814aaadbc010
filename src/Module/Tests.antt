-- ===== src/Module/Tests.antt =====
-- The module of de_databus/de_module.cpp at concrete messages and calls, with `double` as numbers of three decimal
-- places.
use droneengage_common.Common.{
  suc, ◌+◌, ℕ, ◌≡◌, refl, true, false, Option, some, String, List, [], ◌∷◌, arith,
}
use droneengage_common.Common.Assoc.{lookup}
use droneengage_common.Common.Int.{ℤ, pos, to_int32}
use droneengage_common.Cap.Schema.{is_valid_name}
use droneengage_common.Common.Float.{FloatOps, milli}
use droneengage_common.Json.{Json, null, boolean, integer, string, object, end, member}
use droneengage_common.Bus.Link.{Link, sent}
use droneengage_common.Bus.Udp
use droneengage_common.Bus.Udp.{is_empty, UdpClient}
use droneengage_common.Cpu.Config.{default_config}
use droneengage_common.Cpu.Monitor
use droneengage_common.Cpu.Monitor.{CpuTimes}
use droneengage_common.Module.Message.{Outgoing, text, binary}
use droneengage_common.Module.State.{Module, over_udp, new}
use droneengage_common.Module.Adverts.{
  Event, arrives, sets_capabilities, publishes, requests, adverts, run,
}
use droneengage_common.Module.Sent.{IsCounted}
use droneengage_common.Module.Counts.{run-IsCounted}
use droneengage_common.Module.Announced.{adverts-run}
use droneengage_common.Module.Report.{Reporter, Sample}
use droneengage_common.Module.Reported
use droneengage_common.Module.Reported.{Log, IsReported, run-IsReported}
use droneengage_common.Module.Init.{Host, not_initialized, is_localhost, init, new_reporter}
use droneengage_common.Module.Started.{is_running, id_field, init-IsUp}

instance abbrev decimals : FloatOps ℤ
decimals = milli

abbrev client : UdpClient
client = record {
  chunk_size = 4;
  socket_open = true;
  addresses = true;
  started = true;
  stopped = false;
}

abbrev camera : Module ℤ
camera = record (new (pos 5)) {
  module_key = "K1";
  transport = over_udp client;
  initialized = true;
  has_receiver = true;
}

-- The reply of the communicator, and its request for adverts.
abbrev reply : Json ℤ
reply = object (
    member "ms"
      (object
        (member "f" (object (member "gr" (string "group") (member "sd" (string "unit") end))) end))
      (member "mt" (integer (pos 9100)) (member "ty" (string "uv") end)))

abbrev request : Json ℤ
request = object (
    member "ms" (object (member "r" (boolean true) end))
      (member "mt" (integer (pos 6542)) (member "ty" (string "uv") end)))

abbrev advert : Json ℤ
advert = object (
    member "module" (string "camera") (
      member "ns" (string "camera")
        (member "schema" (string "de.cap/1") (member "ver" (string "1") end))))

abbrev parse_advert : String → Option (Json ℤ)
parse_advert s = some advert

abbrev events : List (Event ℤ)
events =
    sets_capabilities ("advert" ∷ [])
    ∷ arrives reply
    ∷ arrives request
    ∷ publishes "camera" null false
    ∷ arrives reply
    ∷ []

-- One advert unasked, and one for the request.
two_adverts : adverts (run parse_advert events camera).sent ≡ 2
unfolding run adverts to_int32 is_valid_name
two_adverts = refl

run-IsCounted_example : IsCounted (requests events) camera (run parse_advert events camera)
run-IsCounted_example = run-IsCounted parse_advert events camera refl

camera_replied : (run parse_advert events camera).first_received ≡ true
unfolding run to_int32 is_valid_name
camera_replied = refl

camera_has_adverts : is_empty (run parse_advert events camera).capability_adverts ≡ false
unfolding run to_int32 is_valid_name
camera_has_adverts = refl

adverts-run_example :
    adverts (run parse_advert events camera).sent ≡ suc (requests events + adverts camera.sent)
unfolding lookup
adverts-run_example =
    adverts-run parse_advert events camera refl refl refl refl (tt, (refl, (tt, (tt, (refl, tt)))))
      camera_replied camera_has_adverts

abbrev clear_link : Link
clear_link = record { stopped = λ i. false; retry_stopped = λ i. false; sendto = λ i j. sent }

-- A printer of the one value that is sent.
abbrev print : Json ℤ → List ℕ
print j = b'R' ∷ b'Q' ∷ []

abbrev parse : List ℕ → Option (Json ℤ)
parse bytes = some request

abbrev messages : List (Outgoing ℤ)
messages = text request ∷ binary request (0 ∷ 7 ∷ []) ∷ []

abbrev reporter : Reporter ℤ
reporter = record {
  config = default_config;
  monitor = Monitor.init default_config;
  prev_proc_times = 0;
  prev_proc_ms = 0;
  have_prev_proc = false;
  last_cpu_report_ms = 0;
  clock_ticks_per_s = pos 100;
  board_id = "board";
}

abbrev second : ℕ → ℕ → Sample
second total now = record {
  cpu = some (record { total = total; idle_all = 0 });
  process = some 7;
  now_ms = now;
}

run-IsReported_example :
    IsReported default_config
      (Reported.run (second 100 1000 ∷ second 200 2000 ∷ []) [] reporter).0
      (Reported.run (second 100 1000 ∷ second 200 2000 ∷ []) [] reporter).1
unfolding Monitor.init
run-IsReported_example =
    run-IsReported default_config (second 100 1000 ∷ second 200 2000 ∷ []) [] reporter
      (record { configured = refl; current = refl; stamped = refl; spaced = tt })

-- A host on which no socket directory can be made.
abbrev host : Host
host = record {
  socket_dir_variable = "";
  makes_path = λ s. false;
  makes_dir = λ s. false;
  unix_socket_made = true;
  unix_socket_bound = false;
  udp_socket_made = true;
  udp_socket_bound = true;
  clock_ticks = pos 100;
  board_id = "board";
}

init-IsUp_example :
    (t : Module ℤ) × (init host not_initialized "LocalHost" (pos 0) true "" null (new (pos 5))
      ≡ some (new_reporter host null, t))
    × (is_running t.transport ≡ true)
    × (t.initialized ≡ true)
    × (id_field "z" t.json_id ≡ some (boolean true))
unfolding is_localhost lookup
init-IsUp_example =
    init-IsUp host "LocalHost" (pos 0) true "" null (new (pos 5)) refl refl (omega arith) refl
