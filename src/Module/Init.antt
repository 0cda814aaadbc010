-- ===== src/Module/Init.antt =====
-- `init` and `uninit` of de_databus/de_module.cpp, `isLocalhost` and `getUnixSocketBaseDir` of helpers/helpers.cpp. What
-- the operating system answers is given.
use Prim.Native.Char.{code}
use Prim.Native.String.{◌++◌ as str_append}
use droneengage_common.Common.{
  ℕ, zero, suc, ◌+◌, Bool, true, false, not, ◌&&◌, ◌||◌, Option, none, some, String, str_eq, List,
  [], ◌∷◌, map, ◌==◌, leb, ltb, if◌then◌else◌, length,
}
use droneengage_common.Common.Int.{ℤ, pos, negsuc, leb_ℤ}
use droneengage_common.Common.Float.{FloatOps}
use droneengage_common.Common.Text.{bytes}
use droneengage_common.Json.{Json}
use droneengage_common.Bus.Udp
use droneengage_common.Bus.Udp.{UdpClient}
use droneengage_common.Bus.Unix
use droneengage_common.Bus.Unix.{UnixClient}
use droneengage_common.Cpu.Config.{parse_config}
use droneengage_common.Cpu.Monitor
use droneengage_common.Module.State.{Module, Transport, unset, over_udp, over_unix, create_json_id}
use droneengage_common.Module.Report.{Reporter}

abbrev default_udp_databus_packet_size : ℕ
default_udp_databus_packet_size = 8192

abbrev safe_remote_udp_payload : ℕ
safe_remote_udp_payload = 1472

-- `sizeof(sun_path)`
abbrev sun_path_size : ℕ
sun_path_size = 108

-- `str_tolower`, in the "C" locale.
abbrev lower : ℕ → ℕ
lower c = if leb 65 c && leb c 90 then c + 32 else c

unfoldable pub is_spelled : List ℕ → String → Bool
is_spelled [] String.[] = true
is_spelled [] (String.◌∷◌ d s) = false
is_spelled (c ∷ cs) String.[] = false
is_spelled (c ∷ cs) (String.◌∷◌ d s) = (c == code d) && is_spelled cs s

unfoldable pub is_localhost : String → Bool
unfolding is_spelled bytes
is_localhost ip =
    let ip_lower = map lower (bytes ip) in
    is_spelled ip_lower "127.0.0.1"
    || (is_spelled ip_lower "::1" || is_spelled ip_lower "localhost")

-- What the operating system answers to `init`.
pub record Host : Type 0 where
  -- the variable DE_UNIX_SOCKET_DIR, or the empty text
  pub socket_dir_variable : String
  -- `ensureDirPath`
  pub makes_path : String → Bool
  -- `ensureDirExists`
  pub makes_dir : String → Bool
  pub unix_socket_made : Bool
  pub unix_socket_bound : Bool
  pub udp_socket_made : Bool
  pub udp_socket_bound : Bool
  -- `sysconf(_SC_CLK_TCK)`
  pub clock_ticks : ℤ
  pub board_id : String

-- The trailing slashes are taken off, but not a text's first character.
unfoldable pub strip_end : String → String
strip_end String.[] = ""
strip_end (String.◌∷◌ c s) =
    let rest = strip_end s in if code c == b'/' && str_eq rest "" then "" else String.◌∷◌ c rest

unfoldable pub strip_slashes : String → String
unfolding strip_end
strip_slashes String.[] = ""
strip_slashes (String.◌∷◌ c s) = String.◌∷◌ c (strip_end s)

unfoldable pub get_unix_socket_base_dir : Host → String → String
unfolding strip_slashes
get_unix_socket_base_dir host configured =
    let dir = if str_eq configured "" then host.socket_dir_variable else configured in
    if not (str_eq dir "")
    then (if host.makes_path (strip_slashes dir) then strip_slashes dir else "")
    else if host.makes_dir "/run/de_comm"
    then "/run/de_comm"
    else if host.makes_dir "/tmp/de_comm"
    then "/tmp/de_comm"
    else "/run/de_comm"

abbrev pub chunk_size_for : ℤ → String → ℕ
chunk_size_for (negsuc n) target =
    if is_localhost target then default_udp_databus_packet_size else safe_remote_udp_payload
chunk_size_for (pos zero) target =
    if is_localhost target then default_udp_databus_packet_size else safe_remote_udp_payload
chunk_size_for (pos (suc n)) target = suc n

-- The members of `CModule` that an earlier `init` and `uninit` left: its clients, and whether its health thread runs.
pub record Held : Type 0 where
  pub udp : UdpClient
  pub unix : UnixClient
  pub health_running : Bool

-- The members of a module that was constructed.
abbrev pub not_initialized : Held
not_initialized = record { udp = Udp.new_client; unix = Unix.new_client; health_running = false }

-- Both socket paths fit.
unfoldable pub paths_fit : String → String → String → Bool
unfolding bytes
paths_fit dir id key =
    ltb (length (bytes (str_append dir "/de_comm_broker.sock"))) sun_path_size
    && ltb
        (length (
          bytes (
            str_append dir
              (str_append "/de_comm_" (str_append id (str_append "_" (str_append key ".sock")))))))
        sun_path_size

-- The client of the broker's socket: `none` is the end of the process, `some none` the way back to UDP.
unfoldable pub start_unix : Host → Option UnixClient → Option (Option UnixClient)
unfolding Unix.start
start_unix host none = none
start_unix host (some c) =
    let t = Unix.start host.unix_socket_made host.unix_socket_bound c in
    some (if t.started then some t else none)

unfoldable pub try_unix : Host → ℕ → UnixClient → Option (Option UnixClient)
unfolding Unix.init start_unix
try_unix host size c = start_unix host (Unix.init size c)

unfoldable pub start_udp : Option UdpClient → Option Transport
unfolding Udp.start
start_udp none = none
start_udp (some c) = some (over_udp (Udp.start c))

unfoldable pub use_udp : Host → ℕ → UdpClient → Option Transport
unfolding Udp.init start_udp
use_udp host size c = start_udp (Udp.init host.udp_socket_made host.udp_socket_bound size c)

unfoldable pub after_unix : Option (Option UnixClient) → Host → ℕ → UdpClient → Option Transport
unfolding use_udp
after_unix none host size udp = none
after_unix (some none) host size udp = use_udp host size udp
after_unix (some (some c)) host size udp = some (over_unix c)

-- The transport: `none` is the end of the process.
unfoldable pub choose_transport :
    Host
    → Held
    → (target : String) → ℕ
    → (use_unix : Bool) → (dir id key : String) → Option Transport
unfolding is_localhost get_unix_socket_base_dir paths_fit try_unix after_unix
choose_transport host held target size use_unix dir id key =
    let base = get_unix_socket_base_dir host dir in
    if use_unix && is_localhost target && not (str_eq base "") && paths_fit base id key
    then after_unix (try_unix host size held.unix) host size held.udp
    else use_udp host size held.udp

-- `uninit` stops the client in use.
unfoldable pub stop_transport : Transport → Transport
unfolding Udp.stop Unix.stop
stop_transport unset = unset
stop_transport (over_udp c) = over_udp (Udp.stop c)
stop_transport (over_unix c) = over_unix (Unix.stop c)

module _ {F : Type 0} ⦃o : FloatOps F⦄ where
  unfoldable pub new_reporter : Host → Json F → Reporter F
  unfolding parse_config Monitor.init
  new_reporter host config = record {
    config = parse_config config;
    monitor = Monitor.init (parse_config config);
    prev_proc_times = 0;
    prev_proc_ms = 0;
    have_prev_proc = false;
    last_cpu_report_ms = 0;
    clock_ticks_per_s = if leb_ℤ host.clock_ticks (pos 0) then pos 100 else host.clock_ticks;
    board_id = host.board_id;
  }

  -- The module with its transport, and the members of its health thread.
  unfoldable pub with_transport :
      Option Transport → Host → Json F → Module F → Option (Reporter F × Module F)
  unfolding new_reporter create_json_id
  with_transport none host config m = none
  with_transport (some t) host config m = some (
    new_reporter host config,
    record (create_json_id true (record m { transport = t })) { initialized = true },
  )

  -- `std::terminate` ends the process where the health thread of an earlier `init` still runs.
  unfoldable pub init :
      Host
      → Held
      → (target : String) → (chunk_size : ℤ) → (use_unix : Bool) → (dir : String)
      → (config : Json F) → Module F
      → Option (Reporter F × Module F)
  unfolding choose_transport with_transport
  init host held target chunk_size use_unix dir config m =
      if held.health_running
      then none
      else with_transport
          (choose_transport host held target (chunk_size_for chunk_size target) use_unix dir
            m.module_id m.module_key)
          host config m

  unfoldable pub uninit : Module F → Module F
  unfolding stop_transport
  uninit m = record m { transport = stop_transport m.transport }
