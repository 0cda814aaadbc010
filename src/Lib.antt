-- ===== src/Lib.antt =====
-- DroneEngage common library: the databus between the modules of a drone's companion computer
-- and its communicator, the CPU load that the modules report, the capabilities that they
-- advertise, their configuration, the registry of cameras, and the observations and tracks of a
-- camera.
--
-- Parts. A module sends a message as a run of datagrams, each with a two-byte chunk number,
-- over UDP (de_databus/udpClient.cpp) or over a Unix datagram socket
-- (de_databus/unixDgramClient.cpp); the receiver puts the chunks together and calls the module.
-- A module advertises its actions and their parameters (de_databus/cap_schema.cpp); an invoke
-- is checked against the advert and given to a worker thread (de_databus/de_module.cpp). The
-- module registers with the communicator by its ID message, sends its adverts once it is
-- registered and whenever it is asked, and has a thread that reports the load of its board and
-- its own memory (de_databus/de_module_health.cpp). A module watches the load of its board
-- (de_databus/de_cpu_monitor.cpp), and the communicator merges the reports of all boards
-- (de_databus/de_cpu_aggregator.cpp). A module's configuration is a published file with local
-- overrides on top (de_databus/configFile.cpp). A perceiver sends what it sees in a frame
-- (helpers/obs.hpp), and the track manager gives it ids over time (helpers/track_manager.hpp).
--
-- Files.
-- - Common: names of the libraries, Boolean tests (Common/Tests), lists measured by native
--   numbers (Common/Lists), `std::map<std::string, V>` (Common/Assoc) with their keys in order
--   (Common/Order), integers (Common/Int), `double` as an interface (Common/Float), chains of
--   optional results (Common/Options), and `std::to_string` and the bytes of a text
--   (Common/Text).
-- - Json: the values of the JSON library, and what becomes of one that is written and parsed
--   again.
-- - Bus/Chunk: chunk_protocol.hpp. Bus/Udp and Bus/Unix: the states and operations of
--   `CUDPClient` and `CUnixDgramClient` (`init`, `start`, `stop`, `sendMSG` as `send_msg`, a
--   round of `InternalReceiverEntry` as `receive`). Bus/Link: what the system and other threads
--   do meanwhile. Bus/SignedChar: the UDP receiver where `char` is signed. Bus/Delivery,
--   Bus/Sources, Bus/Session, Bus/Overflow and Bus/Lifecycle hold the proofs.
-- - Cpu/Config: `deParseCpuMonitorConfig`. Cpu/Monitor: `CCpuMonitor`, with proofs in
--   Cpu/Hysteresis. Cpu/Aggregator and Cpu/Describe: `CCpuAggregator`, with proofs in
--   Cpu/Board, Cpu/Unit and Cpu/Naming.
-- - Cap/Outcome: errors. Cap/Schema: types and names. Cap/Check: `capCheckValue` and
--   `capCheckParams`. Cap/Validate and Cap/Advert: `capValidateParam`, `capValidateParamMap`,
--   `capValidateAdvert`. Cap/Action: `capFindAction`, `capCanonicalAction`,
--   `capMatchEventPattern`. Cap/Accepted, Cap/Limits and Cap/Names hold the proofs.
-- - Invoke/Handle: `handleCapabilityInvoke`, `cacheInvokeResult`, and the steps of
--   `runInvokeOnWorker`. Invoke/Cache, Invoke/Once, Invoke/Recent and Invoke/Race hold the
--   proofs.
-- - Module/Message: the messages and constants of the databus. Module/State: the members of
--   `CModule`, its senders and `createJSONID`. Module/Capabilities: `setCapabilities`,
--   `sendCapabilities`, `publishState`, `fireEvent`. Module/Receive: `onReceive`. Module/Init:
--   `init`, `uninit`, `isLocalhost` and `getUnixSocketBaseDir` (helpers/helpers.cpp).
--   Module/Report and Module/Heartbeat: `cpuReportTick` and `healthHeartbeatLoop`.
--   Module/Facade: de_databus/de_facade_base.cpp. Module/Adverts: runs of messages and calls.
--   Module/Sent, Module/Counts, Module/Unmoved, Module/Announced, Module/Delivery,
--   Module/Reported and Module/Started hold the proofs.
-- - Health/Monitor: `CModuleHealthMonitor`, with proofs in Health/Window.
-- - Sha/Words and Sha/Stream: helpers/sha256.hpp, with proofs in Sha/Padding and Sha/Blocks
--   against the description of FIPS 180 in Sha/Standard and Sha/Schedule: its constants are
--   computed as roots of primes, and its message schedule is given by its equations. Cap/Hash:
--   `capAdvertHash`.
-- - Config/File: `CConfigFile` (`initConfigFile`, `reloadFile`, `fileUpdated`, `updateJSON`,
--   `applyLocalOverrides`, `saveConfigFile`) and `removeComments` of helpers/helpers.cpp.
--   Config/Merge: `deepMerge`. Config/Layers: runs of calls, with the proof that overrides are
--   not saved. Config/Local: `CLocalConfigFile` of de_databus/localConfigFile.cpp
--   (`InitConfigFile` as `init_local`, `apply` as `apply_file`). Config/Changes: runs of
--   changes of its fields, with the proof of what is read back in Config/Restart.
-- - Camera/Entry and Camera/Registry: helpers/camera_registry.hpp (`CameraRegistryEntry`,
--   `CCameraRegistry`, and `cameraRegistryUpdateEntry` as `update_entry`), with the proof in
--   Camera/Loop, Camera/Fields, Camera/Written and Camera/Stored, on the order of keys in
--   Common/Order. Camera/Overlay: helpers/overlay_target.hpp.
-- - Obs and Obs/Wire: helpers/obs.hpp (`obsBuild` as `obs_build`, `obsParse` as `obs_parse`),
--   with the proof in Obs/Entry and Obs/Round.
-- - Track/Assign: `hungarian` of helpers/track_manager.hpp, with proofs in Track/Scan,
--   Track/Search, Track/Augment, Track/Columns and Track/Rows. Track/State: the structures and
--   the methods of `Track`. Track/Associate and Track/Manager: `TrackManager::update`, its
--   association first, with proofs in Track/Indices, Track/Matches, Track/Classes,
--   Track/Associated, Track/Ids, Track/Life, Track/Published, Track/Seen, Track/Frame and
--   Track/Update. Track/Calls: runs of calls. Track/Finite and Track/Ends: the numbers stay
--   finite, and every run ends.
-- - The modules named Tests apply the theorems to concrete values.
--
-- Conventions. A stateful class is a record, and an operation a function to the record after
-- it. A thread that runs between two lock regions is an explicit step: `send_msg` takes the
-- client as it is called and as it is locked, and a worker's `retire` and `answer` are two
-- operations. Bytes and unsigned numbers are natural numbers with their wrap-around written
-- out; `int` values are integers. Plain `char`, in which udpClient.cpp keeps the bytes it
-- receives, is unsigned in Bus/Udp, as it is on ARM, and signed in Bus/SignedChar, as it is on
-- x86; unixDgramClient.cpp does not depend on that. An exception of the JSON library is `none`
-- in Cap/Check, Cap/Action and Config/File, `thrown` in Cap/Validate, a flag in Invoke/Handle,
-- and `failed` in Module/Capabilities; `onReceive` catches it, so Module/Receive gives the
-- module as it was then. Objects are association lists in key order.
--
-- Bounds and fuel. The loop of `sendMSG` runs on the length of the message, since each round
-- takes a byte. `capCheckValue` runs on four levels and `capValidateParam` on five, which are
-- the limits of the code itself. The retries of the Unix client are the code's five. The first
-- `do` loop of `hungarian` runs on m + 1 rounds, since each marks one of the m + 1 columns, and
-- the second on m + 2, since the path to column 0 is no longer than the tree of marked columns;
-- a loop that does not end gives `none`, and Track/Rows and Track/Ends show that this does not
-- happen. The loops of sha256.hpp run over the bytes and over lists of words; the length in
-- bits wraps at 64 bits, as in the code. A track's counters and ids are natural numbers: the
-- model is that of the code for fewer than 2^31 frames in a row.
--
-- Not modelled. Sockets, files, threads and clocks are arguments; log lines, and the text of
-- descriptions beyond its parts, are left out. The JSON library is third-party code: its values
-- are data, and of its floating-point numbers nothing is assumed, but for the end of the
-- assignment, which rests on the laws named in Track/Scan: results do not overflow, so that
-- finite numbers give finite ones. The ID threads of the clients, the /proc parsers, the
-- message parser, the fields of view of a camera, and the other helpers (projection, options,
-- strings) are not part of the development.
pub mod Common
pub mod Json
pub mod Bus
pub mod Cpu
pub mod Camera
pub mod Cap
pub mod Invoke
pub mod Config
pub mod Health
pub mod Module
pub mod Obs
pub mod Sha
pub mod Track
