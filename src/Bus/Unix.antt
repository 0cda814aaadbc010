-- ===== src/Bus/Unix.antt =====
-- de_databus/unixDgramClient.cpp: `CUnixDgramClient`. The creation of the socket's directory and the
-- removal of its file are left out: they change no state that the client reads.
use droneengage_common.Common.{
  ℕ, zero, suc, ◌+◌, ◌%◌, Bool, true, false, not, ◌||◌, Option, none, some, String, List, [], ◌∷◌,
  ◌++◌, ◌==◌, if◌then◌else◌, length, take, drop,
}
use droneengage_common.Common.Assoc.{Assoc, lookup, insert}
use droneengage_common.Bus.Chunk.{
  prepare_chunk_header, parse_chunk_number, is_end_chunk, reassemble_chunks,
}
use droneengage_common.Bus.Link.{Link, Sent, sent, enoent, failed}
use droneengage_common.Bus.Udp.{is_empty, recvfrom}

pub record UnixClient : Type 0 where
  pub chunk_size : ℕ
  pub socket_open : Bool
  pub started : Bool
  pub stopped : Bool

-- A client that was constructed.
abbrev pub new_client : UnixClient
new_client = record { chunk_size = 0; socket_open = false; started = false; stopped = false }

-- `none` is `exit(EXIT_FAILURE)`. A chunk size of zero or less is 0. A client that was stopped stays stopped.
unfoldable pub init : ℕ → UnixClient → Option UnixClient
init chunk_size c = if chunk_size == 0 then none else some (record c { chunk_size = chunk_size })

-- Without a socket, or a name for it, the client stays as it was.
unfoldable pub start : (socket_made socket_bound : Bool) → UnixClient → UnixClient
start socket_made socket_bound c =
    if not socket_made
    then record c { socket_open = false }
    else if not socket_bound
    then record c { socket_open = false }
    else record c { socket_open = true; started = true }

-- A client that is not started is left alone.
unfoldable pub stop : UnixClient → UnixClient
stop c =
    if not c.started then c else record c { socket_open = false; started = false; stopped = true }

-- The `for` loop after ENOENT, with the rounds left and the round: at most five more attempts.
unfoldable pub retry : ℕ → ℕ → Link → Sent
retry zero i link = enoent
retry (suc rounds) i link = elim (link.retry_stopped i) [
  | true ↦ enoent
  | false ↦ elim (link.sendto 0 (i + 1)) [ sent ↦ sent | _ ↦ retry rounds (i + 1) link ]
]

-- A chunk's `sendto`: only the first chunk is tried again, and only after ENOENT.
unfoldable pub send_chunk : Link → ℕ → Sent
unfolding retry
send_chunk link n = elim (link.sendto n 0) [
  | sent ↦ sent
  | enoent ↦ if n == 0 then retry 5 0 link else enoent
  | failed ↦ failed
]

-- The chunk's number is converted to `uint16_t` for the header.
unfoldable pub datagram : ℕ → List ℕ → ℕ → List ℕ
unfolding prepare_chunk_header
datagram size rest n =
    prepare_chunk_header (n % 65536) (is_empty (drop size rest)) ++ take size rest

unfoldable pub send_loop : ℕ → Link → ℕ → List ℕ → ℕ → List (List ℕ)
unfolding datagram send_chunk
send_loop fuel link size [] n = []
send_loop zero link size (b ∷ bs) n = []
send_loop (suc fuel) link size (b ∷ bs) n = elim (link.stopped n) [
  | true ↦ []
  | false ↦ elim (send_chunk link n) [
    | sent ↦ datagram size (b ∷ bs) n ∷ send_loop fuel link size (drop size (b ∷ bs)) (n + 1)
    | _ ↦ []
  ]
]

-- `c` is the client when it is called, and `locked` what it has become when the lock is taken.
unfoldable pub send_msg : UnixClient → UnixClient → Link → List ℕ → List (List ℕ)
unfolding send_loop
send_msg c locked link msg =
    if c.stopped
    then []
    else if c.chunk_size == 0
    then []
    else if locked.stopped || not locked.socket_open
    then []
    else send_loop (length msg) link c.chunk_size msg 0

-- `receivedChunksBySource`, and what `operator[]` reads there.
abbrev pub Sources : Type 0
Sources = Assoc (List (List ℕ))

unfoldable pub chunks_of : Sources → String → List (List ℕ)
unfolding lookup
chunks_of m source = elim (lookup source m) [ none ↦ [] | some chunks ↦ chunks ]

-- A round of `InternalReceiverEntry` on a datagram from a source.
unfoldable pub receive : Sources → String → List ℕ → Sources × Option (List ℕ)
unfolding parse_chunk_number is_end_chunk reassemble_chunks
receive m source [] = (m, none)
receive m source (b ∷ []) = (m, none)
receive m source (b0 ∷ b1 ∷ payload) =
    let number = parse_chunk_number b0 b1 in
    let cleared = if number == 0 then insert source [] m else m in
    let chunks = chunks_of cleared source ++ payload ∷ [] in
    let stored = insert source chunks cleared in
    if is_end_chunk number
    then (insert source [] stored, some (reassemble_chunks chunks ++ 0 ∷ []))
    else (stored, none)

abbrev pub tag : String → Option (List ℕ) → List (String × List ℕ) → List (String × List ℕ)
tag source none later = later
tag source (some msg) later = (source, msg) ∷ later

-- The receiver over a run of datagrams. Each message is listed with its source, which the callback
-- is not told.
unfoldable pub receive_all : Sources → List (String × List ℕ) → Sources × List (String × List ℕ)
unfolding receive recvfrom
receive_all m [] = (m, [])
receive_all m ((source, d) ∷ ds) =
    let (kept, message) = receive m source (recvfrom d) in
    let (left, messages) = receive_all kept ds in (left, tag source message messages)
