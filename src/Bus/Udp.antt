-- ===== src/Bus/Udp.antt =====
-- de_databus/udpClient.cpp: `CUDPClient`. The socket, its addresses and the threads are the flags
-- that the code tests; a datagram and a message are byte lists.
use droneengage_common.Common.{
  ℕ, zero, suc, ◌+◌, ◌*◌, ◌/◌, ◌%◌, Bool, true, false, not, ◌||◌, Option, none, some, List, [], ◌∷◌,
  ◌++◌, leb, ◌==◌, if◌then◌else◌, length, take, drop, flatten,
}
use droneengage_common.Bus.Link.{Link, sent}

abbrev pub max_udp_databus_packet_size : ℕ
max_udp_databus_packet_size = 0xffff

pub record UdpClient : Type 0 where
  pub chunk_size : ℕ
  pub socket_open : Bool
  pub addresses : Bool
  pub started : Bool
  pub stopped : Bool

-- A client that was constructed.
abbrev pub new_client : UdpClient
new_client = record {
  chunk_size = 0;
  socket_open = false;
  addresses = false;
  started = false;
  stopped = false;
}

-- `none` is `exit(EXIT_FAILURE)`. A chunk size of zero or less is 0. What the client was is kept but for its socket: one
-- that was stopped stays stopped.
unfoldable pub init : (socket_made socket_bound : Bool) → ℕ → UdpClient → Option UdpClient
init socket_made socket_bound chunk_size c =
    if leb max_udp_databus_packet_size chunk_size
    then none
    else if chunk_size == 0
    then none
    else if not socket_made
    then none
    else if not socket_bound
    then none
    else some (record c { chunk_size = chunk_size; socket_open = true; addresses = true })

-- A second start throws, and the exception is caught and logged.
unfoldable pub start : UdpClient → UdpClient
start c = if c.started then c else record c { started = true }

-- The joins of the two threads have ended when it returns.
unfoldable pub stop : UdpClient → UdpClient
stop c = record c { socket_open = false; addresses = false; started = false; stopped = true }

-- The header that `sendMSG` writes in line.
unfoldable pub chunk_header : ℕ → Bool → List ℕ
chunk_header n true = 0xFF ∷ 0xFF ∷ []
chunk_header n false = (n % 256) ∷ (n / 256 % 256) ∷ []

abbrev pub is_empty {ℓ} : {A : Type ℓ} → List A → Bool
is_empty [] = true
is_empty (x ∷ xs) = false

-- The datagram of the round that starts at `rest`.
unfoldable pub datagram : ℕ → List ℕ → ℕ → List ℕ
unfolding chunk_header
datagram size rest n = chunk_header n (is_empty (drop size rest)) ++ take size rest

-- The `while` loop of `sendMSG`, with the datagrams that the kernel took. `rest` is `msg + offset`
-- up to the message's end. Each round takes a byte at least, so `length rest` rounds are enough.
unfoldable pub send_loop : ℕ → Link → ℕ → List ℕ → ℕ → List (List ℕ)
unfolding datagram
send_loop fuel link size [] n = []
send_loop zero link size (b ∷ bs) n = []
send_loop (suc fuel) link size (b ∷ bs) n = elim (link.stopped n) [
  | true ↦ []
  | false ↦ elim (link.sendto n 0) [
    | sent ↦ datagram size (b ∷ bs) n ∷ send_loop fuel link size (drop size (b ∷ bs)) (n + 1)
    | _ ↦ []
  ]
]

-- `c` is the client when it is called, and `locked` what it has become when the lock is taken.
unfoldable pub send_msg : UdpClient → UdpClient → Link → List ℕ → List (List ℕ)
unfolding send_loop
send_msg c locked link msg =
    if c.stopped
    then []
    else if c.chunk_size == 0
    then []
    else if locked.stopped || (not locked.socket_open || not locked.addresses)
    then []
    else send_loop (length msg) link c.chunk_size msg 0

-- `recvfrom` into a buffer of MAXLINE bytes: the rest of a longer datagram is lost.
abbrev pub max_line : ℕ
max_line = 65507

unfoldable pub recvfrom : List ℕ → List ℕ
recvfrom d = take max_line d

-- A round of `InternalReceiverEntry` on a datagram: the stored chunks, and what the callback gets.
-- The buffer's `char` is unsigned, as it is on ARM.
-- The empty datagram stands for `n <= 0`: a timeout, or an error.
unfoldable pub receive : List (List ℕ) → List ℕ → List (List ℕ) × Option (List ℕ)
receive chunks [] = (chunks, none)
receive chunks (b ∷ []) = (chunks, none)
receive chunks (b0 ∷ b1 ∷ payload) =
    let number = (b1 * 256 + b0) % 65536 in
    let stored = (if number == 0 then [] else chunks) ++ payload ∷ [] in
    if number == 0xFFFF then ([], some (flatten stored ++ 0 ∷ [])) else (stored, none)

abbrev pub deliver : Option (List ℕ) → List (List ℕ) → List (List ℕ)
deliver none later = later
deliver (some msg) later = msg ∷ later

-- The receiver over a run of datagrams: the chunks left over, and the messages in order.
unfoldable pub receive_all : List (List ℕ) → List (List ℕ) → List (List ℕ) × List (List ℕ)
unfolding receive recvfrom
receive_all chunks [] = (chunks, [])
receive_all chunks (d ∷ ds) =
    let (kept, message) = receive chunks (recvfrom d) in
    let (left, messages) = receive_all kept ds in (left, deliver message messages)
