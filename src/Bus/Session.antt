-- ===== src/Bus/Session.antt =====
-- Several messages over one link, and the way from a sender of unixDgramClient.cpp to the callback.
use droneengage_common.Common.{
  ℕ, zero, suc, ◌+◌, ◌*◌, ◌/◌, ◌%◌, ◌≤◌, ◌<◌, ◌≡◌, ◌≢◌, refl, Option, none, some, ap, ◌∙◌, String,
  List, [], ◌∷◌, ◌++◌, map, arith, length, drop, length-ne_zero, Bool, true, false, ◌==◌, All,
  if◌then◌else◌, leb,
}
use droneengage_common.Bus.Chunk.{prepare_chunk_header}
use droneengage_common.Bus.Link.{Link, IsClear}
use droneengage_common.Bus.Udp
use droneengage_common.Bus.Udp.{UdpClient, chunk_header, is_empty, deliver, max_line}
use droneengage_common.Bus.Unix
use droneengage_common.Bus.Unix.{UnixClient, Sources, chunks_of}
use droneengage_common.Bus.Delivery.{IsReady, receive_all-send_msg, receive-send_loop_first}
use droneengage_common.Bus.Sources.{from, from-receive_all}

deliver-append :
    (o : Option (List ℕ)) (xs ys : List (List ℕ)) → deliver o (xs ++ ys) ≡ deliver o xs ++ ys
deliver-append none xs ys = refl
deliver-append (some m) xs ys = refl

receive_all-append :
    (s : List (List ℕ)) (xs ys : List (List ℕ))
    → Udp.receive_all s (xs ++ ys) ≡ (
      (Udp.receive_all (Udp.receive_all s xs).0 ys).0,
      (Udp.receive_all s xs).1 ++ (Udp.receive_all (Udp.receive_all s xs).0 ys).1,
    )
unfolding Udp.receive_all
receive_all-append s [] ys = refl
receive_all-append s (d ∷ xs) ys =
    let (kept, message) = Udp.receive s (Udp.recvfrom d) in
    rw (receive_all-append kept xs ys) (
      ap (λ m. ((Udp.receive_all (Udp.receive_all kept xs).0 ys).0, m))
        (deliver-append message _ _))

-- The datagrams of the messages, sent one after the other.
pub send_all : UdpClient → Link → List (List ℕ) → List (List ℕ)
send_all c link [] = []
send_all c link (msg ∷ msgs) = Udp.send_msg c c link msg ++ send_all c link msgs

abbrev pub IsSendable : UdpClient → List ℕ → Type 0
IsSendable c msg = (msg ≢ []) × (length msg ≤ 65536 * c.chunk_size)

-- Messages that a ready client sends one after the other over a clear link, none of them empty and each of at most
-- 65536 chunks, reach a receiver that has stored nothing, each once, in order and unchanged, with a zero byte behind it.
pub receive_all-send_all :
    (c : UdpClient) (link : Link) (msgs : List (List ℕ))
    → IsReady c
    → IsClear link
    → All (IsSendable c) msgs
    → Udp.receive_all [] (send_all c link msgs) ≡ ([], map (λ msg. msg ++ 0 ∷ []) msgs)
unfolding send_all
receive_all-send_all c link [] ready clear ok = unfold Udp.receive_all in refl
receive_all-send_all c link (msg ∷ msgs) ready clear ok = rw (
  receive_all-append [] (Udp.send_msg c c link msg) (send_all c link msgs),
  one,
  receive_all-send_all c link msgs ready clear ok.1,
)
  where
    prefix : (b : Bool) → (if b then [] else []) ++ (msg ++ 0 ∷ []) ≡ msg ++ 0 ∷ []
    prefix true = refl
    prefix false = refl

    one : Udp.receive_all [] (Udp.send_msg c c link msg) ≡ ([], (msg ++ 0 ∷ []) ∷ [])
    one =
        receive_all-send_msg c link [] msg ready clear ok.0.0 ok.0.1
        ∙ ap (λ m. ([], m ∷ [])) (prefix (leb (length msg) c.chunk_size))

header-eq-udp : (n : ℕ) (last : Bool) → prepare_chunk_header (n % 65536) last ≡ chunk_header n last
unfolding prepare_chunk_header chunk_header
header-eq-udp n true = refl
header-eq-udp n false = ground (arith, low, high)
  where
    low : n % 65536 % 256 ≡ n % 256
    low = omega arith

    high : n % 65536 / 256 % 256 ≡ n / 256 % 256
    high = omega arith

send_loop-eq-udp :
    (link : Link) (clear : IsClear link) (size fuel : ℕ) (rest : List ℕ) (n : ℕ)
    → Unix.send_loop fuel link size rest n ≡ Udp.send_loop fuel link size rest n
unfolding Unix.send_loop Udp.send_loop Unix.send_chunk Unix.datagram Udp.datagram
send_loop-eq-udp link clear size zero [] n = refl
send_loop-eq-udp link clear size zero (b ∷ bs) n = refl
send_loop-eq-udp link clear size (suc fuel) [] n = refl
send_loop-eq-udp link clear size (suc fuel) (b ∷ bs) n = ground (
  arith,
  clear.runs n,
  clear.takes n,
  header-eq-udp n (is_empty (drop size (b ∷ bs))),
  send_loop-eq-udp link clear size fuel (drop size (b ∷ bs)) (n + 1),
)

pub record IsReadyUnix (c : UnixClient) : Type 0 where
  pub runs : c.stopped ≡ false
  pub open_socket : c.socket_open ≡ true
  pub some_room : 0 < c.chunk_size
  pub fits : c.chunk_size + 2 ≤ max_line

send_msg-eq-udp :
    (c : UnixClient) (link : Link) (msg : List ℕ)
    → IsReadyUnix c
    → IsClear link
    → Unix.send_msg c c link msg ≡ Udp.send_loop (length msg) link c.chunk_size msg 0
unfolding Unix.send_msg
send_msg-eq-udp c link msg ready clear =
    rw (ready.runs, positive, ready.open_socket)
      (send_loop-eq-udp link clear c.chunk_size (length msg) msg 0)
  where
    positive : (c.chunk_size == 0) ≡ false
    positive = ground (arith, ready.some_room)

-- A ready client of the broker's socket sends a message of at most 65536 chunks, and not empty, over a clear link.
-- If its datagrams arrive in order, mixed in any way with those of other sources, and nothing is
-- stored for it, the message reaches the callback once, whole, with a zero byte behind it.
pub from-receive_all-send_msg :
    (c : UnixClient) (link : Link) (m : Sources) (trace : List (String × List ℕ)) (source : String)
    (msg : List ℕ)
    → IsReadyUnix c
    → IsClear link
    → msg ≢ []
    → length msg ≤ 65536 * c.chunk_size
    → chunks_of m source ≡ []
    → from source trace ≡ Unix.send_msg c c link msg
    → from source (Unix.receive_all m trace).1 ≡ (msg ++ 0 ∷ []) ∷ []
from-receive_all-send_msg c link m trace source msg ready clear some_text room fresh sends =
    (from-receive_all m trace source).1
    ∙ rw
        (
          fresh,
          sends,
          send_msg-eq-udp c link msg ready clear,
          receive-send_loop_first link clear c.chunk_size ready.some_room ready.fits (length msg) []
              msg (omega arith) (length-ne_zero msg some_text) room,
        )
        (prefix (leb (length msg) c.chunk_size))
  where
    prefix : (b : Bool) → ((if b then [] else []) ++ (msg ++ 0 ∷ [])) ∷ [] ≡ (msg ++ 0 ∷ []) ∷ []
    prefix true = refl
    prefix false = refl
