-- ===== src/Bus/Tests.antt =====
-- The theorems on the clients of the databus at concrete clients, links and messages.
use droneengage_common.Common.{
  some, flatten, ℕ, zero, suc, ◌*◌, ◌≡◌, refl, true, false, String, List, [], ◌∷◌, ◌++◌, arith,
  length, take,
}
use droneengage_common.Bus.Link.{Link, IsClear, sent}
use droneengage_common.Bus.Udp
use droneengage_common.Bus.Udp.{UdpClient}
use droneengage_common.Bus.Unix
use droneengage_common.Bus.Unix.{UnixClient}
use droneengage_common.Bus.Delivery.{IsReady, receive_all-send_msg}
use droneengage_common.Bus.Session.{
  IsReadyUnix, send_all, receive_all-send_all, from-receive_all-send_msg,
}
use droneengage_common.Bus.Sources.{from, from-receive_all}
use droneengage_common.Bus.Overflow.{long_message_is_cut}
use droneengage_common.Bus.SignedChar.{
  receive_signed, receive_all_signed, receive_all_signed-send_msg, signed_char_ends_message,
}
use droneengage_common.Bus.Lifecycle.{starts, run_udp, udp_silent_after_stop}

abbrev clear_link : Link
clear_link = record { stopped = λ i. false; retry_stopped = λ i. false; sendto = λ i j. sent }

clear_link-IsClear : IsClear clear_link
clear_link-IsClear = record { runs = λ i. refl; takes = λ i. refl }

-- A running client with chunks of two bytes.
abbrev client : UdpClient
client = record {
  chunk_size = 2;
  socket_open = true;
  addresses = true;
  started = true;
  stopped = false;
}

client-IsReady : IsReady client
client-IsReady = record {
  runs = refl;
  open_socket = refl;
  addressed = refl;
  some_room = omega arith;
  fits = omega arith;
}

abbrev broker_client : UnixClient
broker_client = record { chunk_size = 2; socket_open = true; started = true; stopped = false }

broker_client-IsReadyUnix : IsReadyUnix broker_client
broker_client-IsReadyUnix = record {
  runs = refl;
  open_socket = refl;
  some_room = omega arith;
  fits = omega arith;
}

-- Three bytes go as two datagrams and come back whole; a stale chunk is dropped.
receive_all-send_msg_example :
    Udp.receive_all ((9 ∷ []) ∷ []) (Udp.send_msg client client clear_link (1 ∷ 2 ∷ 3 ∷ []))
    ≡ ([], (1 ∷ 2 ∷ 3 ∷ 0 ∷ []) ∷ [])
receive_all-send_msg_example =
    receive_all-send_msg client clear_link ((9 ∷ []) ∷ []) (1 ∷ 2 ∷ 3 ∷ []) client-IsReady
      clear_link-IsClear (λ h. cc h) (omega arith)

receive_all-send_all_example :
    Udp.receive_all [] (send_all client clear_link ((1 ∷ 2 ∷ 3 ∷ []) ∷ (4 ∷ []) ∷ []))
    ≡ ([], (1 ∷ 2 ∷ 3 ∷ 0 ∷ []) ∷ (4 ∷ 0 ∷ []) ∷ [])
receive_all-send_all_example =
    receive_all-send_all client clear_link ((1 ∷ 2 ∷ 3 ∷ []) ∷ (4 ∷ []) ∷ []) client-IsReady
      clear_link-IsClear (((λ h. cc h), omega arith), (((λ h. cc h), omega arith), tt))

-- Two sources, whose datagrams alternate.
abbrev mixed : List (String × List ℕ)
mixed =
    ("a", 0 ∷ 0 ∷ 1 ∷ 2 ∷ [])
    ∷ ("b", 0 ∷ 0 ∷ 7 ∷ 8 ∷ [])
    ∷ ("a", 255 ∷ 255 ∷ 3 ∷ [])
    ∷ ("b", 255 ∷ 255 ∷ 9 ∷ [])
    ∷ []

from-receive_all_example :
    (Unix.chunks_of (Unix.receive_all [] mixed).0 "a"
      ≡ (Udp.receive_all (Unix.chunks_of [] "a") (from "a" mixed)).0)
    × (from "a" (Unix.receive_all [] mixed).1
        ≡ (Udp.receive_all (Unix.chunks_of [] "a") (from "a" mixed)).1)
from-receive_all_example = from-receive_all [] mixed "a"

sends_a : from "a" mixed ≡ Unix.send_msg broker_client broker_client clear_link (1 ∷ 2 ∷ 3 ∷ [])
unfolding Unix.send_msg
sends_a = refl

nothing_stored : Unix.chunks_of [] "a" ≡ []
unfolding Unix.chunks_of
nothing_stored = refl

from-receive_all-send_msg_example :
    from "a" (Unix.receive_all [] mixed).1 ≡ (1 ∷ 2 ∷ 3 ∷ 0 ∷ []) ∷ []
from-receive_all-send_msg_example =
    from-receive_all-send_msg broker_client clear_link [] mixed "a" (1 ∷ 2 ∷ 3 ∷ [])
      broker_client-IsReadyUnix clear_link-IsClear (λ h. cc h) (omega arith) nothing_stored sends_a

-- The one-byte chunks of a message of 65537 bytes.
abbrev narrow : UdpClient
narrow = record client { chunk_size = 1 }

narrow-IsReady : IsReady narrow
narrow-IsReady = record {
  runs = refl;
  open_socket = refl;
  addressed = refl;
  some_room = omega arith;
  fits = omega arith;
}

zeros : ℕ → List ℕ
zeros zero = []
zeros (suc n) = 0 ∷ zeros n

length-zeros : (n : ℕ) → length (zeros n) ≡ n
unfolding zeros
length-zeros zero = refl
length-zeros (suc n) = omega (arith, length-zeros n)

long_message_is_cut_example :
    (later : List (List ℕ)) × ((Udp.receive_all []
        (Udp.send_msg narrow narrow clear_link (zeros 65537))).1
      ≡ (take (65536 * 1) (zeros 65537) ++ 0 ∷ []) ∷ later)
long_message_is_cut_example =
    long_message_is_cut narrow clear_link [] (zeros 65537) narrow-IsReady clear_link-IsClear
      (omega (arith, length-zeros 65537))

udp_silent_after_stop_example :
    (Udp.send_msg
        (run_udp (Udp.stop client) [])
        (run_udp (Udp.stop client) (starts true true ∷ []))
        clear_link
        (1 ∷ [])
      ≡ [])
    × (Udp.send_msg client (run_udp (Udp.stop client) (starts true true ∷ [])) clear_link (1 ∷ [])
        ≡ [])
udp_silent_after_stop_example =
    udp_silent_after_stop client [] (starts true true ∷ []) clear_link (1 ∷ [])

receive_all_signed-send_msg_example :
    receive_all_signed [] (Udp.send_msg client client clear_link (1 ∷ 2 ∷ 3 ∷ []))
    ≡ Udp.receive_all [] (Udp.send_msg client client clear_link (1 ∷ 2 ∷ 3 ∷ []))
receive_all_signed-send_msg_example =
    receive_all_signed-send_msg client clear_link [] (1 ∷ 2 ∷ 3 ∷ []) client-IsReady
      clear_link-IsClear (omega arith)

-- Chunk 255 of a message that goes on.
signed_char_ends_message_example :
    receive_signed ((9 ∷ []) ∷ []) (Udp.datagram 2 (1 ∷ 2 ∷ 3 ∷ []) 255)
    ≡ ([], some (flatten (((9 ∷ []) ∷ []) ++ (1 ∷ 2 ∷ []) ∷ []) ++ 0 ∷ []))
signed_char_ends_message_example =
    signed_char_ends_message ((9 ∷ []) ∷ []) 2 (1 ∷ 2 ∷ 3 ∷ []) 255 refl refl
