-- ===== src/Bus/Lifecycle.antt =====
-- Start, stop and the guards of `sendMSG`, for both clients.
use droneengage_common.Common.{ℕ, ◌≡◌, refl, Bool, true, List, [], ◌∷◌, arith}
use droneengage_common.Bus.Link.{Link}
use droneengage_common.Bus.Udp
use droneengage_common.Bus.Udp.{UdpClient}
use droneengage_common.Bus.Unix
use droneengage_common.Bus.Unix.{UnixClient}

-- What other threads may do to a client, with what the system answers.
pub data Event : Type 0 where
  starts : (socket_made socket_bound : Bool) → Event
  stops : Event

unfoldable pub run_udp : UdpClient → List Event → UdpClient
unfolding Udp.start Udp.stop
run_udp c [] = c
run_udp c (starts made bound ∷ es) = run_udp (Udp.start c) es
run_udp c (stops ∷ es) = run_udp (Udp.stop c) es

unfoldable pub run_unix : UnixClient → List Event → UnixClient
unfolding Unix.start Unix.stop
run_unix c [] = c
run_unix c (starts made bound ∷ es) = run_unix (Unix.start made bound c) es
run_unix c (stops ∷ es) = run_unix (Unix.stop c) es

stays_stopped_udp :
    (c : UdpClient) (es : List Event) → c.stopped ≡ true → (run_udp c es).stopped ≡ true
unfolding run_udp
stays_stopped_udp c [] h = h
stays_stopped_udp c (starts made bound ∷ es) h = stays_stopped_udp (Udp.start c) es (ground arith)
stays_stopped_udp c (stops ∷ es) h = stays_stopped_udp (Udp.stop c) es (ground arith)

stays_stopped_unix :
    (c : UnixClient) (es : List Event) → c.stopped ≡ true → (run_unix c es).stopped ≡ true
unfolding run_unix
stays_stopped_unix c [] h = h
stays_stopped_unix c (starts made bound ∷ es) h =
    stays_stopped_unix (Unix.start made bound c) es (ground arith)
stays_stopped_unix c (stops ∷ es) h = stays_stopped_unix (Unix.stop c) es (ground arith)

-- Once a client of UDP has been stopped it sends nothing more: neither when the stop, and whatever
-- starts and stops follow, come before the call, nor when they come between the call and its lock.
pub udp_silent_after_stop :
    (c : UdpClient) (before after : List Event) (link : Link) (msg : List ℕ)
    → (Udp.send_msg (run_udp (Udp.stop c) before) (run_udp (Udp.stop c) after) link msg ≡ [])
      × (Udp.send_msg c (run_udp (Udp.stop c) after) link msg ≡ [])
unfolding Udp.send_msg
udp_silent_after_stop c before after link msg = (
  ground (arith, stays_stopped_udp (Udp.stop c) before (unfold Udp.stop in refl)),
  ground (arith, stays_stopped_udp (Udp.stop c) after (unfold Udp.stop in refl)),
)

-- A client of the broker's socket that is started, and is then stopped, sends nothing more, in the
-- same two cases.
pub unix_silent_after_stop :
    (c : UnixClient) (before after : List Event) (link : Link) (msg : List ℕ)
    → c.started ≡ true
    → (Unix.send_msg (run_unix (Unix.stop c) before) (run_unix (Unix.stop c) after) link msg ≡ [])
      × (Unix.send_msg c (run_unix (Unix.stop c) after) link msg ≡ [])
unfolding Unix.send_msg
unix_silent_after_stop c before after link msg h = (
  ground (arith, stays_stopped_unix (Unix.stop c) before stopped),
  ground (arith, stays_stopped_unix (Unix.stop c) after stopped),
)
  where
    stopped : (Unix.stop c).stopped ≡ true
    stopped = unfold Unix.stop in ground arith
