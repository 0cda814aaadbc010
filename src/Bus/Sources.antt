-- ===== src/Bus/Sources.antt =====
-- The receiver of unixDgramClient.cpp serves each source as the receiver of udpClient.cpp would.
use droneengage_common.Common.{
  ℕ, ◌+◌, ◌*◌, ◌%◌, ◌==◌, ◌≡◌, refl, subst, Option, none, some, String, str_eq, eq_iff, eq_refl,
  List, [], ◌∷◌, arith, if◌then◌else◌, true, false, Bool-cases, inl, inr,
}
use droneengage_common.Common.Assoc.{insert, lookup-insert}
use droneengage_common.Bus.Udp
use droneengage_common.Bus.Udp.{deliver, recvfrom}
use droneengage_common.Bus.Unix.{Sources, chunks_of, receive, receive_all, tag}

-- What arrives from one source, and what is delivered of it.
abbrev pub from {ℓ} : {A : Type ℓ} → String → List (String × A) → List A
from source [] = []
from source ((s, a) ∷ l) = if str_eq s source then a ∷ from source l else from source l

chunks_of-insert :
    (m : Sources) (k j : String) (v : List (List ℕ))
    → chunks_of (insert k v m) j ≡ (if str_eq k j then v else chunks_of m j)
unfolding chunks_of
chunks_of-insert m k j v = rw (lookup-insert k j v m, chunks_of) (ground arith)

module _ (m : Sources) (source other : String) where
  -- A datagram changes the chunks of its own source as the receiver of udpClient.cpp would, and
  -- delivers the same message.
  receive_self :
      (d : List ℕ)
      → (chunks_of (receive m source d).0 source ≡ (Udp.receive (chunks_of m source) d).0)
        × ((receive m source d).1 ≡ (Udp.receive (chunks_of m source) d).1)
  unfolding receive Udp.receive
  receive_self [] = (refl, refl)
  receive_self (b ∷ []) = (refl, refl)
  receive_self (b0 ∷ b1 ∷ payload) = elim (Bool-cases ((b1 * 256 + b0) % 65536 == 0)) [
    | inl e ↦ elim (Bool-cases ((b1 * 256 + b0) % 65536 == 0xFFFF)) [
      | inl f ↦ rw (e, f) (simp (chunks_of-insert, eq_refl), simp (chunks_of-insert, eq_refl))
      | inr f ↦ rw (e, f) (simp (chunks_of-insert, eq_refl), refl)
    ]
    | inr e ↦ elim (Bool-cases ((b1 * 256 + b0) % 65536 == 0xFFFF)) [
      | inl f ↦ rw (e, f) (simp (chunks_of-insert, eq_refl), refl)
      | inr f ↦ rw (e, f) (simp (chunks_of-insert, eq_refl), refl)
    ]
  ]

  -- It leaves the chunks of every other source alone.
  receive_other :
      (d : List ℕ)
      → str_eq source other ≡ false
      → chunks_of (receive m source d).0 other ≡ chunks_of m other
  unfolding receive
  receive_other [] h = refl
  receive_other (b ∷ []) h = refl
  receive_other (b0 ∷ b1 ∷ payload) h = elim (Bool-cases ((b1 * 256 + b0) % 65536 == 0)) [
    | inl e ↦ elim (Bool-cases ((b1 * 256 + b0) % 65536 == 0xFFFF)) [
      | inl f ↦ rw (e, f) (simp (chunks_of-insert, h))
      | inr f ↦ rw (e, f) (simp (chunks_of-insert, h))
    ]
    | inr e ↦ elim (Bool-cases ((b1 * 256 + b0) % 65536 == 0xFFFF)) [
      | inl f ↦ rw (e, f) (simp (chunks_of-insert, h))
      | inr f ↦ rw (e, f) (simp (chunks_of-insert, h))
    ]
  ]

receive_same :
    (m : Sources) (s source : String) (d : List ℕ)
    → str_eq s source ≡ true
    → (chunks_of (receive m s d).0 source ≡ (Udp.receive (chunks_of m source) d).0)
      × ((receive m s d).1 ≡ (Udp.receive (chunks_of m source) d).1)
receive_same m s source d e =
    subst
      (λ j.
        (chunks_of (receive m s d).0 j ≡ (Udp.receive (chunks_of m j) d).0)
        × ((receive m s d).1 ≡ (Udp.receive (chunks_of m j) d).1))
      ((eq_iff s source).0 e) (receive_self m s source d)

from-tag :
    (s source : String) (o : Option (List ℕ)) (l : List (String × List ℕ))
    → from source (tag s o l)
      ≡ (if str_eq s source then deliver o (from source l) else from source l)
from-tag s source none l = ground arith
from-tag s source (some msg) l = ground arith

-- However the datagrams of the sources are interleaved, each source's messages, and the chunks that
-- are left over for it, are what the receiver of udpClient.cpp makes of its datagrams alone.
pub from-receive_all :
    (m : Sources) (trace : List (String × List ℕ)) (source : String)
    → (chunks_of (receive_all m trace).0 source
        ≡ (Udp.receive_all (chunks_of m source) (from source trace)).0)
      × (from source (receive_all m trace).1
          ≡ (Udp.receive_all (chunks_of m source) (from source trace)).1)
unfolding receive_all Udp.receive_all
from-receive_all m [] source = (refl, refl)
from-receive_all m ((s, d) ∷ trace) source = elim (Bool-cases (str_eq s source)) [
  | inl e ↦
      let h = receive_same m s source (recvfrom d) e in
      let ih = from-receive_all (receive m s (recvfrom d)).0 trace source in
      let t =
        from-tag s source (receive m s (recvfrom d)).1
          (receive_all (receive m s (recvfrom d)).0 trace).1 in
      ground (arith, e, h, ih, t)
  | inr e ↦
      let h = receive_other m s source (recvfrom d) e in
      let ih = from-receive_all (receive m s (recvfrom d)).0 trace source in
      let t =
        from-tag s source (receive m s (recvfrom d)).1
          (receive_all (receive m s (recvfrom d)).0 trace).1 in
      ground (arith, e, h, ih, t)
]
