-- ===== src/Bus/Delivery.antt =====
-- What the receiver of udpClient.cpp makes of the datagrams that `sendMSG` sends.
use droneengage_common.Common.{
  ℕ, zero, suc, ◌+◌, ◌*◌, ◌/◌, ◌%◌, ◌≤◌, ◌<◌, ◌≡◌, ◌≢◌, refl, sym, ap, ◌∙◌, inl, inr, Bool, true,
  false, none, some, List, [], ◌∷◌, ◌++◌, append_assoc, append-nil, arith, ◌==◌, leb, if◌then◌else◌,
  length, take, drop, flatten, Bool-cases, flatten-snoc, take-append-drop, take-eq_of_le,
  length-take-le, length-drop, length-ne_zero, lt_of_mul_lt,
}
use droneengage_common.Bus.Link.{Link, IsClear}
use droneengage_common.Bus.Udp.{
  UdpClient, chunk_header, is_empty, datagram, send_loop, send_msg, max_line, recvfrom, receive,
  receive_all,
}

pub recvfrom-datagram :
    (size : ℕ) (rest : List ℕ) (n : ℕ)
    → size + 2 ≤ max_line
    → recvfrom (datagram size rest n) ≡ datagram size rest n
unfolding recvfrom datagram
recvfrom-datagram size rest n h =
    take-eq_of_le max_line (datagram size rest n) (bound (is_empty (drop size rest)))
  where
    bound : (b : Bool) → length (chunk_header n b ++ take size rest) ≤ max_line
    bound true = omega (arith, length-take-le size rest)
    bound false = omega (arith, length-take-le size rest)

-- The last datagram ends the message, whatever was stored.
receive_last :
    (stored : List (List ℕ)) (size : ℕ) (rest : List ℕ) (n : ℕ)
    → is_empty (drop size rest) ≡ true
    → receive stored (datagram size rest n)
      ≡ ([], some (flatten (stored ++ take size rest ∷ []) ++ 0 ∷ []))
unfolding receive datagram
receive_last stored size rest n h = rw h

-- Any other is stored, and the first of a message drops what was stored before.
receive_more :
    (stored : List (List ℕ)) (size : ℕ) (rest : List ℕ) (n : ℕ)
    → is_empty (drop size rest) ≡ false
    → n < 65535
    → receive stored (datagram size rest n)
      ≡ ((if n == 0 then [] else stored) ++ take size rest ∷ [], none)
unfolding receive datagram
receive_more stored size rest n h small = rw (h, number) (ground arith)
  where
    number : (n / 256 % 256 * 256 + n % 256) % 65536 ≡ n
    number = omega arith

nil_of_is_empty : (xs : List ℕ) → is_empty xs ≡ true → xs ≡ []
nil_of_is_empty [] e = refl
nil_of_is_empty (x ∷ xs) e = cc

take-eq_of_is_empty :
    (size : ℕ) (rest : List ℕ) → is_empty (drop size rest) ≡ true → take size rest ≡ rest
take-eq_of_is_empty size rest h =
    sym (append-nil (take size rest))
    ∙ ap (◌++◌ (take size rest)) (sym (nil_of_is_empty _ h))
    ∙ take-append-drop size rest

pub send_loop-nil : (fuel : ℕ) (link : Link) (size n : ℕ) → send_loop fuel link size [] n ≡ []
unfolding send_loop
send_loop-nil zero link size n = refl
send_loop-nil (suc fuel) link size n = refl

-- A chunk joins what is stored, and the rest of the message follows.
flatten-chunk :
    (stored : List (List ℕ)) (size : ℕ) (rest : List ℕ)
    → flatten (stored ++ take size rest ∷ []) ++ (drop size rest ++ 0 ∷ [])
      ≡ flatten stored ++ (rest ++ 0 ∷ [])
flatten-chunk stored size rest = rw flatten-snoc (
    append_assoc (flatten stored) (take size rest) _
    ∙ ap (◌++◌ (flatten stored)) (
        sym (append_assoc (take size rest) (drop size rest) _)
        ∙ ap (λ m. m ++ 0 ∷ []) (take-append-drop size rest)))

pub pos_of_is_empty : (xs : List ℕ) → is_empty xs ≡ false → 0 < length xs
pos_of_is_empty [] e = cc
pos_of_is_empty (x ∷ xs) e = omega arith

module _ (link : Link) (clear : IsClear link) (size : ℕ) (some_room : 0 < size)
    (fits : size + 2 ≤ max_line) where
  pub send_round :
      (fuel n b : ℕ) (bs : List ℕ)
      → send_loop (suc fuel) link size (b ∷ bs) n
        ≡ datagram size (b ∷ bs) n ∷ send_loop fuel link size (drop size (b ∷ bs)) (n + 1)
  unfolding send_loop
  send_round fuel n b bs = ground (arith, clear.runs n, clear.takes n)

  -- The last round, sent and received: the message is complete.
  receive_last_round :
      (fuel n : ℕ) (stored : List (List ℕ)) (b : ℕ) (bs : List ℕ)
      → is_empty (drop size (b ∷ bs)) ≡ true
      → receive_all stored (send_loop (suc fuel) link size (b ∷ bs) n)
        ≡ ([], (flatten stored ++ ((b ∷ bs) ++ 0 ∷ [])) ∷ [])
  unfolding receive_all
  receive_last_round fuel n stored b bs e =
      rw
        (
          send_round fuel n b bs,
          recvfrom-datagram size (b ∷ bs) n fits,
          receive_last stored size (b ∷ bs) n e,
          nil_of_is_empty _ e,
          send_loop-nil,
          flatten-snoc,
          take-eq_of_is_empty size (b ∷ bs) e,
        )
        (ap (λ m. ([], m ∷ [])) (append_assoc (flatten stored) (b ∷ bs) (0 ∷ [])))

  -- Any other round, sent and received.
  pub receive_more_round :
      (fuel n : ℕ) (stored : List (List ℕ)) (b : ℕ) (bs : List ℕ)
      → is_empty (drop size (b ∷ bs)) ≡ false
      → n < 65535
      → receive_all stored (send_loop (suc fuel) link size (b ∷ bs) n)
        ≡ receive_all
            ((if n == 0 then [] else stored) ++ take size (b ∷ bs) ∷ [])
            (send_loop fuel link size (drop size (b ∷ bs)) (n + 1))
  unfolding receive_all
  receive_more_round fuel n stored b bs e small = rw (
    send_round fuel n b bs,
    recvfrom-datagram size (b ∷ bs) n fits,
    receive_more stored size (b ∷ bs) n e small,
  )

  -- From the second chunk on, the rest of the message joins what is stored.
  receive-send_loop :
      (fuel n : ℕ) (stored : List (List ℕ)) (rest : List ℕ)
      → length rest ≤ fuel
      → 0 < length rest
      → 0 < n
      → n * size + length rest ≤ 65536 * size
      → receive_all stored (send_loop fuel link size rest n)
        ≡ ([], (flatten stored ++ (rest ++ 0 ∷ [])) ∷ [])
  receive-send_loop fuel n stored [] enough more later room = absurd (omega arith)
  receive-send_loop zero n stored (b ∷ bs) enough more later room = absurd (omega arith)
  receive-send_loop (suc fuel) n stored (b ∷ bs) enough more later room =
      elim (Bool-cases (is_empty (drop size (b ∷ bs)))) [
        | inl e ↦ receive_last_round fuel n stored b bs e
        | inr e ↦
            receive_more_round fuel n stored b bs e (below e)
            ∙ (rw (test) (
                receive-send_loop fuel (n + 1) (stored ++ take size (b ∷ bs) ∷ [])
                  (drop size (b ∷ bs)) (omega (arith, length-drop size (b ∷ bs)))
                  (pos_of_is_empty _ e) (omega arith)
                  (omega (arith, length-drop size (b ∷ bs), pos_of_is_empty _ e))
                ∙ ap (λ m. ([], m ∷ [])) (flatten-chunk stored size (b ∷ bs))))
      ]
    where
      test : (n == 0) ≡ false
      test = ground arith

      below : is_empty (drop size (b ∷ bs)) ≡ false → n < 65535
      below e =
          lt_of_mul_lt n 65535 size (omega (arith, length-drop size (b ∷ bs), pos_of_is_empty _ e))

  -- From the first chunk on: what was stored before is dropped if there is a second chunk.
  pub receive-send_loop_first :
      (fuel : ℕ) (stale : List (List ℕ)) (msg : List ℕ)
      → length msg ≤ fuel
      → 0 < length msg
      → length msg ≤ 65536 * size
      → receive_all stale (send_loop fuel link size msg 0)
        ≡ ([], ((if leb (length msg) size then flatten stale else []) ++ (msg ++ 0 ∷ [])) ∷ [])
  receive-send_loop_first fuel stale [] enough more room = absurd (omega arith)
  receive-send_loop_first zero stale (b ∷ bs) enough more room = absurd (omega arith)
  receive-send_loop_first (suc fuel) stale (b ∷ bs) enough more room =
      elim (Bool-cases (is_empty (drop size (b ∷ bs)))) [
        | inl e ↦ rw (short e) (receive_last_round fuel 0 stale b bs e)
        | inr e ↦ rw (long e) (
            receive_more_round fuel 0 stale b bs e (omega arith)
            ∙ (receive-send_loop fuel 1 (take size (b ∷ bs) ∷ []) (drop size (b ∷ bs))
                  (omega (arith, length-drop size (b ∷ bs))) (pos_of_is_empty _ e) (omega arith)
                  (omega (arith, length-drop size (b ∷ bs), pos_of_is_empty _ e))
                ∙ ap (λ m. ([], m ∷ [])) (flatten-chunk [] size (b ∷ bs))))
      ]
    where
      short : is_empty (drop size (b ∷ bs)) ≡ true → leb (length (b ∷ bs)) size ≡ true
      short e = ground (arith, length-drop size (b ∷ bs), ap length (nil_of_is_empty _ e))

      long : is_empty (drop size (b ∷ bs)) ≡ false → leb (length (b ∷ bs)) size ≡ false
      long e = ground (arith, length-drop size (b ∷ bs), pos_of_is_empty _ e)

-- A client that can send: it runs, its socket is open, and its datagrams fit the receiver's buffer.
pub record IsReady (c : UdpClient) : Type 0 where
  pub runs : c.stopped ≡ false
  pub open_socket : c.socket_open ≡ true
  pub addressed : c.addresses ≡ true
  pub some_room : 0 < c.chunk_size
  pub fits : c.chunk_size + 2 ≤ max_line

-- A message of at most 65536 chunks, sent by a ready client over a clear link and received whole,
-- reaches the callback once, with a zero byte behind it, and leaves nothing stored. What was stored
-- before is lost if the message has two chunks or more, and stands in front of it if it has one.
pub receive_all-send_msg :
    (c : UdpClient) (link : Link) (stale : List (List ℕ)) (msg : List ℕ)
    → IsReady c
    → IsClear link
    → msg ≢ []
    → length msg ≤ 65536 * c.chunk_size
    → receive_all stale (send_msg c c link msg) ≡ (
      [],
      ((if leb (length msg) c.chunk_size then flatten stale else []) ++ (msg ++ 0 ∷ [])) ∷ [],
    )
unfolding send_msg
receive_all-send_msg c link stale msg ready clear some_text room =
    rw (ready.runs, positive, ready.open_socket, ready.addressed)
      (receive-send_loop_first link clear c.chunk_size ready.some_room ready.fits (length msg) stale
        msg (omega arith) (length-ne_zero msg some_text) room)
  where
    positive : (c.chunk_size == 0) ≡ false
    positive = ground (arith, ready.some_room)
