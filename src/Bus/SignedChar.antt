-- ===== src/Bus/SignedChar.antt =====
-- The receiver of udpClient.cpp where plain `char` is signed: a low byte of 128 or more is extended
-- by its sign, and sets every bit of the high byte.
use droneengage_common.Common.{
  ℕ, zero, suc, ◌+◌, ◌*◌, ◌/◌, ◌%◌, ◌≤◌, ◌<◌, ◌≡◌, refl, inl, inr, false, Option, none, some, List,
  [], ◌∷◌, ◌++◌, arith, ltb, ◌==◌, if◌then◌else◌, length, take, drop, flatten, Bool-cases,
  length-drop, lt_of_mul_lt, mul_le_mul,
}
use droneengage_common.Bus.Link.{Link, IsClear}
use droneengage_common.Bus.Udp.{
  UdpClient, is_empty, datagram, send_loop, send_msg, max_line, recvfrom, receive, receive_all,
  deliver,
}
use droneengage_common.Bus.Delivery.{
  IsReady, recvfrom-datagram, send_round, send_loop-nil, pos_of_is_empty,
}

-- `(buffer[1] << 8) | buffer[0]`, converted to `uint16_t`.
unfoldable pub signed_chunk_number : ℕ → ℕ → ℕ
signed_chunk_number b0 b1 = if ltb b0 128 then (b1 * 256 + b0) % 65536 else 0xFF00 + b0

unfoldable pub receive_signed : List (List ℕ) → List ℕ → List (List ℕ) × Option (List ℕ)
unfolding signed_chunk_number
receive_signed chunks [] = (chunks, none)
receive_signed chunks (b ∷ []) = (chunks, none)
receive_signed chunks (b0 ∷ b1 ∷ payload) =
    let number = signed_chunk_number b0 b1 in
    let stored = (if number == 0 then [] else chunks) ++ payload ∷ [] in
    if number == 0xFFFF then ([], some (flatten stored ++ 0 ∷ [])) else (stored, none)

unfoldable pub receive_all_signed : List (List ℕ) → List (List ℕ) → List (List ℕ) × List (List ℕ)
unfolding receive_signed recvfrom
receive_all_signed chunks [] = (chunks, [])
receive_all_signed chunks (d ∷ ds) =
    let (kept, message) = receive_signed chunks (recvfrom d) in
    let (left, messages) = receive_all_signed kept ds in (left, deliver message messages)

receive_signed-datagram :
    (stored : List (List ℕ)) (size : ℕ) (rest : List ℕ) (n : ℕ)
    → (is_empty (drop size rest) ≡ false → n < 255)
    → receive_signed stored (datagram size rest n) ≡ receive stored (datagram size rest n)
unfolding receive_signed receive datagram
receive_signed-datagram stored size rest n small = elim (Bool-cases (is_empty (drop size rest))) [
  | inl e ↦ rw e refl
  | inr e ↦ rw e (ground (arith, small e, low e, high e))
]
  where
    low : is_empty (drop size rest) ≡ false → n % 256 ≡ n
    low e = omega (arith, small e)

    high : is_empty (drop size rest) ≡ false → n / 256 % 256 ≡ 0
    high e = omega (arith, small e)

module _ (link : Link) (clear : IsClear link) (size : ℕ) (some_room : 0 < size)
    (fits : size + 2 ≤ max_line) where
  agree :
      (fuel n : ℕ) (stored : List (List ℕ)) (rest : List ℕ)
      → length rest ≤ fuel
      → n * size + length rest ≤ 256 * size
      → receive_all_signed stored (send_loop fuel link size rest n)
        ≡ receive_all stored (send_loop fuel link size rest n)
  unfolding receive_all_signed receive_all
  agree fuel n stored [] enough room = rw (send_loop-nil fuel link size n) refl
  agree zero n stored (b ∷ bs) enough room = absurd (omega arith)
  agree (suc fuel) n stored (b ∷ bs) enough room =
      rw
        (
          send_round link clear size some_room fits fuel n b bs,
          recvfrom-datagram size (b ∷ bs) n fits,
          receive_signed-datagram stored size (b ∷ bs) n small,
          agree fuel (n + 1) (receive stored (datagram size (b ∷ bs) n)).0 (drop size (b ∷ bs))
              (omega (arith, length-drop size (b ∷ bs)))
              (omega (arith, length-drop size (b ∷ bs), next)),
        )
        refl
    where
      small : is_empty (drop size (b ∷ bs)) ≡ false → n < 255
      small e =
          lt_of_mul_lt n 255 size (omega (arith, length-drop size (b ∷ bs), pos_of_is_empty _ e))

      next : (n + 1) * size ≤ 256 * size
      next = mul_le_mul (n + 1) 256 size (omega (arith, lt_of_mul_lt n 256 size (omega arith)))

-- Of a message of at most 256 chunks, which a ready client sends over a clear link, the receiver makes
-- the same where `char` is signed, whatever was stored.
pub receive_all_signed-send_msg :
    (c : UdpClient) (link : Link) (stale : List (List ℕ)) (msg : List ℕ)
    → IsReady c
    → IsClear link
    → length msg ≤ 256 * c.chunk_size
    → receive_all_signed stale (send_msg c c link msg) ≡ receive_all stale (send_msg c c link msg)
unfolding send_msg
receive_all_signed-send_msg c link stale msg ready clear room =
    rw (ready.runs, positive, ready.open_socket, ready.addressed)
      (agree link clear c.chunk_size ready.some_room ready.fits (length msg) 0 stale msg
        (omega arith) (omega arith))
  where
    positive : (c.chunk_size == 0) ≡ false
    positive = ground (arith, ready.some_room)

-- Where `char` is signed, a chunk that is not the last, and whose number ends in the byte 255, ends
-- the message.
pub signed_char_ends_message :
    (stored : List (List ℕ)) (size : ℕ) (rest : List ℕ) (n : ℕ)
    → is_empty (drop size rest) ≡ false
    → n % 256 ≡ 255
    → receive_signed stored (datagram size rest n)
      ≡ ([], some (flatten (stored ++ take size rest ∷ []) ++ 0 ∷ []))
unfolding receive_signed datagram
signed_char_ends_message stored size rest n more low = rw more (rw low refl)
