-- ===== src/Bus/Overflow.antt =====
-- A message of more than 65536 chunks: the number 65535 of a chunk in the middle reads as the end
-- marker.
use droneengage_common.Common.{
  ℕ, zero, suc, ◌+◌, ◌-◌, ◌*◌, ◌≤◌, ◌<◌, ◌≡◌, ◌∙◌, refl, sym, ap, inl, inr, false, some, List, [],
  ◌∷◌, ◌++◌, append_assoc, arith, ◌==◌, length, take, drop, flatten, Bool-cases, flatten-snoc,
  take-add, length-drop, mul_le_mul, subst, ==_iff,
}
use droneengage_common.Bus.Link.{Link, IsClear}
use droneengage_common.Bus.Udp.{
  UdpClient, is_empty, datagram, send_loop, send_msg, max_line, receive, receive_all,
}
use droneengage_common.Bus.Delivery.{IsReady, recvfrom-datagram, send_round, receive_more_round}

not_empty : (xs : List ℕ) → 0 < length xs → is_empty xs ≡ false
not_empty [] h = absurd (omega arith)
not_empty (x ∷ xs) h = refl

receive_marker :
    (stored : List (List ℕ)) (size : ℕ) (rest : List ℕ)
    → is_empty (drop size rest) ≡ false
    → receive stored (datagram size rest 65535)
      ≡ ([], some (flatten (stored ++ take size rest ∷ []) ++ 0 ∷ []))
unfolding receive datagram
receive_marker stored size rest h = rw h

module _ (link : Link) (clear : IsClear link) (size : ℕ) (some_room : 0 < size)
    (fits : size + 2 ≤ max_line) where
  abbrev Cuts : List (List ℕ) → ℕ → List ℕ → ℕ → Type 0
  Cuts stored fuel rest n =
      (later : List (List ℕ)) × ((receive_all stored (send_loop fuel link size rest n)).1
        ≡ (flatten stored ++ (take (65536 * size - n * size) rest ++ 0 ∷ [])) ∷ later)

  Cuts-now :
      (fuel : ℕ) (stored : List (List ℕ)) (b : ℕ) (bs : List ℕ)
      → is_empty (drop size (b ∷ bs)) ≡ false
      → Cuts stored (suc fuel) (b ∷ bs) 65535
  unfolding receive_all
  Cuts-now fuel stored b bs e = (
    (receive_all [] (send_loop fuel link size (drop size (b ∷ bs)) (65535 + 1))).1,
    rw (
      send_round link clear size some_room fits fuel 65535 b bs,
      recvfrom-datagram size (b ∷ bs) 65535 fits,
      receive_marker stored size (b ∷ bs) e,
      flatten-snoc,
      append_assoc,
      one_chunk,
    ),
  )
    where
      one_chunk : 65536 * size - 65535 * size ≡ size
      one_chunk = omega arith

  regroup :
      (n : ℕ) (stored : List (List ℕ)) (rest : List ℕ)
      → n < 65535
      → flatten (stored ++ take size rest ∷ [])
          ++ (take (65536 * size - (n + 1) * size) (drop size rest) ++ 0 ∷ [])
        ≡ flatten stored ++ (take (65536 * size - n * size) rest ++ 0 ∷ [])
  regroup n stored rest small =
      rw (flatten-snoc, total, take-add)
        (append_assoc (flatten stored) (take size rest) _
          ∙ ap (◌++◌ (flatten stored)) (sym (append_assoc (take size rest) _ _)))
    where
      total : 65536 * size - n * size ≡ size + (65536 * size - (n + 1) * size)
      total = omega (arith, mul_le_mul (n + 1) 65536 size (omega arith))

  cuts :
      (fuel n : ℕ) (stored : List (List ℕ)) (rest : List ℕ)
      → length rest ≤ fuel
      → 0 < n
      → n ≤ 65535
      → 65536 * size < n * size + length rest
      → Cuts stored fuel rest n
  cuts fuel n stored [] enough later small long =
      absurd (omega (arith, mul_le_mul n 65535 size small))
  cuts zero n stored (b ∷ bs) enough later small long = absurd (omega arith)
  cuts (suc fuel) n stored (b ∷ bs) enough later small long = elim (Bool-cases (n == 65535)) [
    | inl e ↦
        subst (λ k. Cuts stored (suc fuel) (b ∷ bs) k) (sym ((==_iff n 65535).0 e))
          (Cuts-now fuel stored b bs more)
    | inr e ↦
        let (messages, ih) =
          cuts fuel (n + 1) (stored ++ take size (b ∷ bs) ∷ []) (drop size (b ∷ bs))
            (omega (arith, length-drop size (b ∷ bs))) (omega arith) (ground arith)
            (omega (arith, length-drop size (b ∷ bs), mul_le_mul n 65535 size small)) in
        (
          messages,
          ap (λ r. r.1)
                (receive_more_round link clear size some_room fits fuel n stored b bs more
                  (ground arith))
              ∙ (rw test (ih ∙ ap (λ m. m ∷ messages) (regroup n stored (b ∷ bs) (ground arith)))),
        )
  ]
    where
      more : is_empty (drop size (b ∷ bs)) ≡ false
      more =
          not_empty (drop size (b ∷ bs))
            (omega (arith, length-drop size (b ∷ bs), mul_le_mul n 65535 size small))

      test : (n == 0) ≡ false
      test = ground arith

  cuts_first :
      (fuel : ℕ) (stale : List (List ℕ)) (b : ℕ) (bs : List ℕ)
      → length (b ∷ bs) ≤ suc fuel
      → 65536 * size < length (b ∷ bs)
      → (later : List (List ℕ)) × ((receive_all stale (send_loop (suc fuel) link size (b ∷ bs) 0)).1
          ≡ (take (65536 * size) (b ∷ bs) ++ 0 ∷ []) ∷ later)
  cuts_first fuel stale b bs enough long =
      let (messages, ih) =
        cuts fuel 1 (take size (b ∷ bs) ∷ []) (drop size (b ∷ bs))
          (omega (arith, length-drop size (b ∷ bs))) (omega arith) (omega arith)
          (omega (arith, length-drop size (b ∷ bs))) in
      (
        messages,
        ap (λ r. r.1)
              (receive_more_round link clear size some_room fits fuel 0 stale b bs more
                (omega arith))
            ∙ ih
            ∙ ap (λ m. m ∷ messages) (regroup 0 [] (b ∷ bs) (omega arith) ∙ rw whole),
      )
    where
      more : is_empty (drop size (b ∷ bs)) ≡ false
      more = not_empty (drop size (b ∷ bs)) (omega (arith, length-drop size (b ∷ bs)))

      whole : 65536 * size - 0 * size ≡ 65536 * size
      whole = omega arith

-- A ready client sends a message of more than 65536 chunks over a clear link. The first message that
-- the callback gets ends after 65536 chunks, whatever was stored: the 65536th chunk carries the
-- number 65535, which is the end marker.
pub long_message_is_cut :
    (c : UdpClient) (link : Link) (stale : List (List ℕ)) (msg : List ℕ)
    → IsReady c
    → IsClear link
    → 65536 * c.chunk_size < length msg
    → (later : List (List ℕ)) × ((receive_all stale (send_msg c c link msg)).1
        ≡ (take (65536 * c.chunk_size) msg ++ 0 ∷ []) ∷ later)
unfolding send_msg
long_message_is_cut c link stale [] ready clear long = absurd (omega arith)
long_message_is_cut c link stale (b ∷ bs) ready clear long =
    rw (ready.runs, positive, ready.open_socket, ready.addressed)
      (cuts_first link clear c.chunk_size ready.some_room ready.fits (length bs) stale b bs
        (omega arith) long)
  where
    positive : (c.chunk_size == 0) ≡ false
    positive = ground (arith, ready.some_room)
