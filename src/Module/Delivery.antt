-- ===== src/Module/Delivery.antt =====
-- From the senders of one module to `onReceive` of another, over the clients of the databus:
-- de_databus/de_module.cpp and udpClient.cpp. The texts of JSON values, and their parser, are the JSON library's.
use droneengage_common.Common.{ℕ, ◌≡◌, Option, some, List, [], ◌∷◌, ◌++◌, All, ◌==◌, false}
use droneengage_common.Common.Float.{FloatOps}
use droneengage_common.Bus.Link.{Link}
use droneengage_common.Bus.Udp
use droneengage_common.Json.{Json}
use droneengage_common.Module.Message.{Outgoing, text, binary, raw}
use droneengage_common.Module.State.{Module}
use droneengage_common.Module.Receive.{c_text, on_parsed, on_receive}

abbrev pub IsTextByte : ℕ → Type 0
IsTextByte b = (b == 0) ≡ false

module _ {F : Type 0} ⦃o : FloatOps F⦄ (dump : Json F → List ℕ)
    (parse : List ℕ → Option (Json F)) where
  -- The callback on one message after the other.
  unfoldable pub receive_run : List (List ℕ) → Module F → Module F
  unfolding on_receive
  receive_run [] m = m
  receive_run (message ∷ messages) m = receive_run messages (on_receive parse message m)

  -- What the parser makes of a message: its JSON text, with or without binary data behind it, and of forwarded
  -- bytes their text up to the first zero.
  abbrev pub read_back : Outgoing F → Option (Json F)
  read_back (text j) = some j
  read_back (binary j bytes) = some j
  read_back (raw bytes) = parse (c_text (bytes ++ 0 ∷ []))

  unfoldable pub handle_run : List (Outgoing F) → Module F → Module F
  unfolding on_parsed
  handle_run [] m = m
  handle_run (out ∷ outs) m = handle_run outs (on_parsed (read_back out) m)

  -- What the JSON library does with the value of a message: its text has no zero byte, and is parsed to it.
  abbrev pub IsPrintable : Outgoing F → Type 0
  IsPrintable (text j) = All IsTextByte (dump j) × (parse (dump j) ≡ some j)
  IsPrintable (binary j bytes) = All IsTextByte (dump j) × (parse (dump j) ≡ some j)
  IsPrintable (raw bytes) = Unit
