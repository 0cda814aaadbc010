-- ===== src/Bus/Chunk.antt =====
-- de_databus/chunk_protocol.hpp: the two-byte chunk header. A byte string is a list of numbers below
-- 256, and `(data[1] << 8) | data[0]` is a sum, since the two bytes share no bit.
use droneengage_common.Common.{
  ℕ, ◌+◌, ◌*◌, ◌/◌, ◌%◌, Bool, true, false, List, [], ◌∷◌, ◌==◌, flatten,
}

abbrev pub chunk_end_marker : ℕ
chunk_end_marker = 0xFFFF

unfoldable pub prepare_chunk_header : ℕ → Bool → List ℕ
prepare_chunk_header n true = 0xFF ∷ 0xFF ∷ []
prepare_chunk_header n false = (n % 256) ∷ (n / 256 % 256) ∷ []

unfoldable pub parse_chunk_number : ℕ → ℕ → ℕ
parse_chunk_number b0 b1 = (b1 * 256 + b0) % 65536

unfoldable pub is_end_chunk : ℕ → Bool
is_end_chunk n = n == chunk_end_marker

unfoldable pub reassemble_chunks : List (List ℕ) → List ℕ
reassemble_chunks chunks = flatten chunks
