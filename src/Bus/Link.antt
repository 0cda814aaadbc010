-- ===== src/Bus/Link.antt =====
-- What the operating system and the other threads do while a client sends: the stop flag as each
-- round of the loop reads it, and the outcome of each `sendto`. The sleeps have no other effect.
use droneengage_common.Common.{ℕ, ◌≡◌, Bool, false}

-- `sent >= 0`, or the `errno` of a failure: ENOENT, or another.
pub data Sent : Type 0 where
  sent enoent failed : Sent

pub record Link : Type 0 where
  -- `m_stopped_called` in the test of the round for a chunk
  pub stopped : ℕ → Bool
  -- `m_stopped_called` in the test of a retry
  pub retry_stopped : ℕ → Bool
  -- the outcome of `sendto`, by the chunk's number and the attempt
  pub sendto : ℕ → ℕ → Sent

-- Nobody stops the client, and every datagram is taken at the first attempt.
pub record IsClear (link : Link) : Type 0 where
  pub runs : (i : ℕ) → link.stopped i ≡ false
  pub takes : (i : ℕ) → link.sendto i 0 ≡ sent
