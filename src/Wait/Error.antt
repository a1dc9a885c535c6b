-- ===== src/Wait/Error.antt =====
-- `WaitError` (src/wait.rs). The wgpu errors inside are their texts.
use Prim.Native.String.{String, ◌++◌ as concat}
use gpu_info_rs.Prelude.{ℕ, Result, ok}

pub data PollError : Type 0 where
  timeout : PollError
  wrong_submission_index : ℕ → ℕ → PollError

pub data WaitError : Type 0 where
  poll : PollError → WaitError
  map : String → WaitError
  dropped : WaitError
  submit_panicked submit_rejected poll_panicked device_lost : String → WaitError

-- `Result<(), WaitError>`.
abbrev pub Outcome : Type 0
Outcome = Result (Unit {0}) WaitError

abbrev pub done : Outcome
done = ok tt

-- `Display`, with wgpu's own text of a poll error.
unfoldable pub display : (PollError → String) → WaitError → String
display poll_text (poll e) = concat "device poll failed: " (poll_text e)
display poll_text (map text) = concat "buffer map failed: " text
display poll_text dropped = "completion callback dropped without running"
display poll_text (submit_panicked text) = concat "GPU submission panicked: " text
display poll_text (submit_rejected text) = concat "GPU submission rejected: " text
display poll_text (poll_panicked text) = concat "GPU polling panicked: " text
display poll_text (device_lost text) = concat "GPU device lost: " text
