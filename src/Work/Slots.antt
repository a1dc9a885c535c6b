-- ===== src/Work/Slots.antt =====
-- `WorkQueue::wait_for_slots` (src/wait/work.rs). Each round is given what its `collect` is told,
-- and whether the time was over when the round looked at the clock. `none` means that the rounds
-- ran out.
use gpu_info_rs.Prelude.{
  ℕ, ◌-◌, max, min, Bool, true, false, ◌||◌, Option, none, some, List, [], ◌∷◌, Result, ok, err,
  leb, add64, length,
}
use gpu_info_rs.Wait.Error.{WaitError}
use gpu_info_rs.Wait.Validation.{FuturePoll}
use gpu_info_rs.Work.State.{WorkQueue, Drive}
use gpu_info_rs.Work.Collect.{collect}

pub record Slice (F : Type 0) : Type 0 where
  pub expired : Bool
  pub drive : Drive F

module _ {ℓ} {F : Type 0} {L : Type ℓ} (poll_future : F → FuturePoll F) where
  -- `needed.clamp(1, capacity)`, and the most submissions that may then stay.
  abbrev pub max_pending : ℕ → WorkQueue F L → ℕ
  max_pending needed q = q.capacity - min q.capacity (max 1 needed)

  -- There are slots enough, or waiting is of no use.
  abbrev pub satisfied : ℕ → WorkQueue F L → Bool
  satisfied most q = leb (length q.pending) most || q.poisoned

  abbrev pub step_slots :
      (ℕ → WorkQueue F L → Option (Result ℕ WaitError × WorkQueue F L))
      → ℕ
      → Result ℕ WaitError × WorkQueue F L
      → Option (Result ℕ WaitError × WorkQueue F L)
  step_slots next total (ok n, q) = next (add64 total n) q
  step_slots next total (err e, q) = some (err e, q)

  abbrev pub unless_over :
      Bool
      → ℕ
      → WorkQueue F L
      → Option (Result ℕ WaitError × WorkQueue F L)
      → Option (Result ℕ WaitError × WorkQueue F L)
  unless_over true total q later = some (ok total, q)
  unless_over false total q later = later

  unfoldable pub slots_loop :
      List (Slice F) → ℕ → ℕ → WorkQueue F L → Option (Result ℕ WaitError × WorkQueue F L)
  slots_loop [] most total q = unless_over (satisfied most q) total q none
  slots_loop (s ∷ ss) most total q =
      unless_over (satisfied most q || s.expired) total q (
        step_slots (λ total' q'. slots_loop ss most total' q') total
          (collect poll_future s.drive q))

  -- `no_time` is `timeout.is_zero()`.
  abbrev pub after_first :
      List (Slice F)
      → Bool
      → ℕ
      → Result ℕ WaitError × WorkQueue F L
      → Option (Result ℕ WaitError × WorkQueue F L)
  after_first ss no_time most (err e, q) = some (err e, q)
  after_first ss no_time most (ok n, q) =
      unless_over (satisfied most q || no_time) n q (slots_loop ss most n q)

  unfoldable pub wait_for_slots :
      Drive F
      → List (Slice F)
      → Bool
      → ℕ
      → WorkQueue F L
      → Option (Result ℕ WaitError × WorkQueue F L)
  wait_for_slots d ss no_time needed q =
      after_first ss no_time (max_pending needed q) (collect poll_future d q)
