-- ===== src/Work/Shutdown.antt =====
-- `WorkQueue::shutdown` and its `Drop` (src/wait/work.rs) over the calls of `collect` that they make:
-- each is given what it is told from outside. `none` means that these ran out.
use gpu_info_rs.Prelude.{
  ℕ, Bool, true, false, not, ◌&&◌, Option, none, some, List, [], ◌∷◌, Result, ok, err,
}
use gpu_info_rs.Wait.Error.{WaitError, poll, poll_panicked, Outcome, done}
use gpu_info_rs.Wait.Validation.{FuturePoll}
use gpu_info_rs.Work.State.{WorkQueue, Drive}
use gpu_info_rs.Work.Collect.{collect}

-- An error that keeps unproved work retained.
abbrev pub is_poll_error : WaitError → Bool
is_poll_error (poll e) = true
is_poll_error (poll_panicked message) = true
is_poll_error _ = false

-- `failure.map_or(Ok(()), Err)`.
abbrev pub verdict : Option WaitError → Outcome
verdict none = done
verdict (some e) = err e

-- `failure.get_or_insert`.
abbrev pub insert_failure : Option WaitError → WaitError → Option WaitError
insert_failure none e = some e
insert_failure (some first) e = some first

abbrev pub is_empty {ℓ} : {A : Type ℓ} → List A → Bool
is_empty [] = true
is_empty (x ∷ xs) = false

module _ {ℓ} {F : Type 0} {L : Type ℓ} (poll_future : F → FuturePoll F) where
  abbrev pub unless_empty :
      Bool
      → Option WaitError
      → WorkQueue F L
      → Option (Outcome × WorkQueue F L)
      → Option (Outcome × WorkQueue F L)
  unless_empty true failure q later = some (verdict failure, q)
  unless_empty false failure q later = later

  abbrev pub unless_stuck :
      Bool
      → (Option WaitError → WorkQueue F L → Option (Outcome × WorkQueue F L))
      → Option WaitError
      → WaitError
      → WorkQueue F L
      → Option (Outcome × WorkQueue F L)
  unless_stuck true next failure e q = some (err e, q)
  unless_stuck false next failure e q = next (insert_failure failure e) q

  -- The `match` of one round.
  abbrev pub after_round :
      (Option WaitError → WorkQueue F L → Option (Outcome × WorkQueue F L))
      → Option WaitError
      → Result ℕ WaitError × WorkQueue F L
      → Option (Outcome × WorkQueue F L)
  after_round next failure (ok _, q) = next failure q
  after_round next failure (err e, q) =
      unless_stuck (not (is_empty q.pending) && is_poll_error e) next failure e q

  unfoldable pub shutdown_loop :
      List (Drive F) → Option WaitError → WorkQueue F L → Option (Outcome × WorkQueue F L)
  shutdown_loop [] failure q = unless_empty (is_empty q.pending) failure q none
  shutdown_loop (d ∷ ds) failure q =
      unless_empty (is_empty q.pending) failure q (
        after_round (λ failure' q'. shutdown_loop ds failure' q') failure (collect poll_future d q))

  unfoldable pub shutdown : List (Drive F) → WorkQueue F L → Option (Outcome × WorkQueue F L)
  shutdown ds q = shutdown_loop ds none q
