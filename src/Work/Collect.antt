-- ===== src/Work/Collect.antt =====
-- `WorkQueue::collect` (src/wait/work.rs): poll once, then settle what is terminal, oldest first.
use gpu_info_rs.Prelude.{
  ℕ, suc, Bool, true, false, not, ◌&&◌, ◌||◌, Option, none, some, List, [], ◌∷◌, ◌++◌, Result, ok,
  err, is_some,
}
use gpu_info_rs.Wait.Error.{WaitError, poll_panicked, device_lost, Outcome}
use gpu_info_rs.Wait.Validation.{FuturePoll}
use gpu_info_rs.Wait.Submission.{poll_device}
use gpu_info_rs.Work.State.{Event, PendingWork, WorkQueue, Drive, finishes}
use gpu_info_rs.Work.Entry.{visit}

-- What the loop of `collect` leaves: the entries that stay, how many were settled, the first error
-- among them, and the hooks that were called.
pub record Settled {ℓ} (F : Type 0) (L : Type ℓ) : Type ℓ where
  pub kept : List (PendingWork F L)
  pub count : ℕ
  pub failure : Option WaitError
  pub hooks : List (Event L)

-- `failure.get_or_insert` in the order of the entries.
abbrev pub earliest : Outcome → Option WaitError → Option WaitError
earliest (ok _) later = later
earliest (err e) later = some e

abbrev pub any_failed {ℓ} : {F : Type 0} {L : Type ℓ} → List (PendingWork F L) → Bool
any_failed [] = false
any_failed (e ∷ es) = is_some e.failure || any_failed es

abbrev pub finish_all {ℓ} :
    {F : Type 0} {L : Type ℓ} → Outcome → List (PendingWork F L) → List (Event L)
finish_all o [] = []
finish_all o (e ∷ es) = finishes o e.leases ++ finish_all o es

-- `WorkQueue::terminal_loss`, once a reason was reported.
unfoldable pub terminal_loss {ℓ} :
    {F : Type 0} {L : Type ℓ} → Outcome → WorkQueue F L → WorkQueue F L
terminal_loss o q = record q {
  poisoned = true;
  pending = [];
  hooks = q.hooks ++ finish_all o q.pending;
}

module _ {ℓ} {F : Type 0} {L : Type ℓ} (poll_future : F → FuturePoll F) where
  -- The end of one round.
  abbrev pub settle : Option Outcome × PendingWork F L × List (Event L) → Settled F L → Settled F L
  settle (none, e, hooks) rest = record rest { kept = e ∷ rest.kept; hooks = hooks ++ rest.hooks }
  settle (some o, e, hooks) rest = record rest {
    count = suc rest.count;
    failure = earliest o rest.failure;
    hooks = hooks ++ (finishes o e.leases ++ rest.hooks);
  }

  unfoldable pub collect_loop : Drive F → Bool → ℕ → List (PendingWork F L) → Settled F L
  collect_loop d queue_empty n [] = record { kept = []; count = 0; failure = none; hooks = [] }
  collect_loop d queue_empty n (e ∷ es) =
      settle (visit poll_future d queue_empty n e) (collect_loop d queue_empty (suc n) es)

  abbrev pub counted : Settled F L → Result ℕ WaitError
  counted s = elim s.failure [ none ↦ ok s.count | some e ↦ err e ]

  -- The queue after the loop.
  abbrev pub settled_queue : WorkQueue F L → Settled F L → WorkQueue F L
  settled_queue q s = record q {
    pending = s.kept;
    poisoned = any_failed s.kept;
    hooks = q.hooks ++ s.hooks;
  }

  abbrev pub after_poll :
      Drive F → Result Bool WaitError → WorkQueue F L → Result ℕ WaitError × WorkQueue F L
  after_poll d (err (poll_panicked message)) q = (
    err (poll_panicked message),
    record q { poll_fault = some (poll_panicked message); poisoned = true },
  )
  after_poll d (err e) q = (err e, q)
  after_poll d (ok empty) q =
      let s = collect_loop d (empty && not d.wasm) 0 q.pending in (counted s, settled_queue q s)

  abbrev pub or_lost :
      Option Prim.Native.String.String
      → WorkQueue F L
      → Result ℕ WaitError × WorkQueue F L
      → Result ℕ WaitError × WorkQueue F L
  or_lost none q r = r
  or_lost (some reason) q r = (err (device_lost reason), terminal_loss (err (device_lost reason)) q)

  unfoldable pub collect : Drive F → WorkQueue F L → Result ℕ WaitError × WorkQueue F L
  collect d q = or_lost d.loss q (elim q.poll_fault [
    | some e ↦ (err e, q)
    | none ↦ or_lost d.loss_polled q (after_poll d (poll_device d.polled) q)
  ])
