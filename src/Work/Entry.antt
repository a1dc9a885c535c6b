-- ===== src/Work/Entry.antt =====
-- One retained submission in the loop of `WorkQueue::collect` (src/wait/work.rs), step by step.
use gpu_info_rs.Prelude.{
  ℕ, Bool, true, false, not, ◌&&◌, Option, none, some, List, [], ◌++◌, map, ok, err, is_some,
  if◌then◌else◌,
}
use gpu_info_rs.Wait.Error.{WaitError, dropped, Outcome, done}
use gpu_info_rs.Wait.Validation.{FuturePoll, Validation}
use gpu_info_rs.Wait.Validation
use gpu_info_rs.Wait.Submission.{Submission, Signals, status, validation_status}
use gpu_info_rs.Work.State.{Event, submitted, PendingWork, Submitted, scopes_unwind, submits, Drive}

-- `Some(Ok(()))`.
abbrev pub is_done : Option Outcome → Bool
is_done (some (ok _)) = true
is_done _ = false

abbrev pub is_dropped : Option WaitError → Bool
is_dropped (some dropped) = true
is_dropped _ = false

-- The outcome that settles the entry, if one does.
abbrev pub settling : Option WaitError → Bool → Bool → Option Outcome → Option Outcome
settling none recovered retired o = o
settling (some x) true retired o = some done
settling (some x) false true o = some (err x)
settling (some x) false false o = none

abbrev scopes_of : {F : Type 0} → Option (Submission F) → Submission F → Submission F
scopes_of none s = s
scopes_of (some s') s = s'

-- `WorkQueue::recover` on one entry: the fence that was submitted, or the observer of one that was
-- rejected, with the address of its signal.
unfoldable pub recover {ℓ} :
    {F : Type 0} {L : Type ℓ} → ℕ → Submitted F → PendingWork F L → PendingWork F L
recover signal (scopes_unwind message) e = e
recover signal (submits panic scope) e = record e {
  recovery = some (record { signal = signal; validation = some (Validation.new scope) });
}

abbrev pub retired_by {ℓ} :
    {F : Type 0} {L : Type ℓ}
    → Bool
    → PendingWork F L
    → Bool
    → Option (Submission F)
    → Bool × PendingWork F L
retired_by true e passed recovery = (true, e)
retired_by false e passed recovery = (passed, record e { recovery = recovery })

module _ {F : Type 0} (poll_future : F → FuturePoll F) where
  abbrev poll_scopes : Option (Submission F) → Bool × Option (Submission F)
  poll_scopes none = (true, none)
  poll_scopes (some s) = elim s.validation [
    | none ↦ (true, some s)
    | some v ↦
        let (o, v') = Validation.poll poll_future v in
        (is_some o, some (record s { validation = some v' }))
  ]

  abbrev pub fence_done : Signals → Option (Submission F) → Bool × Option (Submission F)
  fence_done signals none = (false, none)
  fence_done signals (some s) = let (o, s') = status poll_future signals s in (is_done o, some s')

module _ {ℓ} {F : Type 0} {L : Type ℓ} (poll_future : F → FuturePoll F) where
  -- `PendingWork::submitted`, with the hooks that it calls.
  unfoldable pub commit : PendingWork F L → PendingWork F L × List (Event L)
  commit e = (record e { committed = true }, map submitted e.leases)

  -- `PendingWork::validations_settled`: both sides are polled.
  unfoldable pub validations_settled : PendingWork F L → Bool × PendingWork F L
  validations_settled e =
      let (settled, completion) = poll_scopes poll_future (some e.completion) in
      let (settled', recovery) = poll_scopes poll_future e.recovery in
      (
        settled && settled',
        record e { completion = scopes_of completion e.completion; recovery = recovery },
      )

  abbrev pub accepts : PendingWork F L → Option Outcome → Bool
  accepts e o = not e.committed && not (is_some e.failure) && is_done o

  -- The first `if` of the loop: commit once the scopes accept.
  unfoldable pub commit_accepted : PendingWork F L → PendingWork F L × List (Event L)
  commit_accepted e =
      let (o, s) = validation_status poll_future e.completion in
      let e' = record e { completion = s } in if accepts e o then commit e' else (e', [])

  abbrev pub failed : Drive F → Bool → ℕ → PendingWork F L → Option Outcome → PendingWork F L
  failed d queue_empty n e (some (err x)) =
      if is_some e.failure
      then e
      else let e' = record e { failure = some x } in
        if queue_empty then e' else recover (d.fence_signal n) (d.fence n) e'
  failed d queue_empty n e (some (ok _)) = e
  failed d queue_empty n e none = e

  -- The second: note a failure, and prove its retirement by a fence unless the queue is empty.
  unfoldable pub note_failure :
      Drive F → Bool → ℕ → PendingWork F L → Option Outcome × PendingWork F L
  note_failure d queue_empty n e =
      let (o, s) = status poll_future d.signals e.completion in
      (o, failed d queue_empty n (record e { completion = s }) o)

  -- `retired`: the scopes have settled, and the queue is empty or the fence has passed.
  unfoldable pub retire : Drive F → Bool → PendingWork F L → Bool × PendingWork F L
  retire d queue_empty e =
      let (settled, e') = validations_settled e in
      let (passed, recovery) = fence_done poll_future d.signals e'.recovery in
      if not settled then (false, e') else retired_by queue_empty e' passed recovery

  abbrev pub only_dropped : Drive F → Bool → PendingWork F L → Bool
  only_dropped d retired e =
      retired
      && is_dropped e.failure
      && not (is_some d.loss_late)
      && is_some e.completion.validation

  -- `recovered_dropped_callback`: only the callback was lost, and all else succeeded.
  unfoldable pub recover_dropped : Drive F → Bool → PendingWork F L → Bool × PendingWork F L
  recover_dropped d retired e =
      let (o, s) = validation_status poll_future e.completion in
      if only_dropped d retired e then (is_done o, record e { completion = s }) else (false, e)

  unfoldable pub commit_recovered : Bool → PendingWork F L → PendingWork F L × List (Event L)
  commit_recovered recovered e = if recovered && not e.committed then commit e else (e, [])

  -- The `n`-th round of the loop: the entry, its hooks and its outcome.
  unfoldable pub visit :
      Drive F → Bool → ℕ → PendingWork F L → Option Outcome × PendingWork F L × List (Event L)
  visit d queue_empty n e =
      let (e₁, hooks) = commit_accepted e in
      let (o, e₂) = note_failure d queue_empty n e₁ in
      let (retired, e₃) = retire d queue_empty e₂ in
      let (recovered, e₄) = recover_dropped d retired e₃ in
      let (e₅, hooks') = commit_recovered recovered e₄ in
      (settling e₅.failure recovered retired o, e₅, hooks ++ hooks')
