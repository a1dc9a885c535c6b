-- ===== src/Work/Submit.antt =====
-- `WorkQueue::try_submit` (src/wait/work.rs).
use Prim.Native.String.{String}
use gpu_info_rs.Prelude.{
  ℕ, Bool, true, false, Option, none, some, List, [], ◌∷◌, ◌++◌, Result, ok, err, ◌==◌,
  if◌then◌else◌, length,
}
use gpu_info_rs.Wait.Error.{PollError, WaitError, display, Outcome, done}
use gpu_info_rs.Wait.Validation.{FuturePoll, Validation, all, Validations, nil, cons, poll_all}
use gpu_info_rs.Wait.Validation
use gpu_info_rs.Wait.Submission.{Submission, validation_status}
use gpu_info_rs.Work.State.{
  Event, RecordedWork, PendingWork, WorkQueue, Submitted, scopes_unwind, submits, Drive, aborts,
  append_validations,
}
use gpu_info_rs.Work.Entry.{recover, commit}
use gpu_info_rs.Work.Collect.{collect}

pub data WorkSubmitError {ℓ} (F : Type 0) (L : Type ℓ) : Type ℓ where
  busy queue_mismatch is_poisoned : RecordedWork F L → WorkSubmitError F L
  poll : WaitError → RecordedWork F L → WorkSubmitError F L
  submit_panicked rejected : String → WorkSubmitError F L

-- What the submission itself is told from outside: the address of its signal, what `submit_checked`
-- gives, and the recovery fence that may have to follow.
pub record Push (F : Type 0) : Type 0 where
  pub signal : ℕ
  pub submitted : Submitted F
  pub fence_signal : ℕ
  pub fence : Submitted F

-- The result of the operation under its scopes.
abbrev pub pushed : {F : Type 0} → Submitted F → Outcome
pushed (scopes_unwind message) = err (WaitError.submit_panicked message)
pushed (submits none scope) = done
pushed (submits (some message) scope) = err (WaitError.submit_panicked message)

-- The scopes of the recording, and the submission's own.
abbrev pub scopes_with : {F : Type 0} → Validations F → Submitted F → Validations F
scopes_with vs (scopes_unwind message) = vs
scopes_with vs (submits panic scope) = append_validations vs (cons (Validation.new scope) nil)

-- The text of a `SubmitPanicked`, and `to_string` of any other error.
abbrev panic_text : (PollError → String) → WaitError → String
panic_text poll_text (WaitError.submit_panicked message) = message
panic_text poll_text e = display poll_text e

module _ {ℓ} {F : Type 0} {L : Type ℓ} (poll_future : F → FuturePoll F)
    (poll_text : PollError → String) where
  -- The entry of a submission, its scopes in one tree.
  abbrev pub entry_of : Push F → Validations F → List L → PendingWork F L
  entry_of b vs leases = record {
    completion = record { signal = b.signal; validation = some (all (scopes_with vs b.submitted)) };
    leases = leases;
    failure = none;
    recovery = none;
    committed = false;
  }

  abbrev pub failing : Push F → WaitError → PendingWork F L → PendingWork F L
  failing b e entry = recover b.fence_signal b.fence (record entry { failure = some e })

  abbrev pub with_entry : WorkQueue F L → PendingWork F L → List (Event L) → WorkQueue F L
  with_entry q e hooks = record q { pending = q.pending ++ e ∷ []; hooks = q.hooks ++ hooks }

  abbrev pub poisoning : WorkQueue F L → PendingWork F L → WorkQueue F L
  poisoning q e = record q { pending = q.pending ++ e ∷ []; poisoned = true }

  -- After a look at the scopes of a submission that was made.
  abbrev pub after_scopes :
      WorkQueue F L
      → Push F
      → PendingWork F L
      → Option Outcome × Submission F
      → Result (Submission F) (WorkSubmitError F L) × WorkQueue F L
  after_scopes q b entry (none, s) = (ok s, with_entry q (record entry { completion = s }) [])
  after_scopes q b entry (some (ok _), s) =
      let (e, hooks) = commit poll_future (record entry { completion = s }) in
      (ok s, with_entry q e hooks)
  after_scopes q b entry (some (err x), s) = (
    err (rejected (display poll_text x)),
    poisoning q (failing b x (record entry { completion = s })),
  )

  -- After `submit_checked`: commit, retain or recover.
  abbrev pub after_push :
      WorkQueue F L
      → Push F
      → PendingWork F L
      → Outcome
      → Result (Submission F) (WorkSubmitError F L) × WorkQueue F L
  after_push q b entry (err e) =
      (err (submit_panicked (panic_text poll_text e)), poisoning q (failing b e entry))
  after_push q b entry (ok _) =
      after_scopes q b entry (validation_status poll_future entry.completion)

  -- An encoding that its scopes reject is aborted; anything else is submitted.
  abbrev pub push_work :
      WorkQueue F L
      → Push F
      → RecordedWork F L
      → Option Outcome × Validations F
      → Result (Submission F) (WorkSubmitError F L) × WorkQueue F L
  push_work q b work (some (err e), vs) =
      (err (rejected (display poll_text e)), record q { hooks = q.hooks ++ aborts work.leases })
  push_work q b work (some (ok _), vs) =
      after_push q b (entry_of b vs work.leases) (pushed b.submitted)
  push_work q b work (none, vs) = after_push q b (entry_of b vs work.leases) (pushed b.submitted)

  -- The two guards after collection: the queue is poisoned, or it is full.
  abbrev pub guarded :
      Bool
      → Bool
      → Push F
      → RecordedWork F L
      → WorkQueue F L
      → Result (Submission F) (WorkSubmitError F L) × WorkQueue F L
  guarded true full b work q = (err (is_poisoned work), q)
  guarded false true b work q = (err (busy work), q)
  guarded false false b work q = push_work q b work (poll_all poll_future work.validation)

  abbrev pub after_collect :
      Push F
      → RecordedWork F L
      → Result ℕ WaitError × WorkQueue F L
      → Result (Submission F) (WorkSubmitError F L) × WorkQueue F L
  after_collect b work (err e, q) = (err (poll e work), q)
  after_collect b work (ok _, q) = guarded q.poisoned (length q.pending == q.capacity) b work q

  unfoldable pub try_submit :
      Drive F
      → Push F
      → RecordedWork F L
      → WorkQueue F L
      → Result (Submission F) (WorkSubmitError F L) × WorkQueue F L
  try_submit d b work q =
      if work.context == q.context
      then after_collect b work (collect poll_future d q)
      else (err (queue_mismatch work), q)
