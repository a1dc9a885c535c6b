-- ===== src/Work/State.antt =====
-- The data of src/wait/work.rs. A lease is the caller's trait object: here it is a value of any
-- type, and what its hooks are told is kept as a list of events, latest last. A context is the
-- address of its `Arc`; a command buffer is a number.
use Prim.Native.String.{String}
use gpu_info_rs.Prelude.{
  ℕ, Bool, false, Option, none, List, [], ◌∷◌, ◌++◌, map, ◌==◌, if◌then◌else◌, Result, ok, err,
}
use gpu_info_rs.Wait.Error.{WaitError, Outcome}
use gpu_info_rs.Wait.Validation.{Validations, nil, cons}
use gpu_info_rs.Wait.Submission.{Submission, Signals, Polled}

-- A call of a hook of `WorkLease`.
pub data Event {ℓ} (L : Type ℓ) : Type ℓ where
  submitted : L → Event L
  completed : L → Outcome → Event L
  aborted : L → Event L

pub record RecordedWork {ℓ} (F : Type 0) (L : Type ℓ) : Type ℓ where
  pub context : ℕ
  pub commands : List ℕ
  pub leases : List L
  pub validation : Validations F

pub record PendingWork {ℓ} (F : Type 0) (L : Type ℓ) : Type ℓ where
  pub completion : Submission F
  pub leases : List L
  pub failure : Option WaitError
  pub recovery : Option (Submission F)
  pub committed : Bool

-- `hooks` is what the queue has told leases so far.
pub record WorkQueue {ℓ} (F : Type 0) (L : Type ℓ) : Type ℓ where
  pub context : ℕ
  pub pending : List (PendingWork F L)
  pub capacity : ℕ
  pub poisoned : Bool
  pub poll_fault : Option WaitError
  pub hooks : List (Event L)

unfoldable pub new {ℓ} : {F : Type 0} {L : Type ℓ} → ℕ → ℕ → WorkQueue F L
new context capacity = record {
  context = context;
  pending = [];
  capacity = capacity;
  poisoned = false;
  poll_fault = none;
  hooks = [];
}

-- What `submit_checked` gives, the panics that `checked` and its caller catch included: the scopes
-- themselves unwound, or they were popped with this future, and the operation unwound or not.
pub data Submitted (F : Type 0) : Type 0 where
  scopes_unwind : String → Submitted F
  submits : (panic : Option String) (scope : F) → Submitted F

-- All that one call of the queue is told from outside: the terminal loss that the host has reported
-- when the call begins, after its poll and during its loop, the poll, the completion signals that
-- the loop sees, and the recovery fence that each round of
-- its loop may submit, with the address of the fence's signal.
pub record Drive (F : Type 0) : Type 0 where
  pub loss : Option String
  pub polled : Polled
  -- The target is `wasm32`, where a poll says nothing of the queue.
  pub wasm : Bool
  pub loss_polled : Option String
  pub loss_late : Option String
  pub signals : Signals
  pub fence : ℕ → Submitted F
  pub fence_signal : ℕ → ℕ

abbrev pub append_validations : {F : Type 0} → Validations F → Validations F → Validations F
append_validations nil ws = ws
append_validations (cons v vs) ws = cons v (append_validations vs ws)

-- `RecordedWork::drop`, which tells each lease that its recording is gone.
abbrev pub aborts {ℓ} : {L : Type ℓ} → List L → List (Event L)
aborts = map aborted

-- `PendingWork::finish`.
abbrev pub finishes {ℓ} : {L : Type ℓ} → Outcome → List L → List (Event L)
finishes o = map (λ lease. completed lease o)

module _ {ℓ} {F : Type 0} {L : Type ℓ} where
  -- `RecordedWork::new`, from recorded commands and one lease.
  unfoldable pub record_commands : ℕ → List ℕ → L → RecordedWork F L
  record_commands context commands lease = record {
    context = context;
    commands = commands;
    leases = lease ∷ [];
    validation = nil;
  }

  -- `RecordedWork::append`: another queue's work is given back.
  unfoldable pub append :
      RecordedWork F L → RecordedWork F L → Result (RecordedWork F L) (RecordedWork F L)
  append work other =
      if work.context == other.context
      then ok (record work {
        commands = work.commands ++ other.commands;
        leases = work.leases ++ other.leases;
        validation = append_validations work.validation other.validation;
      })
      else err other
