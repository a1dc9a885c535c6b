-- ===== src/Wait/Submission.antt =====
-- Submissions, their completion signals and checked operations (src/wait.rs). A signal is shared by
-- a submission and its callback through an `Arc`: here it is an address, and a reader is given what
-- the signals hold when it looks.
use Prim.Native.String.{String}
use gpu_info_rs.Prelude.{ℕ, Bool, Option, none, some, List, [], ◌∷◌, Result, ok, err}
use gpu_info_rs.Wait.Error.{PollError, WaitError, poll_panicked, dropped, Outcome}
use gpu_info_rs.Wait.Validation.{FuturePoll, Validation, poll}

-- What the completion signals hold.
abbrev pub Signals : Type 0
Signals = ℕ → Option Outcome

-- `Notify::finish` on the signal: the first outcome stays. The drop of an unused callback is
-- `finish` with `dropped`.
unfoldable pub finish : Option Outcome → Outcome → Option Outcome
finish none o = some o
finish (some first) o = some first

unfoldable pub drop_notify : Option Outcome → Option Outcome
unfolding finish
drop_notify s = finish s (err dropped)

pub record Submission (F : Type 0) : Type 0 where
  pub signal : ℕ
  pub validation : Option (Validation F)

-- `Submission::pending`, with the address of its fresh signal.
abbrev pub pending : {F : Type 0} → ℕ → Submission F
pending signal = record { signal = signal; validation = none }

-- A rejection decides; acceptance leaves the completion signal to decide.
abbrev pub gated : Option Outcome → Option Outcome → Option Outcome
gated none signal = none
gated (some (ok _)) signal = signal
gated (some (err e)) signal = some (err e)

-- `Result::and`.
abbrev pub and_then {ℓ} : {A : Type ℓ} → Outcome → Result A WaitError → Result A WaitError
and_then (ok _) value = value
and_then (err e) value = err e

-- What `device.poll` gives, a panic that `catch_unwind` caught included.
pub data Polled : Type 0 where
  queue_empty progressed : Polled
  errors : PollError → Polled
  unwinds : String → Polled

-- `poll`: the flag is `PollStatus::is_queue_empty`.
unfoldable pub poll_device : Polled → Result Bool WaitError
poll_device queue_empty = ok Bool.true
poll_device progressed = ok Bool.false
poll_device (errors e) = err (WaitError.poll e)
poll_device (unwinds message) = err (poll_panicked message)

-- One round of `block`: the signal at the look, then what the device poll gives.
pub record Round : Type 0 where
  pub signal : Option Outcome
  pub polled : Polled

-- `Checked<T>`: a result that is private until its error scopes settle.
pub record Checked {ℓ} (F : Type 0) (A : Type ℓ) : Type ℓ where
  pub value : Option (Result A WaitError)
  pub validation : Validation F

module _ {F : Type 0} (poll_future : F → FuturePoll F) where
  -- `outcome`, with the scopes as the look leaves them.
  unfoldable pub outcome :
      Option Outcome → Option (Validation F) → Option Outcome × Option (Validation F)
  outcome signal none = (signal, none)
  outcome signal (some v) = let (o, v') = poll poll_future v in (gated o signal, some v')

  unfoldable pub status : Signals → Submission F → Option Outcome × Submission F
  unfolding outcome
  status signals s =
      let (o, v) = outcome (signals s.signal) s.validation in (o, record s { validation = v })

  abbrev polled_validation : Option (Validation F) → Option Outcome × Option (Validation F)
  polled_validation none = (none, none)
  polled_validation (some v) = let (o, v') = poll poll_future v in (o, some v')

  unfoldable pub validation_status : Submission F → Option Outcome × Submission F
  validation_status s =
      let (o, v) = polled_validation s.validation in (o, record s { validation = v })

  -- `Checked::poll`; `none` is `Poll::Pending`.
  unfoldable pub poll_checked {ℓ} :
      {A : Type ℓ} → Checked F A → Option (Result A WaitError) × Checked F A
  poll_checked c = elim c.value [
    | none ↦ (some (err dropped), c)
    | some value ↦
        let (o, v) = poll poll_future c.validation in
        elim o [
          | none ↦ (none, record c { validation = v })
          | some verdict ↦ (some (and_then verdict value), record { value = none; validation = v })
        ]
  ]

  -- `block`; `none` means that the rounds ran out.
  unfoldable pub block : List Round → Option (Validation F) → Option Outcome
  block [] v = none
  block (r ∷ rounds) v =
      let (o, v') = outcome r.signal v in
      let later = block rounds v' in
      elim o [
        | some result ↦ some result
        | none ↦ elim (poll_device r.polled) [ err e ↦ some (err e) | ok _ ↦ later ]
      ]
