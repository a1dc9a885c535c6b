-- ===== src/Wait/Validation.antt =====
-- `Validation` (src/wait.rs): the futures of popped error scopes, and trees of them. A future is
-- not the crate's code: `poll_future` says what one poll of it gives. A poll takes the future out of
-- its state and puts it back: here nobody else polls the same scope meanwhile. A tree is polled from
-- left to right.
use Prim.Native.String.{String, ◌++◌ as concat}
use gpu_info_rs.Prelude.{Bool, true, false, Option, none, some, ok, err}
use gpu_info_rs.Wait.Error.{WaitError, submit_rejected, Outcome, done}

-- The result of `catch_unwind(|| future.poll(cx))`: an error is given as its text.
pub data FuturePoll (F : Type 0) : Type 0 where
  ready : Option String → FuturePoll F
  pending : F → FuturePoll F
  panicked : String → FuturePoll F

pub record ValidationState (F : Type 0) : Type 0 where
  pub future : Option F
  pub outcome : Option Outcome

mutual
  pub data Validation (F : Type 0) : Type 0 where
    future : ValidationState F → Validation F
    all : Validations F → Validation F

  -- `Vec<Arc<Validation>>`.
  pub data Validations (F : Type 0) : Type 0 where
    nil : Validations F
    cons : Validation F → Validations F → Validations F

abbrev pub new : {F : Type 0} → F → Validation F
new f = future (record { future = some f; outcome = none })

-- A settled scope: accepted, or rejected with the error's text.
abbrev pub verdict : Option String → Outcome
verdict none = done
verdict (some text) = err (submit_rejected text)

abbrev settle : {F : Type 0} → FuturePoll F → Option Outcome × ValidationState F
settle (ready e) = (some (verdict e), record { future = none; outcome = some (verdict e) })
settle (pending f) = (none, record { future = some f; outcome = none })
settle (panicked message) =
    let o = err (submit_rejected (concat "error-scope polling panicked: " message)) in
    (some o, record { future = none; outcome = some o })

-- The two variables of `poll_all`'s loop after one more poll, and its result.
abbrev pub first_failure : Option WaitError → Option Outcome → Option WaitError
first_failure (some e) o = some e
first_failure none none = none
first_failure none (some (ok _)) = none
first_failure none (some (err e)) = some e

abbrev pub still_pending : Bool → Option Outcome → Bool
still_pending waiting none = true
still_pending waiting (some o) = waiting

abbrev pub conclude : Bool → Option WaitError → Option Outcome
conclude true failure = none
conclude false none = some done
conclude false (some e) = some (err e)

module _ {F : Type 0} (poll_future : F → FuturePoll F) where
  unfoldable pub poll_state : ValidationState F → Option Outcome × ValidationState F
  poll_state s = elim s.outcome [
    | some o ↦ (some o, s)
    | none ↦ elim s.future [ none ↦ (none, s) | some f ↦ settle (poll_future f) ]
  ]

  -- `Validation::poll`, and the loop of `Validation::poll_all`.
  unfoldable mutual
    pub poll : Validation F → Option Outcome × Validation F
    poll (future s) = let (o, s') = poll_state s in (o, future s')
    poll (all vs) = let (o, vs') = poll_loop vs false none in (o, all vs')

    pub poll_loop : Validations F → Bool → Option WaitError → Option Outcome × Validations F
    poll_loop nil waiting failure = (conclude waiting failure, nil)
    poll_loop (cons v vs) waiting failure =
        let (o, v') = poll v in
        let (r, vs') = poll_loop vs (still_pending waiting o) (first_failure failure o) in
        (r, cons v' vs')

  abbrev pub poll_all : Validations F → Option Outcome × Validations F
  poll_all vs = poll_loop vs false none
