-- ===== src/Wait/Observation.antt =====
-- What observers of submissions and of checked operations (src/wait.rs) may conclude.
use gpu_info_rs.Prelude.{
  ◌≡◌, refl, ap, ◌∙◌, Bool, ◌⊎◌, inl, inr, Option, none, some, List, [], ◌∷◌, ◌++◌, Result, ok, err,
  arith, All, Option-cases, Result-cases,
}
use gpu_info_rs.Wait.Error.{WaitError, dropped, Outcome, done}
use gpu_info_rs.Wait.Validation.{FuturePoll, Validation, poll}
use gpu_info_rs.Wait.Submission.{
  Signals, finish, Submission, and_then, poll_device, Round, Checked, outcome, status, poll_checked,
  block,
}

-- Of all that a callback and its drop report, a signal keeps the first.
pub reported : Option Outcome → List Outcome → Option Outcome
reported s [] = s
reported s (o ∷ os) = reported (finish s o) os

pub reported_first : (o : Outcome) (os : List Outcome) → reported none (o ∷ os) ≡ some o
unfolding reported finish
reported_first o [] = refl
reported_first o (o' ∷ os) = reported_first o os

module _ {F : Type 0} (poll_future : F → FuturePoll F) where
  -- The scopes of the submission, if it has any, accept at this look.
  abbrev pub Accepted : Option (Validation F) → Type 0
  Accepted none = Unit
  Accepted (some v) = (poll poll_future v).0 ≡ some done

  -- What the scopes of the submission report at this look.
  abbrev pub scopes_report : Option (Validation F) → Option Outcome
  scopes_report none = none
  scopes_report (some v) = (poll poll_future v).0

  outcome_done :
      (signal : Option Outcome) (v : Option (Validation F))
      → (outcome poll_future signal v).0 ≡ some done
      → (signal ≡ some done) × Accepted v
  unfolding outcome
  outcome_done signal none e = (e, tt)
  outcome_done signal (some v) e = ground arith

  outcome_reports :
      (signal : Option Outcome) (v : Option (Validation F)) (o : Outcome)
      → (outcome poll_future signal v).0 ≡ some o
      → (o ≡ done) × (signal ≡ some done) × Accepted v
        ⊎ ((e : WaitError) × (o ≡ err e)
            × ((signal ≡ some (err e)) ⊎ ((scopes_report v) ≡ some (err e))))
  unfolding outcome
  outcome_reports (some (ok _)) none o e = ground arith
  outcome_reports (some (err _)) none o e = ground arith
  outcome_reports none none o e = cc
  outcome_reports signal (some v) o e = ground arith

  -- A submission reports success only when its callback has, and its error scopes accept; it reports
  -- a failure only when one of the two failed.
  pub status_reports :
      (signals : Signals) (s : Submission F) (o : Outcome)
      → (status poll_future signals s).0 ≡ some o
      → (o ≡ done) × (signals s.signal ≡ some done) × Accepted s.validation
        ⊎ ((e : WaitError) × (o ≡ err e)
            × ((signals s.signal ≡ some (err e)) ⊎ (scopes_report s.validation ≡ some (err e))))
  unfolding status
  status_reports signals s o e = outcome_reports (signals s.signal) s.validation o e

  -- Until the error scopes settle, a checked operation that still has its value shows nothing and
  -- keeps it; then it gives it once, or the scopes' error in its place, and the next poll reports
  -- `dropped`.
  pub poll_checked_once {ℓ} :
      {A : Type ℓ} (c : Checked F A) (value : Result A WaitError)
      → c.value ≡ some value
      → let (r, c') = poll_checked poll_future c in
        ((poll poll_future c.validation).0 ≡ none) × (r ≡ none) × (c'.value ≡ some value)
        ⊎ ((o : Outcome) × ((poll poll_future c.validation).0 ≡ some o)
            × (r ≡ some (and_then o value))
            × ((poll_checked poll_future c').0 ≡ some (err dropped)))
  unfolding poll_checked
  poll_checked_once c value e = elim (Option-cases (poll poll_future c.validation).0) [
    | inl n ↦ inl (n, ground arith, ground arith)
    | inr (o, y) ↦ inr (o, y, ground arith, ground arith)
  ]

  -- `wait` returns success only after a look at which the callback had reported success.
  pub block-done :
      (rounds : List Round) (v : Option (Validation F))
      → block poll_future rounds v ≡ some done
      → (before : List Round) × (r : Round) × (after : List Round) × (rounds ≡ before ++ r ∷ after)
        × (r.signal ≡ some done)
  unfolding block
  block-done [] v e = cc
  block-done (r ∷ rounds) v e = elim (Option-cases (outcome poll_future r.signal v).0) [
    | inl n ↦ elim (Result-cases (poll_device r.polled)) [
      | inl (b, y) ↦
          let (before, r', after, split, found) =
            block-done rounds (outcome poll_future r.signal v).1 (rw (n, y, block) at e) in
          (r ∷ before, r', after, ap (λ rs. r ∷ rs) split, found)
      | inr (x, y) ↦ absurd (ground arith)
    ]
    | inr (o, y) ↦ ([], r, rounds, refl, (outcome_done r.signal v (y ∙ (rw (y, block) at e))).0)
  ]

  -- The wait on a submission without scopes returns at the first look that finds an outcome, and
  -- with that outcome, if the device polls before it succeed.
  pub block_returns :
      (before after : List Round) (r : Round) (o : Outcome)
      → All (λ (b : Round). (b.signal ≡ none) × ((q : Bool) × (poll_device b.polled ≡ ok q))) before
      → r.signal ≡ some o
      → block poll_future (before ++ r ∷ after) none ≡ some o
  unfolding block outcome
  block_returns [] after r o h e = ground arith
  block_returns (b ∷ before) after r o ((n, (q, y)), h) e =
      rw (n, y, block, outcome) (block_returns before after r o h e)
