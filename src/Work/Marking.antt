-- ===== src/Work/Marking.antt =====
-- A round of `collect` (src/wait/work.rs) that settles an entry as a success leaves it committed.
use gpu_info_rs.Prelude.{
  ℕ, ◌≡◌, refl, sym, ap, ◌∙◌, ◌⊎◌, inl, inr, Bool, true, false, not, ◌&&◌, Option, none, some, ok,
  err, arith, Bool-cases,
}
use gpu_info_rs.Wait.Error.{WaitError, Outcome, done}
use gpu_info_rs.Wait.Validation.{FuturePoll, Validation, poll}
use gpu_info_rs.Wait.Settling.{poll_stable}
use gpu_info_rs.Wait.Submission.{Submission, Signals, status, validation_status, outcome, gated}
use gpu_info_rs.Work.State.{PendingWork, Drive}
use gpu_info_rs.Work.Entry.{
  is_done, accepts, only_dropped, commit_recovered, commit, validations_settled, commit_accepted,
  note_failure, retire, recover_dropped, settling, visit,
}
use gpu_info_rs.Work.Retirement.{retire_failure, recover_dropped_failure, commit_recovered_failure}

settling-done :
    (failure : Option WaitError) (recovered retired : Bool) (o : Option Outcome)
    → settling failure recovered retired o ≡ some done
    → (recovered ≡ true) ⊎ ((failure ≡ none) × (o ≡ some done))
settling-done none recovered retired o e = inr (refl, e)
settling-done (some y) true retired o e = inl refl
settling-done (some y) false true o e = cc
settling-done (some y) false false o e = cc

gated-done : (o : Outcome) (signal : Option Outcome) → gated (some o) signal ≡ some done → o ≡ done
gated-done (ok _) signal e = refl
gated-done (err x) signal e = cc

module _ {F : Type 0} (poll_future : F → FuturePoll F) where
  -- A second look at the scopes sees what the first saw.
  status_twice :
      (signals : Signals) (s : Submission F) (v : Validation F) (o : Outcome)
      → s.validation ≡ some v
      → (poll poll_future v).0 ≡ some o
      → ((validation_status poll_future s).0 ≡ some o)
        × ((status poll_future signals (validation_status poll_future s).1).0
            ≡ gated (some o) (signals s.signal))
  unfolding validation_status status outcome
  status_twice signals s v o e h =
      let stable =
        poll_stable poll_future v (poll poll_future v).1 o
          (ap (λ r. (r, (poll poll_future v).1)) h) in
      (ground arith, ground arith)

module _ {ℓ} {F : Type 0} {L : Type ℓ} (poll_future : F → FuturePoll F) where
  -- The scopes of the entry's submission have settled at a look at them.
  abbrev pub Looked : PendingWork F L → Outcome → Type 0
  Looked e o =
      (v : Validation F) × (e.completion.validation ≡ some v) × ((poll poll_future v).0 ≡ some o)

  commit_accepted_committed :
      (e : PendingWork F L) (o : Option Outcome)
      → (validation_status poll_future e.completion).0 ≡ o
      → is_done o ≡ true
      → (commit_accepted poll_future e).0.failure ≡ none
      → (commit_accepted poll_future e).0.committed ≡ true
  unfolding commit_accepted commit
  commit_accepted_committed e o h d f =
      elim (Bool-cases (accepts poll_future e (validation_status poll_future e.completion).0)) [
        | inl y ↦ rw (y, commit_accepted) refl
        | inr y ↦
            let f' : e.failure ≡ none = rw (y, commit_accepted) at f in
            rw (y, commit_accepted) (ground (arith, h, d, f', y))
      ]

  -- Whether it commits or not, the round has looked at the scopes.
  commit_accepted_completion :
      (e : PendingWork F L)
      → (commit_accepted poll_future e).0.completion
        ≡ (validation_status poll_future e.completion).1
  unfolding commit_accepted commit
  commit_accepted_completion e =
      elim (Bool-cases (accepts poll_future e (validation_status poll_future e.completion).0)) [
        | inl y ↦ rw (y, commit_accepted) refl
        | inr y ↦ rw (y, commit_accepted) refl
      ]

  note_failure-status :
      (d : Drive F) (queue_empty : Bool) (n : ℕ) (e : PendingWork F L)
      → (note_failure poll_future d queue_empty n e).0
        ≡ (status poll_future d.signals e.completion).0
  unfolding note_failure
  note_failure-status d queue_empty n e = refl

  note_failure_committed :
      (d : Drive F) (queue_empty : Bool) (n : ℕ) (e : PendingWork F L)
      → (note_failure poll_future d queue_empty n e).0 ≡ some done
      → ((note_failure poll_future d queue_empty n e).1.committed ≡ e.committed)
        × ((note_failure poll_future d queue_empty n e).1.failure ≡ e.failure)
  unfolding note_failure
  note_failure_committed d queue_empty n e h = rw (h, note_failure) (refl, refl)

  pub retire_committed :
      (d : Drive F) (queue_empty : Bool) (e : PendingWork F L)
      → (retire poll_future d queue_empty e).1.committed ≡ e.committed
  unfolding retire validations_settled
  retire_committed d true e = ground arith
  retire_committed d false e = ground arith

  pub recover_dropped_committed :
      (d : Drive F) (retired : Bool) (e : PendingWork F L)
      → (recover_dropped poll_future d retired e).1.committed ≡ e.committed
  unfolding recover_dropped
  recover_dropped_committed d retired e = elim (Bool-cases (only_dropped poll_future d retired e)) [
    | inl h ↦ rw (h, recover_dropped) refl
    | inr h ↦ rw (h, recover_dropped) refl
  ]

  commit_recovered_committed :
      (recovered : Bool) (e : PendingWork F L)
      → (recovered ≡ true) ⊎ (e.committed ≡ true)
      → (commit_recovered poll_future recovered e).0.committed ≡ true
  unfolding commit_recovered commit
  commit_recovered_committed recovered e h = elim (Bool-cases (recovered && not e.committed)) [
    | inl y ↦ rw (y, commit_recovered) refl
    | inr y ↦ rw (y, commit_recovered) (ground arith)
  ]

  -- If its scopes have settled when a round first looks, an entry that the round settles as a success
  -- is committed.
  pub visit_committed :
      (d : Drive F) (queue_empty : Bool) (n : ℕ) (e : PendingWork F L) (o₀ : Outcome)
      → Looked e o₀
      → (visit poll_future d queue_empty n e).0 ≡ some done
      → (visit poll_future d queue_empty n e).1.committed ≡ true
  unfolding visit
  visit_committed d queue_empty n e o₀ (v, has, look) h =
      let e₁ = (commit_accepted poll_future e).0 in
      let (o, e₂) = note_failure poll_future d queue_empty n e₁ in
      let (retired, e₃) = retire poll_future d queue_empty e₂ in
      let (recovered, e₄) = recover_dropped poll_future d retired e₃ in
      let e₅ = (commit_recovered poll_future recovered e₄).0 in
      elim (settling-done e₅.failure recovered retired o h) [
        | inl r ↦ commit_recovered_committed recovered e₄ (inl r)
        | inr (clear, success) ↦
            let (same, fail) = note_failure_committed d queue_empty n e₁ success in
            let (first, second) = status_twice poll_future d.signals e.completion v o₀ has look in
            let seen =
              sym second
              ∙ ap (λ s. (status poll_future d.signals s).0) (sym (commit_accepted_completion e))
              ∙ sym (note_failure-status d queue_empty n e₁)
              ∙ success in
            let accepted = gated-done o₀ _ seen in
            let unfailed =
              sym fail
              ∙ sym (retire_failure poll_future d queue_empty e₂)
              ∙ sym (recover_dropped_failure poll_future d retired e₃)
              ∙ sym (commit_recovered_failure poll_future recovered e₄)
              ∙ clear in
            let committed =
              commit_accepted_committed e (some o₀) first (ap (λ o. is_done (some o)) accepted)
                unfailed in
            commit_recovered_committed recovered e₄ (
              inr (
                recover_dropped_committed d retired e₃
                ∙ retire_committed d queue_empty e₂
                ∙ same
                ∙ committed))
      ]
