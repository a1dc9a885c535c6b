-- ===== src/Work/Rounds.antt =====
-- What one round of `collect`'s loop (src/wait/work.rs) leaves alone, and when it settles an entry.
use gpu_info_rs.Prelude.{
  ℕ, ◌≡◌, refl, ◌∙◌, inl, inr, Bool, true, false, not, ◌&&◌, Option, none, some, List, [], ◌∷◌,
  ◌++◌, map, ok, err, arith, All, Bool-cases, is_some, if◌then◌else◌,
}
use gpu_info_rs.Wait.Error.{Outcome}
use gpu_info_rs.Wait.Validation.{FuturePoll}
use gpu_info_rs.Wait.Submission.{status, validation_status}
use gpu_info_rs.Work.State.{Event, submitted, PendingWork, Submitted, scopes_unwind, submits, Drive}
use gpu_info_rs.Work.Entry.{
  accepts, failed, fence_done, retired_by, only_dropped, commit_recovered, commit,
  validations_settled, recover, commit_accepted, note_failure, retire, recover_dropped, visit,
}

-- A hook that closes no lease.
abbrev pub IsSubmitted {ℓ} : {L : Type ℓ} → Event L → Type 0
IsSubmitted (submitted l) = Unit
IsSubmitted _ = ⊥

pub map-submitted {ℓ} : {L : Type ℓ} (ls : List L) → All IsSubmitted (map submitted ls)
map-submitted [] = tt
map-submitted (l ∷ ls) = (tt, map-submitted ls)

All-append {ℓ κ} :
    {A : Type ℓ} (P : A → Type κ) (xs ys : List A) → All P xs → All P ys → All P (xs ++ ys)
All-append P [] ys h k = k
All-append P (x ∷ xs) ys h k = (h.0, All-append P xs ys h.1 k)

-- The signal of its submission and the leases of an entry.
abbrev pub SameWork {ℓ} : {F : Type 0} {L : Type ℓ} → PendingWork F L → PendingWork F L → Type ℓ
SameWork e e' = (e'.leases ≡ e.leases) × (e'.completion.signal ≡ e.completion.signal)

module _ {ℓ} {F : Type 0} {L : Type ℓ} (poll_future : F → FuturePoll F) where
  pub commit_accepted_lem :
      (e : PendingWork F L)
      → let (e', hooks) = commit_accepted poll_future e in SameWork e e' × All IsSubmitted hooks
  unfolding commit_accepted commit validation_status
  commit_accepted_lem e =
      elim (Bool-cases (accepts poll_future e (validation_status poll_future e.completion).0)) [
        | inl yes' ↦ rw (yes', commit_accepted) ((refl, refl), map-submitted e.leases)
        | inr no' ↦ rw (no', commit_accepted) ((refl, refl), tt)
      ]

  pub recover_lem :
      (signal : ℕ) (b : Submitted F) (e : PendingWork F L) → SameWork e (recover signal b e)
  unfolding recover
  recover_lem signal (scopes_unwind m) e = (refl, refl)
  recover_lem signal (submits p s) e = (refl, refl)

  fence_lem :
      (d : Drive F) (queue_empty : Bool) (n : ℕ) (e : PendingWork F L)
      → SameWork e (if queue_empty then e else recover (d.fence_signal n) (d.fence n) e)
  fence_lem d true n e = (refl, refl)
  fence_lem d false n e = recover_lem (d.fence_signal n) (d.fence n) e

  failed_lem :
      (d : Drive F) (queue_empty : Bool) (n : ℕ) (e : PendingWork F L) (o : Option Outcome)
      → SameWork e (failed poll_future d queue_empty n e o)
  failed_lem d queue_empty n e none = (refl, refl)
  failed_lem d queue_empty n e (some (ok _)) = (refl, refl)
  failed_lem d queue_empty n e (some (err x)) = elim (Bool-cases (is_some e.failure)) [
    | inl old ↦ rw old (refl, refl)
    | inr new ↦ rw new (fence_lem d queue_empty n (record e { failure = some x }))
  ]

  pub note_failure_lem :
      (d : Drive F) (queue_empty : Bool) (n : ℕ) (e : PendingWork F L)
      → SameWork e (note_failure poll_future d queue_empty n e).1
  unfolding note_failure status
  note_failure_lem d queue_empty n e =
      let (o, s) = status poll_future d.signals e.completion in
      failed_lem d queue_empty n (record e { completion = s }) o

  validations_settled_lem : (e : PendingWork F L) → SameWork e (validations_settled poll_future e).1
  unfolding validations_settled
  validations_settled_lem e = ground arith

  retired_lem :
      (d : Drive F) (queue_empty : Bool) (e : PendingWork F L)
      → let e' = (validations_settled poll_future e).1 in
        let (passed, recovery) = fence_done poll_future d.signals e'.recovery in
        SameWork e (retired_by queue_empty e' passed recovery).1
  retired_lem d true e = validations_settled_lem e
  retired_lem d false e = validations_settled_lem e

  pub retire_lem :
      (d : Drive F) (queue_empty : Bool) (e : PendingWork F L)
      → SameWork e (retire poll_future d queue_empty e).1
  unfolding retire
  retire_lem d queue_empty e = elim (Bool-cases (validations_settled poll_future e).0) [
    | inl settled ↦ rw (settled, retire) (retired_lem d queue_empty e)
    | inr open' ↦ rw (open', retire) (validations_settled_lem e)
  ]

  pub recover_dropped_lem :
      (d : Drive F) (retired : Bool) (e : PendingWork F L)
      → SameWork e (recover_dropped poll_future d retired e).1
  unfolding recover_dropped validation_status
  recover_dropped_lem d retired e = elim (Bool-cases (only_dropped poll_future d retired e)) [
    | inl yes' ↦ rw (yes', recover_dropped) (refl, refl)
    | inr no' ↦ rw (no', recover_dropped) (refl, refl)
  ]

  commit_recovered_lem :
      (recovered : Bool) (e : PendingWork F L)
      → let (e', hooks) = commit_recovered poll_future recovered e in
        SameWork e e' × All IsSubmitted hooks
  unfolding commit_recovered commit
  commit_recovered_lem recovered e = elim (Bool-cases (recovered && not e.committed)) [
    | inl yes' ↦ rw (yes', commit_recovered) ((refl, refl), map-submitted e.leases)
    | inr no' ↦ rw (no', commit_recovered) ((refl, refl), tt)
  ]

  -- A round keeps an entry's leases and its submission, and closes no lease.
  pub visit_lem :
      (d : Drive F) (queue_empty : Bool) (n : ℕ) (e : PendingWork F L)
      → let (o, e', hooks) = visit poll_future d queue_empty n e in
        SameWork e e' × All IsSubmitted hooks
  unfolding visit
  visit_lem d queue_empty n e =
      let (e₁, hooks) = commit_accepted poll_future e in
      let ((l₁, s₁), h₁) = commit_accepted_lem e in
      let (o, e₂) = note_failure poll_future d queue_empty n e₁ in
      let (l₂, s₂) = note_failure_lem d queue_empty n e₁ in
      let (retired, e₃) = retire poll_future d queue_empty e₂ in
      let (l₃, s₃) = retire_lem d queue_empty e₂ in
      let (recovered, e₄) = recover_dropped poll_future d retired e₃ in
      let (l₄, s₄) = recover_dropped_lem d retired e₃ in
      let ((l₅, s₅), h₅) = commit_recovered_lem recovered e₄ in
      (
        (l₅ ∙ l₄ ∙ l₃ ∙ l₂ ∙ l₁, s₅ ∙ s₄ ∙ s₃ ∙ s₂ ∙ s₁),
        All-append IsSubmitted hooks (commit_recovered poll_future recovered e₄).1 h₁ h₅,
      )
