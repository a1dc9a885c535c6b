-- ===== src/Work/Retirement.antt =====
-- When one round of `collect`'s loop settles an entry (src/wait/work.rs).
use gpu_info_rs.Prelude.{
  ℕ, ◌≡◌, refl, ◌⊎◌, inl, inr, Bool, true, false, not, ◌&&◌, some, arith, Bool-cases, if◌then◌else◌,
}
use gpu_info_rs.Wait.Error.{WaitError}
use gpu_info_rs.Wait.Validation.{FuturePoll}
use gpu_info_rs.Work.State.{PendingWork, Drive}
use gpu_info_rs.Work.Entry.{
  fence_done, only_dropped, commit_recovered, commit, validations_settled, recover, commit_accepted,
  note_failure, retire, recover_dropped,
}

module _ {ℓ} {F : Type 0} {L : Type ℓ} (poll_future : F → FuturePoll F) where
  -- The entry as it stands when its retirement is looked at.
  abbrev pub noted : Drive F → Bool → ℕ → PendingWork F L → PendingWork F L
  noted d queue_empty n e =
      (note_failure poll_future d queue_empty n (commit_accepted poll_future e).0).1

  -- All its error scopes have settled, and the device's queue is empty or its recovery fence passed.
  abbrev pub Retired : Drive F → Bool → PendingWork F L → Type 0
  Retired d queue_empty e =
      let (settled, e') = validations_settled poll_future e in
      (settled ≡ true)
      × ((queue_empty ≡ true) ⊎ ((fence_done poll_future d.signals e'.recovery).0 ≡ true))

  abbrev fenced_with : Drive F → Bool → ℕ → PendingWork F L → WaitError → PendingWork F L
  fenced_with d queue_empty n e x =
      let e' : PendingWork F L = record e { failure = some x } in
      if queue_empty then e' else recover (d.fence_signal n) (d.fence n) e'

  -- Later steps of the round keep the failure.
  pub retire_failure :
      (d : Drive F) (queue_empty : Bool) (e : PendingWork F L)
      → (retire poll_future d queue_empty e).1.failure ≡ e.failure
  unfolding retire validations_settled
  retire_failure d true e = ground arith
  retire_failure d false e = ground arith

  pub recover_dropped_failure :
      (d : Drive F) (retired : Bool) (e : PendingWork F L)
      → (recover_dropped poll_future d retired e).1.failure ≡ e.failure
  unfolding recover_dropped
  recover_dropped_failure d retired e = elim (Bool-cases (only_dropped poll_future d retired e)) [
    | inl h ↦ rw (h, recover_dropped) refl
    | inr h ↦ rw (h, recover_dropped) refl
  ]

  pub commit_recovered_failure :
      (recovered : Bool) (e : PendingWork F L)
      → (commit_recovered poll_future recovered e).0.failure ≡ e.failure
  unfolding commit_recovered commit
  commit_recovered_failure recovered e = elim (Bool-cases (recovered && not e.committed)) [
    | inl h ↦ rw (h, commit_recovered) refl
    | inr h ↦ rw (h, commit_recovered) refl
  ]
