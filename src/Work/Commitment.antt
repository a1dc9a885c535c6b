-- ===== src/Work/Commitment.antt =====
-- Is a lease told `submitted` before it is told that its work is complete (src/wait/work.rs)?
use mathlib.Core.List.{append-nil}
use gpu_info_rs.Prelude.{
  ℕ, ◌≡◌, refl, sym, ap, ◌∙◌, ◌⊎◌, inl, inr, Bool, true, false, not, ◌&&◌, Option, none, some, ok,
  err, arith, Bool-cases, List, [], ◌++◌, map, is_some, if◌then◌else◌,
}
use gpu_info_rs.Wait.Error.{Outcome, done}
use gpu_info_rs.Wait.Validation.{FuturePoll}
use gpu_info_rs.Wait.Submission.{status, validation_status}
use gpu_info_rs.Work.State.{PendingWork, Drive, Event, submitted}
use gpu_info_rs.Work.Rounds.{recover_dropped_lem, retire_lem, note_failure_lem, commit_accepted_lem}
use gpu_info_rs.Work.Entry.{
  accepts, commit_recovered, commit, commit_accepted, note_failure, retire, recover_dropped, visit,
  failed, recover,
}
use gpu_info_rs.Work.Marking.{Looked, visit_committed, retire_committed, recover_dropped_committed}

module _ {ℓ} {F : Type 0} {L : Type ℓ} (poll_future : F → FuturePoll F) where
  -- The hooks of a step: none, and the entry is as committed as it was, or each lease is told
  -- `submitted`, in order, and the entry that was not committed is.
  abbrev Told : PendingWork F L → PendingWork F L → List (Event L) → Type ℓ
  Told e e' hooks =
      (e'.committed ≡ e.committed) × (hooks ≡ [])
      ⊎ (e.committed ≡ false) × (e'.committed ≡ true) × (hooks ≡ map submitted e.leases)

  commit_accepted-Told :
      (e : PendingWork F L)
      → Told e (commit_accepted poll_future e).0 (commit_accepted poll_future e).1
  unfolding commit_accepted commit
  commit_accepted-Told e =
      elim (Bool-cases (accepts poll_future e (validation_status poll_future e.completion).0)) [
        | inl y ↦
            let new : e.committed ≡ false = ground arith in
            rw (y, commit_accepted) (inr (new, refl, refl))
        | inr y ↦ rw (y, commit_accepted) (inl (refl, refl))
      ]

  commit_recovered-Told :
      (recovered : Bool) (e : PendingWork F L)
      → let r = commit_recovered poll_future recovered e in Told e r.0 r.1
  unfolding commit_recovered commit
  commit_recovered-Told recovered e = elim (Bool-cases (recovered && not e.committed)) [
    | inl y ↦
        let new : e.committed ≡ false = ground arith in
        rw (y, commit_recovered) (inr (new, refl, refl))
    | inr y ↦ rw (y, commit_recovered) (inl (refl, refl))
  ]

  recover_committed :
      (d : Drive F) (queue_empty : Bool) (n : ℕ) (e : PendingWork F L)
      → (if queue_empty then e else recover (d.fence_signal n) (d.fence n) e).committed
        ≡ e.committed
  unfolding recover
  recover_committed d true n e = refl
  recover_committed d false n e = ground arith

  failed_committed :
      (d : Drive F) (queue_empty : Bool) (n : ℕ) (e : PendingWork F L) (o : Option Outcome)
      → (failed poll_future d queue_empty n e o).committed ≡ e.committed
  failed_committed d queue_empty n e none = refl
  failed_committed d queue_empty n e (some (ok _)) = refl
  failed_committed d queue_empty n e (some (err x)) = elim (Bool-cases (is_some e.failure)) [
    | inl old ↦ rw old refl
    | inr new ↦ rw new (recover_committed d queue_empty n (record e { failure = some x }))
  ]

  noted_committed :
      (d : Drive F) (queue_empty : Bool) (n : ℕ) (e : PendingWork F L)
      → (note_failure poll_future d queue_empty n e).1.committed ≡ e.committed
  unfolding note_failure
  noted_committed d queue_empty n e =
      let (o, s) = status poll_future d.signals e.completion in
      failed_committed d queue_empty n (record e { completion = s }) o

  -- The leases of an entry that is not committed yet are told `submitted`, each once and in order; those
  -- of a committed entry, which were told before, are not told again.
  abbrev pub ToldOnce : PendingWork F L → List (Event L) → Type ℓ
  ToldOnce e hooks =
      (e.committed ≡ false) × (hooks ≡ map submitted e.leases) ⊎ (e.committed ≡ true) × (hooks ≡ [])

  -- Two steps that commit an entry between them, and nothing else in between does.
  Told-ToldOnce :
      (e e₁ e₄ e₅ : PendingWork F L) (hooks hooks' : List (Event L))
      → Told e e₁ hooks
      → e₄.committed ≡ e₁.committed
      → e₄.leases ≡ e.leases
      → Told e₄ e₅ hooks'
      → e₅.committed ≡ true
      → ToldOnce e (hooks ++ hooks')
  Told-ToldOnce e e₁ e₄ e₅ hooks hooks' (inl (same, none_yet)) c l (inl (same', no_more)) finished =
      inr (sym same ∙ sym c ∙ sym same' ∙ finished, rw (none_yet) no_more)
  Told-ToldOnce e e₁ e₄ e₅ hooks hooks' (inl (same, none_yet)) c l (inr (unmarked, now, told))
        finished =
      inl (sym same ∙ sym c ∙ unmarked, rw (none_yet) (told ∙ ap (map submitted) l))
  Told-ToldOnce e e₁ e₄ e₅ hooks hooks' (inr (unmarked, now, told)) c l (inl (same', no_more))
        finished =
      inl (unmarked, rw (told, no_more) (append-nil (map submitted e.leases)))
  Told-ToldOnce e e₁ e₄ e₅ hooks hooks' (inr (unmarked, now, told)) c l
        (inr (unmarked', now', told')) finished =
      absurd (cc (now, c, unmarked'))

  -- If its scopes have settled when a round first looks, the round that settles an entry as a
  -- success leaves it committed; it tells each of its leases `submitted`, once and in order, if the
  -- entry was not committed before, and no lease if it was.
  pub visit-committed :
      (d : Drive F) (queue_empty : Bool) (n : ℕ) (e : PendingWork F L) (o₀ : Outcome)
      → Looked poll_future e o₀
      → (visit poll_future d queue_empty n e).0 ≡ some done
      → ((visit poll_future d queue_empty n e).1.committed ≡ true)
        × ToldOnce e (visit poll_future d queue_empty n e).2
  unfolding visit
  visit-committed d queue_empty n e o₀ looked h =
      let committed = visit_committed poll_future d queue_empty n e o₀ looked h in
      let (e₁, hooks) = commit_accepted poll_future e in
      let (o, e₂) = note_failure poll_future d queue_empty n e₁ in
      let (retired, e₃) = retire poll_future d queue_empty e₂ in
      let (recovered, e₄) = recover_dropped poll_future d retired e₃ in
      let (e₅, hooks') = commit_recovered poll_future recovered e₄ in
      let same =
        recover_dropped_committed poll_future d retired e₃
        ∙ retire_committed poll_future d queue_empty e₂
        ∙ noted_committed d queue_empty n e₁ in
      let leases =
        (recover_dropped_lem poll_future d retired e₃).0
        ∙ (retire_lem poll_future d queue_empty e₂).0
        ∙ (note_failure_lem poll_future d queue_empty n e₁).0
        ∙ (commit_accepted_lem poll_future e).0.0 in
      (
        committed,
        Told-ToldOnce e e₁ e₄ e₅ hooks hooks' (commit_accepted-Told e) same leases
            (commit_recovered-Told recovered e₄) committed,
      )
