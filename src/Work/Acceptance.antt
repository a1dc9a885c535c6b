-- ===== src/Work/Acceptance.antt =====
-- What `try_submit` (src/wait/work.rs) does with the work that it is given.
use gpu_info_rs.Prelude.{
  ℕ, ◌+◌, ◌≡◌, refl, ap, inl, inr, Bool, true, false, Option, none, some, List, [], ◌∷◌, ◌++◌, map,
  Result, ok, err, arith, sum_by-append, Bool-cases, ◌==◌, length,
}
use gpu_info_rs.Wait.Error.{PollError, WaitError, Outcome}
use gpu_info_rs.Wait.Validation.{FuturePoll, Validations, poll_all}
use gpu_info_rs.Wait.Submission.{Submission, validation_status}
use gpu_info_rs.Work.State.{Event, submitted, RecordedWork, PendingWork, WorkQueue, Drive, aborts}
use gpu_info_rs.Work.Entry.{recover, commit}
use gpu_info_rs.Work.Rounds.{recover_lem, map-submitted}
use gpu_info_rs.Work.Collect.{collect}
use gpu_info_rs.Work.Conservation.{
  weigh, closed, retained, accounted, closed-submitted, closed-aborts, closed-append,
  collect-accounted,
}
use gpu_info_rs.Work.Submit.{
  WorkSubmitError, busy, queue_mismatch, is_poisoned, poll, submit_panicked, rejected, Push, pushed,
  with_entry, poisoning, entry_of, failing, after_scopes, after_push, guarded, push_work,
  after_collect, try_submit,
}

module _ {ℓ} {F : Type 0} {L : Type ℓ} where
  -- The work that a refusal gives back.
  abbrev pub handed_back : Result (Submission F) (WorkSubmitError F L) → Option (RecordedWork F L)
  handed_back (ok s) = none
  handed_back (err (busy work)) = some work
  handed_back (err (queue_mismatch work)) = some work
  handed_back (err (is_poisoned work)) = some work
  handed_back (err (poll e work)) = some work
  handed_back (err (submit_panicked message)) = none
  handed_back (err (rejected message)) = none

  abbrev pub leases_of : Option (RecordedWork F L) → List L
  leases_of none = []
  leases_of (some work) = work.leases

module _ {ℓ} {F : Type 0} {L : Type ℓ} (weight : L → ℕ) (poll_future : F → FuturePoll F)
    (poll_text : PollError → Prim.Native.String.String) where
  -- All leases of the queue and of the work given back are those of before and of the new work.
  abbrev pub Accounts :
      WorkQueue F L → List L → Result (Submission F) (WorkSubmitError F L) × WorkQueue F L → Type 0
  Accounts q leases r =
      accounted weight r.1 + weigh weight (leases_of (handed_back r.0))
      ≡ accounted weight q + weigh weight leases

  retained-snoc :
      (es : List (PendingWork F L)) (e : PendingWork F L)
      → retained weight (es ++ e ∷ []) ≡ retained weight es + weigh weight e.leases
  retained-snoc es e = omega (arith, sum_by-append (λ e. weigh weight e.leases) es (e ∷ []))

  failing-accounts :
      (q : WorkQueue F L) (b : Push F) (entry : PendingWork F L) (x : WaitError)
      → accounted weight
            (poisoning poll_future poll_text q (failing poll_future poll_text b x entry))
          + 0
        ≡ accounted weight q + weigh weight entry.leases
  failing-accounts q b entry x =
      let entry' : PendingWork F L = record entry { failure = some x } in
      omega (
        arith,
        retained-snoc q.pending (recover b.fence_signal b.fence entry'),
        ap (weigh weight) (recover_lem poll_future b.fence_signal b.fence entry').0,
      )

  with_entry-accounts :
      (q : WorkQueue F L) (entry : PendingWork F L) (hooks : List (Event L))
      → closed weight hooks ≡ 0
      → accounted weight (with_entry poll_future poll_text q entry hooks) + 0
        ≡ accounted weight q + weigh weight entry.leases
  with_entry-accounts q entry hooks h =
      omega (arith, retained-snoc q.pending entry, closed-append weight q.hooks hooks)

  after_scopes-Accounts :
      (q : WorkQueue F L) (b : Push F) (entry : PendingWork F L) (o : Option Outcome)
      (s : Submission F)
      → Accounts q entry.leases (after_scopes poll_future poll_text q b entry (o, s))
  unfolding commit
  after_scopes-Accounts q b entry none s =
      with_entry-accounts q (record entry { completion = s }) [] refl
  after_scopes-Accounts q b entry (some (ok _)) s =
      with_entry-accounts q (record entry { completion = s; committed = true })
        (map submitted entry.leases) (closed-submitted weight _ (map-submitted entry.leases))
  after_scopes-Accounts q b entry (some (err x)) s =
      failing-accounts q b (record entry { completion = s }) x

  after_push-Accounts :
      (q : WorkQueue F L) (b : Push F) (entry : PendingWork F L) (o : Outcome)
      → Accounts q entry.leases (after_push poll_future poll_text q b entry o)
  unfolding commit
  after_push-Accounts q b entry (err e) = failing-accounts q b entry e
  after_push-Accounts q b entry (ok _) =
      let (o, s) = validation_status poll_future entry.completion in
      after_scopes-Accounts q b entry o s

  push_work-Accounts :
      (q : WorkQueue F L) (b : Push F) (work : RecordedWork F L) (o : Option Outcome)
      (vs : Validations F)
      → Accounts q work.leases (push_work poll_future poll_text q b work (o, vs))
  push_work-Accounts q b work (some (err e)) vs =
      omega
        (arith, closed-append weight q.hooks (aborts work.leases), closed-aborts weight work.leases)
  push_work-Accounts q b work (some (ok _)) vs =
      after_push-Accounts q b (entry_of poll_future poll_text b vs work.leases) (pushed b.submitted)
  push_work-Accounts q b work none vs =
      after_push-Accounts q b (entry_of poll_future poll_text b vs work.leases) (pushed b.submitted)

  guarded-Accounts :
      (stopped full : Bool) (b : Push F) (work : RecordedWork F L) (q : WorkQueue F L)
      → Accounts q work.leases (guarded poll_future poll_text stopped full b work q)
  guarded-Accounts true full b work q = refl
  guarded-Accounts false true b work q = refl
  guarded-Accounts false false b work q =
      let (o, vs) = poll_all poll_future work.validation in push_work-Accounts q b work o vs

  after_collect-Accounts :
      (b : Push F) (work : RecordedWork F L) (r : Result ℕ WaitError) (q : WorkQueue F L)
      → Accounts q work.leases (after_collect poll_future poll_text b work (r, q))
  after_collect-Accounts b work (err e) q = refl
  after_collect-Accounts b work (ok _) q =
      guarded-Accounts q.poisoned (length q.pending == q.capacity) b work q

  -- `try_submit` accounts for every lease of the queue and of the work, on each of its returns: it
  -- gives the work back whole, or retains its leases, or closes each once.
  pub try_submit-Accounts :
      (d : Drive F) (b : Push F) (work : RecordedWork F L) (q : WorkQueue F L)
      → Accounts q work.leases (try_submit poll_future poll_text d b work q)
  unfolding try_submit
  try_submit-Accounts d b work q = elim (Bool-cases (work.context == q.context)) [
    | inl same ↦
        let (r, q') = collect poll_future d q in
        rw same (
          omega
            (arith, after_collect-Accounts b work r q', collect-accounted weight poll_future d q))
    | inr foreign ↦ rw foreign refl
  ]
