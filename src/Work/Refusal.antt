-- ===== src/Work/Refusal.antt =====
-- The bound of the queue, and what a refusal of `try_submit` leaves (src/wait/work.rs).
use Prim.Native.String.{String}
use gpu_info_rs.Prelude.{
  ℕ, suc, ◌+◌, ◌≤◌, ◌≡◌, ◌≢◌, refl, ◌⊎◌, inl, inr, Bool, true, false, not, ◌&&◌, Option, none, some,
  List, [], ◌∷◌, Result, ok, err, arith, Bool-cases, Option-cases, ◌==◌, length, length-append,
}
use gpu_info_rs.Wait.Error.{PollError, WaitError, poll_panicked, Outcome}
use gpu_info_rs.Wait.Validation.{FuturePoll, Validations, poll_all}
use gpu_info_rs.Wait.Submission.{Submission, poll_device, validation_status}
use gpu_info_rs.Work.State.{Event, RecordedWork, PendingWork, WorkQueue, Drive}
use gpu_info_rs.Work.Entry.{visit}
use gpu_info_rs.Work.Collect.{
  Settled, settle, collect_loop, after_poll, or_lost, terminal_loss, collect,
}
use gpu_info_rs.Work.Acceptance.{handed_back}
use gpu_info_rs.Work.Submit.{
  WorkSubmitError, Push, pushed, entry_of, after_scopes, after_push, push_work, guarded,
  after_collect, try_submit,
}

module _ {ℓ} {F : Type 0} {L : Type ℓ} (poll_future : F → FuturePoll F) where
  -- The queue retains no more submissions than its capacity.
  abbrev pub Bounded : WorkQueue F L → Type 0
  Bounded q = length q.pending ≤ q.capacity

  -- The entries that stay and the settled ones make up all entries.
  settle-count :
      (o : Option Outcome) (e : PendingWork F L) (hooks : List (Event L)) (rest : Settled F L)
      → let s = settle poll_future (o, e, hooks) rest in
        length s.kept + s.count ≡ suc (length rest.kept + rest.count)
  settle-count none e hooks rest = omega arith
  settle-count (some o) e hooks rest = omega arith

  pub collect_loop-count :
      (d : Drive F) (queue_empty : Bool) (n : ℕ) (es : List (PendingWork F L))
      → let s = collect_loop poll_future d queue_empty n es in length s.kept + s.count ≡ length es
  unfolding collect_loop
  collect_loop-count d queue_empty n [] = refl
  collect_loop-count d queue_empty n (e ∷ es) =
      let (o, e', hooks) = visit poll_future d queue_empty n e in
      let rest = collect_loop poll_future d queue_empty (suc n) es in
      omega (arith, settle-count o e' hooks rest, collect_loop-count d queue_empty (suc n) es)

  after_poll-shrinks :
      (d : Drive F) (r : Result Bool WaitError) (q : WorkQueue F L)
      → let q' = (after_poll poll_future d r q).1 in
        (length q'.pending ≤ length q.pending)
        × (q'.capacity ≡ q.capacity)
        × (q'.context ≡ q.context)
  after_poll-shrinks d (err (poll_panicked m)) q = (omega arith, refl, refl)
  after_poll-shrinks d (err _) q = (omega arith, refl, refl)
  after_poll-shrinks d (ok empty) q =
      (omega (arith, collect_loop-count d (empty && not d.wasm) 0 q.pending), refl, refl)

  or_lost-shrinks :
      (loss : Option String) (q : WorkQueue F L) (r : Result ℕ WaitError × WorkQueue F L)
      → (length r.1.pending ≤ length q.pending)
        × (r.1.capacity ≡ q.capacity)
        × (r.1.context ≡ q.context)
      → let q' = (or_lost poll_future loss q r).1 in
        (length q'.pending ≤ length q.pending)
        × (q'.capacity ≡ q.capacity)
        × (q'.context ≡ q.context)
  unfolding terminal_loss
  or_lost-shrinks none q r h = h
  or_lost-shrinks (some reason) q r h = (omega arith, refl, refl)

  -- Collection retains no more than before.
  pub collect-shrinks :
      (d : Drive F) (q : WorkQueue F L)
      → let q' = (collect poll_future d q).1 in
        (length q'.pending ≤ length q.pending)
        × (q'.capacity ≡ q.capacity)
        × (q'.context ≡ q.context)
  unfolding collect
  collect-shrinks d q = or_lost-shrinks d.loss q _ (elim (Option-cases q.poll_fault) [
    | inl e ↦
        rw e (or_lost-shrinks d.loss_polled q _ (after_poll-shrinks d (poll_device d.polled) q))
    | inr (x, e) ↦ rw e (omega arith, refl, refl)
  ])

module _ {ℓ} {F : Type 0} {L : Type ℓ} (poll_future : F → FuturePoll F)
    (poll_text : PollError → String) where
  -- One entry more, at most, and no work given back.
  abbrev Pushed :
      WorkQueue F L → Result (Submission F) (WorkSubmitError F L) × WorkQueue F L → Type ℓ
  Pushed q r =
      (length r.1.pending ≤ suc (length q.pending))
      × (r.1.capacity ≡ q.capacity)
      × (handed_back r.0 ≡ none)

  after_scopes-Pushed :
      (q : WorkQueue F L) (b : Push F) (entry : PendingWork F L) (o : Option Outcome)
      (s : Submission F)
      → Pushed q (after_scopes poll_future poll_text q b entry (o, s))
  after_scopes-Pushed q b entry none s = (omega (arith, length-append {ℓ} q.pending), refl, refl)
  after_scopes-Pushed q b entry (some (ok _)) s =
      (omega (arith, length-append {ℓ} q.pending), refl, refl)
  after_scopes-Pushed q b entry (some (err x)) s =
      (omega (arith, length-append {ℓ} q.pending), refl, refl)

  after_push-Pushed :
      (q : WorkQueue F L) (b : Push F) (entry : PendingWork F L) (o : Outcome)
      → Pushed q (after_push poll_future poll_text q b entry o)
  after_push-Pushed q b entry (err e) = (omega (arith, length-append {ℓ} q.pending), refl, refl)
  after_push-Pushed q b entry (ok _) =
      let (o, s) = validation_status poll_future entry.completion in
      after_scopes-Pushed q b entry o s

  push_work-Pushed :
      (q : WorkQueue F L) (b : Push F) (work : RecordedWork F L) (o : Option Outcome)
      (vs : Validations F)
      → Pushed q (push_work poll_future poll_text q b work (o, vs))
  push_work-Pushed q b work (some (err e)) vs = (omega arith, refl, refl)
  push_work-Pushed q b work (some (ok _)) vs =
      after_push-Pushed q b (entry_of poll_future poll_text b vs work.leases) (pushed b.submitted)
  push_work-Pushed q b work none vs =
      after_push-Pushed q b (entry_of poll_future poll_text b vs work.leases) (pushed b.submitted)

  guarded-Bounded :
      (stopped full : Bool) (b : Push F) (work : RecordedWork F L) (q : WorkQueue F L)
      → (length q.pending == q.capacity) ≡ full
      → Bounded poll_future q
      → Bounded poll_future (guarded poll_future poll_text stopped full b work q).1
  guarded-Bounded true full b work q e h = h
  guarded-Bounded false true b work q e h = h
  guarded-Bounded false false b work q e h =
      let (o, vs) = poll_all poll_future work.validation in
      ground (arith, push_work-Pushed q b work o vs)

  after_collect-Bounded :
      (b : Push F) (work : RecordedWork F L) (r : Result ℕ WaitError) (q : WorkQueue F L)
      → Bounded poll_future q
      → Bounded poll_future (after_collect poll_future poll_text b work (r, q)).1
  after_collect-Bounded b work (err e) q h = h
  after_collect-Bounded b work (ok _) q h =
      guarded-Bounded q.poisoned (length q.pending == q.capacity) b work q refl h

  -- A queue within its capacity is within it after `try_submit`, whatever the call is told.
  pub try_submit-Bounded :
      (d : Drive F) (b : Push F) (work : RecordedWork F L) (q : WorkQueue F L)
      → Bounded poll_future q
      → Bounded poll_future (try_submit poll_future poll_text d b work q).1
  unfolding try_submit
  try_submit-Bounded d b work q h = elim (Bool-cases (work.context == q.context)) [
    | inl same ↦
        let (r, q') = collect poll_future d q in
        rw same
          (after_collect-Bounded b work r q' (ground (arith, collect-shrinks poll_future d q)))
    | inr foreign ↦ rw foreign h
  ]

  guarded-handed_back :
      (stopped full : Bool) (b : Push F) (work other : RecordedWork F L) (q : WorkQueue F L)
      → let (r, q') = guarded poll_future poll_text stopped full b work q in
        handed_back r ≡ some other → (other ≡ work) × (q' ≡ q)
  guarded-handed_back true full b work other q e = (ground arith, refl)
  guarded-handed_back false true b work other q e = (ground arith, refl)
  guarded-handed_back false false b work other q e =
      let (o, vs) = poll_all poll_future work.validation in
      absurd (ground (arith, (push_work-Pushed q b work o vs).2))

  after_collect-handed_back :
      (b : Push F) (work other : RecordedWork F L) (r : Result ℕ WaitError) (q : WorkQueue F L)
      → let (r', q') = after_collect poll_future poll_text b work (r, q) in
        handed_back r' ≡ some other → (other ≡ work) × (q' ≡ q)
  after_collect-handed_back b work other (err x) q e = (ground arith, refl)
  after_collect-handed_back b work other (ok _) q e =
      guarded-handed_back q.poisoned (length q.pending == q.capacity) b work other q e

  -- Work that is given back is the work that was given, and nothing of it was submitted: the queue
  -- is as it was, for work of another queue, and else as its collection left it.
  pub try_submit-handed_back :
      (d : Drive F) (b : Push F) (work other : RecordedWork F L) (q : WorkQueue F L)
      → let (r, q') = try_submit poll_future poll_text d b work q in
        handed_back r ≡ some other
        → (other ≡ work)
          × ((work.context ≢ q.context) × (q' ≡ q)
              ⊎ (work.context ≡ q.context) × (q' ≡ (collect poll_future d q).1))
  unfolding try_submit
  try_submit-handed_back d b work other q e = elim (Bool-cases (work.context == q.context)) [
    | inl same ↦
        let (r, q') = collect poll_future d q in
        let (given, left) =
          after_collect-handed_back b work other r q' (rw (same, try_submit) at e) in
        rw same (given, inr (ground arith, left))
    | inr foreign ↦
        rw foreign (ground (arith, rw (foreign, try_submit) at e), inl (ground arith, refl))
  ]
