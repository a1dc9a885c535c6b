-- ===== src/Work/Waiting.antt =====
-- What `WorkQueue::wait_for_slots` (src/wait/work.rs) answers.
use Prim.Native.String.{String}
use gpu_info_rs.Prelude.{
  ℕ, ◌+◌, ◌≡◌, inl, inr, Bool, true, false, not, ◌&&◌, ◌||◌, Option, none, some, List, [], ◌∷◌,
  Result, ok, err, Option-cases, length,
}
use gpu_info_rs.Wait.Error.{WaitError, poll_panicked}
use gpu_info_rs.Wait.Validation.{FuturePoll}
use gpu_info_rs.Wait.Submission.{poll_device}
use gpu_info_rs.Work.State.{WorkQueue, Drive}
use gpu_info_rs.Work.Collect.{
  Settled, counted, settled_queue, collect_loop, after_poll, or_lost, collect,
}
use gpu_info_rs.Work.Refusal.{collect_loop-count}
use gpu_info_rs.Work.Conservation.{accounted}
use gpu_info_rs.Work.Slots.{Slice, satisfied}

-- The time is over in one of the rounds.
abbrev pub any_expired : {F : Type 0} → List (Slice F) → Bool
any_expired [] = false
any_expired (s ∷ ss) = s.expired || any_expired ss

module _ {ℓ} {F : Type 0} {L : Type ℓ} (poll_future : F → FuturePoll F) where
  -- A success counts the submissions that were settled, out of so many.
  abbrev Counts : ℕ → Result ℕ WaitError × WorkQueue F L → Type 0
  Counts most (ok n, q) = length q.pending + n ≡ most
  Counts most (err e, q) = Unit

  counted-Counts :
      (s : Settled F L) (q : WorkQueue F L) (most : ℕ)
      → length s.kept + s.count ≡ most
      → Counts most (counted poll_future s, settled_queue poll_future q s)
  counted-Counts s q most h = elim (Option-cases s.failure) [
    | inl e ↦ rw e h
    | inr (x, e) ↦ rw e tt
  ]

  after_poll-Counts :
      (d : Drive F) (r : Result Bool WaitError) (q : WorkQueue F L)
      → Counts (length q.pending) (after_poll poll_future d r q)
  after_poll-Counts d (err (poll_panicked m)) q = tt
  after_poll-Counts d (err _) q = tt
  after_poll-Counts d (ok empty) q =
      counted-Counts (collect_loop poll_future d (empty && not d.wasm) 0 q.pending) q _
        (collect_loop-count poll_future d (empty && not d.wasm) 0 q.pending)

  or_lost-Counts :
      (loss : Option String) (q : WorkQueue F L) (r : Result ℕ WaitError × WorkQueue F L) (most : ℕ)
      → Counts most r
      → Counts most (or_lost poll_future loss q r)
  or_lost-Counts none q r most h = h
  or_lost-Counts (some reason) q r most h = tt

  -- A successful `collect` returns how many submissions it settled.
  pub collect-Counts :
      (d : Drive F) (q : WorkQueue F L) → Counts (length q.pending) (collect poll_future d q)
  unfolding collect
  collect-Counts d q = or_lost-Counts d.loss q _ _ (elim (Option-cases q.poll_fault) [
    | inl e ↦
        rw e (or_lost-Counts d.loss_polled q _ _ (after_poll-Counts d (poll_device d.polled) q))
    | inr (x, e) ↦ rw e tt
  ])

  -- An answer after `total` of `all` submissions were settled: no lease is lost; a count is that of
  -- all settled submissions, and is given only with enough slots, on a poisoned queue, or late.
  abbrev pub Answers :
      (L → ℕ) → ℕ → ℕ → Bool → WorkQueue F L → Option (Result ℕ WaitError × WorkQueue F L) → Type 0
  Answers weight all most late q none = Unit
  Answers weight all most late q (some (err e, q')) = accounted weight q' ≡ accounted weight q
  Answers weight all most late q (some (ok n, q')) =
      (accounted weight q' ≡ accounted weight q)
      × (length q'.pending + n ≡ all)
      × ((satisfied poll_future most q' || late) ≡ true)
