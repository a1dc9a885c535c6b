-- ===== src/Work/Deadline.antt =====
-- `WorkQueue::wait_for_slots` (src/wait/work.rs) does not wait for ever.
use gpu_info_rs.Prelude.{
  ℕ, ◌≡◌, refl, ◌⊎◌, inl, inr, Bool, true, false, ◌||◌, Option, some, List, [], ◌∷◌, Result, ok,
  err, arith, Bool-cases, add64,
}
use gpu_info_rs.Wait.Error.{WaitError}
use gpu_info_rs.Wait.Validation.{FuturePoll}
use gpu_info_rs.Work.State.{WorkQueue, Drive}
use gpu_info_rs.Work.Collect.{collect}
use gpu_info_rs.Work.Waiting.{any_expired}
use gpu_info_rs.Work.Slots.{
  Slice, max_pending, satisfied, unless_over, step_slots, slots_loop, after_first, wait_for_slots,
}

module _ {ℓ} {F : Type 0} {L : Type ℓ} (poll_future : F → FuturePoll F) where
  abbrev Returns : Option (Result ℕ WaitError × WorkQueue F L) → Type ℓ
  Returns later = (r : Result ℕ WaitError × WorkQueue F L) × (later ≡ some r)

  unless_over-Returns :
      (over : Bool) (total : ℕ) (q : WorkQueue F L)
      (later : Option (Result ℕ WaitError × WorkQueue F L))
      → (over ≡ true) ⊎ Returns later
      → Returns (unless_over poll_future over total q later)
  unless_over-Returns true total q later h = ((ok total, q), refl)
  unless_over-Returns false total q later (inl h) = absurd (ground arith)
  unless_over-Returns false total q later (inr h) = h

  step_slots-Returns :
      (next : ℕ → WorkQueue F L → Option (Result ℕ WaitError × WorkQueue F L)) (total : ℕ)
      (r : Result ℕ WaitError) (q : WorkQueue F L)
      → ((n : ℕ) → Returns (next n q))
      → Returns (step_slots poll_future next total (r, q))
  step_slots-Returns next total (ok n) q k = k (add64 total n)
  step_slots-Returns next total (err e) q k = ((err e, q), refl)

  slots_loop-Returns :
      (ss : List (Slice F)) (most total : ℕ) (q : WorkQueue F L)
      → any_expired ss ≡ true
      → Returns (slots_loop poll_future ss most total q)
  unfolding slots_loop
  slots_loop-Returns [] most total q h = absurd (ground arith)
  slots_loop-Returns (s ∷ ss) most total q h =
      let (r, q₁) = collect poll_future s.drive q in
      unless_over-Returns (satisfied poll_future most q || s.expired) total q _
        (elim (Bool-cases s.expired) [
          | inl e ↦ inl (ground arith)
          | inr e ↦ inr (
              step_slots-Returns (λ n q'. slots_loop poll_future ss most n q') total r q₁
                (λ n. slots_loop-Returns ss most n q₁ (ground arith)))
        ])

  after_first-Returns :
      (ss : List (Slice F)) (no_time : Bool) (most : ℕ) (r : Result ℕ WaitError) (q : WorkQueue F L)
      → (no_time || any_expired ss) ≡ true
      → Returns (after_first poll_future ss no_time most (r, q))
  after_first-Returns ss no_time most (err e) q h = ((err e, q), refl)
  after_first-Returns ss no_time most (ok n) q h =
      unless_over-Returns (satisfied poll_future most q || no_time) n q _
        (elim (Bool-cases no_time) [
          | inl e ↦ inl (ground arith)
          | inr e ↦ inr (slots_loop-Returns ss most n q (ground arith))
        ])

  -- `wait_for_slots` does return if it has no time, or once its time is over in one of the
  -- rounds, whatever the device does.
  pub wait_for_slots_returns :
      (d : Drive F) (ss : List (Slice F)) (no_time : Bool) (needed : ℕ) (q : WorkQueue F L)
      → (no_time || any_expired ss) ≡ true
      → (r : Result ℕ WaitError × WorkQueue F L) × (wait_for_slots poll_future d ss no_time needed q
          ≡ some r)
  unfolding wait_for_slots
  wait_for_slots_returns d ss no_time needed q h =
      let (r, q₁) = collect poll_future d q in
      after_first-Returns ss no_time (max_pending poll_future needed q) r q₁ h
