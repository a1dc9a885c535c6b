-- ===== src/Work/Draining.antt =====
-- What `WorkQueue::shutdown` (src/wait/work.rs) leaves behind, and when it returns.
use Prim.Native.String.{String}
use gpu_info_rs.Prelude.{
  ℕ, ◌≡◌, refl, sym, ◌∙◌, ap, ◌⊎◌, inl, inr, Bool, true, false, not, ◌&&◌, Option, none, some, List,
  [], ◌∷◌, ◌++◌, Result, ok, err, arith, Bool-cases,
}
use gpu_info_rs.Wait.Error.{WaitError, Outcome}
use gpu_info_rs.Wait.Validation.{FuturePoll}
use gpu_info_rs.Work.State.{WorkQueue, Drive}
use gpu_info_rs.Work.Collect.{terminal_loss, collect}
use gpu_info_rs.Work.Conservation.{accounted, collect-accounted}
use gpu_info_rs.Work.Shutdown.{
  is_poll_error, verdict, insert_failure, is_empty, unless_empty, unless_stuck, after_round,
  shutdown_loop, shutdown,
}

is_empty_lem {ℓ} : {A : Type ℓ} (xs : List A) → is_empty xs ≡ true → xs ≡ []
is_empty_lem [] h = refl
is_empty_lem (x ∷ xs) h = cc

kept {ℓ} :
    {A : Type ℓ} (failure : Option WaitError) (q q' : A) (o : Outcome)
    → ◌≡◌ {A = Option (Outcome × A)} (some (verdict failure, q)) (some (o, q'))
    → q ≡ q'
kept failure q q' o h = cc

stuck {ℓ} :
    {A : Type ℓ} (e : WaitError) (q q' : A) (o : Outcome)
    → ◌≡◌ {A = Option (Outcome × A)} (some (err e, q)) (some (o, q'))
    → (o ≡ err e) × (q ≡ q')
stuck e q q' o h = (cc, cc)

module _ {ℓ} {F : Type 0} {L : Type ℓ} (poll_future : F → FuturePoll F) where
  -- What a return of `shutdown` promises.
  abbrev pub Drained : (L → ℕ) → WorkQueue F L → Outcome → WorkQueue F L → Type ℓ
  Drained weight q o q' =
      (accounted weight q' ≡ accounted weight q)
      × ((q'.pending ≡ []) ⊎ ((e : WaitError) × (o ≡ err e) × (is_poll_error e ≡ true)))

  unless_empty-Drained :
      (weight : L → ℕ) (failure : Option WaitError) (q q' : WorkQueue F L) (o : Outcome)
      (later : Option (Outcome × WorkQueue F L))
      → (later ≡ some (o, q') → Drained weight q o q')
      → (t : Bool) → is_empty q.pending ≡ t
      → unless_empty poll_future t failure q later ≡ some (o, q')
      → Drained weight q o q'
  unless_empty-Drained weight failure q q' o later k true e h = (
    sym (ap (accounted weight) (kept failure q q' o h)),
    inl (ap (λ q. q.pending) (sym (kept failure q q' o h)) ∙ is_empty_lem q.pending e),
  )
  unless_empty-Drained weight failure q q' o later k false e h = k h

  after_round-Drained :
      (weight : L → ℕ) (next : Option WaitError → WorkQueue F L → Option (Outcome × WorkQueue F L))
      → ((failure : Option WaitError) (q q' : WorkQueue F L) (o : Outcome)
          → next failure q ≡ some (o, q')
          → Drained weight q o q')
      → (failure : Option WaitError) (r : Result ℕ WaitError) (q q' : WorkQueue F L) (o : Outcome)
      → after_round poll_future next failure (r, q) ≡ some (o, q')
      → Drained weight q o q'
  after_round-Drained weight next k failure (ok _) q q' o h = k failure q q' o h
  after_round-Drained weight next k failure (err e) q q' o h =
      elim (Bool-cases (not (is_empty q.pending) && is_poll_error e)) [
        | inl s ↦
            let (same, left) = stuck e q q' o (rw s at h) in
            (ap (accounted weight) (sym left), inr (e, same, ground arith))
        | inr s ↦ k (insert_failure failure e) q q' o (rw s at h)
      ]

  shutdown_loop-Drained :
      (weight : L → ℕ) (ds : List (Drive F)) (failure : Option WaitError) (q q' : WorkQueue F L)
      (o : Outcome)
      → shutdown_loop poll_future ds failure q ≡ some (o, q')
      → Drained weight q o q'
  unfolding shutdown_loop
  shutdown_loop-Drained weight [] failure q q' o h =
      unless_empty-Drained weight failure q q' o none (λ e. cc) (is_empty q.pending) refl h
  shutdown_loop-Drained weight (d ∷ ds) failure q q' o h =
      let next = λ (f : Option WaitError) (q : WorkQueue F L). shutdown_loop poll_future ds f q in
      let (r, q₁) = collect poll_future d q in
      let later = after_round poll_future next failure (r, q₁) in
      unless_empty-Drained weight failure q q' o later
        (λ e.
          let (total, left) =
            after_round-Drained weight next (shutdown_loop-Drained weight ds) failure r q₁ q' o e in
          (total ∙ collect-accounted weight poll_future d q, left))
        (is_empty q.pending) refl h

  -- When `shutdown` returns, every lease is accounted for, and no submission is pending unless it
  -- returns a poll error.
  pub shutdown-Drained :
      (weight : L → ℕ) (ds : List (Drive F)) (q q' : WorkQueue F L) (o : Outcome)
      → shutdown poll_future ds q ≡ some (o, q')
      → Drained weight q o q'
  unfolding shutdown
  shutdown-Drained weight ds q q' o h = shutdown_loop-Drained weight ds none q q' o h

  abbrev Returns : Option (Outcome × WorkQueue F L) → Type ℓ
  Returns later = (r : Outcome × WorkQueue F L) × (later ≡ some r)

  unless_empty-Returns :
      (t : Bool) (failure : Option WaitError) (q : WorkQueue F L)
      (later : Option (Outcome × WorkQueue F L))
      → Returns later
      → Returns (unless_empty poll_future t failure q later)
  unless_empty-Returns true failure q later r = ((verdict failure, q), refl)
  unless_empty-Returns false failure q later r = r

  shutdown_loop_empty :
      (ds : List (Drive F)) (failure : Option WaitError) (q : WorkQueue F L)
      → q.pending ≡ []
      → Returns (shutdown_loop poll_future ds failure q)
  unfolding shutdown_loop
  shutdown_loop_empty [] failure q h = ((verdict failure, q), rw h refl)
  shutdown_loop_empty (d ∷ ds) failure q h = ((verdict failure, q), rw h refl)

  unless_stuck-Returns :
      (t : Bool) (next : Option WaitError → WorkQueue F L → Option (Outcome × WorkQueue F L))
      (failure : Option WaitError) (e : WaitError) (q : WorkQueue F L)
      → ((f : Option WaitError) → Returns (next f q))
      → Returns (unless_stuck poll_future t next failure e q)
  unless_stuck-Returns true next failure e q k = ((err e, q), refl)
  unless_stuck-Returns false next failure e q k = k (insert_failure failure e)

  after_round-Returns :
      (next : Option WaitError → WorkQueue F L → Option (Outcome × WorkQueue F L))
      (failure : Option WaitError) (r : Result ℕ WaitError) (q : WorkQueue F L)
      → ((f : Option WaitError) → Returns (next f q))
      → Returns (after_round poll_future next failure (r, q))
  after_round-Returns next failure (ok _) q k = k failure
  after_round-Returns next failure (err e) q k =
      unless_stuck-Returns (not (is_empty q.pending) && is_poll_error e) next failure e q k

  lost-empty :
      (d : Drive F) (reason : String) (q : WorkQueue F L)
      → d.loss ≡ some reason
      → (collect poll_future d q).1.pending ≡ []
  unfolding collect terminal_loss
  lost-empty d reason q h = rw (h, collect, terminal_loss) refl

  shutdown_loop-Returns :
      (before after : List (Drive F)) (d : Drive F) (reason : String) (failure : Option WaitError)
      (q : WorkQueue F L)
      → d.loss ≡ some reason
      → Returns (shutdown_loop poll_future (before ++ d ∷ after) failure q)
  unfolding shutdown_loop
  shutdown_loop-Returns [] after d reason failure q h =
      let (r, q') = collect poll_future d q in
      unless_empty-Returns (is_empty q.pending) failure q _ (
        after_round-Returns (λ f q. shutdown_loop poll_future after f q) failure r q'
          (λ f. shutdown_loop_empty after f q' (lost-empty d reason q h)))
  shutdown_loop-Returns (b ∷ before) after d reason failure q h =
      let (r, q') = collect poll_future b q in
      unless_empty-Returns (is_empty q.pending) failure q _ (
        after_round-Returns (λ f q. shutdown_loop poll_future (before ++ d ∷ after) f q) failure r
          q' (λ f. shutdown_loop-Returns before after d reason f q' h))

  -- `shutdown` does return if the host has reported that the device is lost when one of its
  -- rounds begins, whatever the rounds before are told.
  pub shutdown_returns :
      (before after : List (Drive F)) (d : Drive F) (reason : String) (q : WorkQueue F L)
      → d.loss ≡ some reason
      → (r : Outcome × WorkQueue F L) × (shutdown poll_future (before ++ d ∷ after) q ≡ some r)
  unfolding shutdown
  shutdown_returns before after d reason q h = shutdown_loop-Returns before after d reason none q h
