-- ===== src/Work/Order.antt =====
-- The order of the retained submissions (src/wait/work.rs): `pending.first()` is the oldest.
use gpu_info_rs.Prelude.{
  ℕ, suc, ◌+◌, ◌≡◌, refl, Bool, Option, none, some, List, [], ◌∷◌, length, ok, err, ◌⊎◌, inl, inr,
}
use gpu_info_rs.Wait.Error.{WaitError, Outcome}
use gpu_info_rs.Wait.Validation.{FuturePoll}
use gpu_info_rs.Work.State.{PendingWork, Drive}
use gpu_info_rs.Work.Entry.{visit}
use gpu_info_rs.Work.Rounds.{visit_lem}
use gpu_info_rs.Work.Collect.{Settled, settle, collect_loop}
use gpu_info_rs.Work.Refusal.{collect_loop-count}

module _ {ℓ} {F : Type 0} {L : Type ℓ} (poll_future : F → FuturePoll F) where
  -- The first list is what the rounds of the second, from the given number on, retain, in its order:
  -- an entry is left out only when its round has an outcome, and stays, as its round leaves it, only
  -- when its round has none. Each submission is known by the address of its signal.
  pub data Thinned (d : Drive F) (queue_empty : Bool)
      : ℕ → List (PendingWork F L) → List (PendingWork F L) → Type ℓ where
    empty : {n : ℕ} → Thinned d queue_empty n [] []
    left_out :
        {n : ℕ} {e : PendingWork F L} {kept es : List (PendingWork F L)}
        → (o : Outcome) → (visit poll_future d queue_empty n e).0 ≡ some o
        → Thinned d queue_empty (suc n) kept es
        → Thinned d queue_empty n kept (e ∷ es)
    stays :
        {n : ℕ} {k e : PendingWork F L} {kept es : List (PendingWork F L)}
        → (visit poll_future d queue_empty n e).0 ≡ none
        → k ≡ (visit poll_future d queue_empty n e).1
        → k.completion.signal ≡ e.completion.signal
        → k.leases ≡ e.leases
        → Thinned d queue_empty (suc n) kept es
        → Thinned d queue_empty n (k ∷ kept) (e ∷ es)

  -- The first outcome that is an error, of the rounds from the given number on.
  pub data FirstError (d : Drive F) (queue_empty : Bool)
      : ℕ → List (PendingWork F L) → Option WaitError → Type ℓ where
    no_more : {n : ℕ} → FirstError d queue_empty n [] none
    here :
        {n : ℕ} {e : PendingWork F L} {es : List (PendingWork F L)} {x : WaitError}
        → (visit poll_future d queue_empty n e).0 ≡ some (err x)
        → FirstError d queue_empty n (e ∷ es) (some x)
    later :
        {n : ℕ} {e : PendingWork F L} {es : List (PendingWork F L)} {x : Option WaitError}
        → ((visit poll_future d queue_empty n e).0 ≡ none)
          ⊎ ((visit poll_future d queue_empty n e).0 ≡ some (ok tt))
        → FirstError d queue_empty (suc n) es x
        → FirstError d queue_empty n (e ∷ es) x

  settle-Thinned :
      (d : Drive F) (queue_empty : Bool) (n : ℕ) (e : PendingWork F L) (rest : Settled F L)
      (es : List (PendingWork F L)) (o : Option Outcome)
      → (visit poll_future d queue_empty n e).0 ≡ o
      → Thinned d queue_empty (suc n) rest.kept es
      → Thinned d queue_empty n
          (settle poll_future (visit poll_future d queue_empty n e) rest).kept
          (e ∷ es)
  settle-Thinned d queue_empty n e rest es none s t =
      let ((leases, signal), _) = visit_lem poll_future d queue_empty n e in
      rw s (stays s refl signal leases t)
  settle-Thinned d queue_empty n e rest es (some o) s t = rw s (left_out o s t)

  settle-FirstError :
      (d : Drive F) (queue_empty : Bool) (n : ℕ) (e : PendingWork F L) (rest : Settled F L)
      (es : List (PendingWork F L)) (o : Option Outcome)
      → (visit poll_future d queue_empty n e).0 ≡ o
      → FirstError d queue_empty (suc n) es rest.failure
      → FirstError d queue_empty n
          (e ∷ es)
          (settle poll_future (visit poll_future d queue_empty n e) rest).failure
  settle-FirstError d queue_empty n e rest es none s t = rw s (later (inl s) t)
  settle-FirstError d queue_empty n e rest es (some (ok u)) s t = rw s (later (inr s) t)
  settle-FirstError d queue_empty n e rest es (some (err x)) s t = rw s (here s)

  -- The loop of `collect` keeps the order of submission: what it retains is what it was given, as
  -- the rounds leave it, without the entries whose round has an outcome; its count is how many these
  -- are, and its failure is the first error among their outcomes.
  pub collect_loop-Thinned :
      (d : Drive F) (queue_empty : Bool) (n : ℕ) (es : List (PendingWork F L))
      → let s = collect_loop poll_future d queue_empty n es in
        Thinned d queue_empty n s.kept es
        × (length s.kept + s.count ≡ length es)
        × FirstError d queue_empty n es s.failure
  unfolding collect_loop
  collect_loop-Thinned d queue_empty n [] = (empty, refl, no_more)
  collect_loop-Thinned d queue_empty n (e ∷ es) =
      let rest = collect_loop poll_future d queue_empty (suc n) es in
      let (thinned, _, first) = collect_loop-Thinned d queue_empty (suc n) es in
      let o = (visit poll_future d queue_empty n e).0 in
      (
        settle-Thinned d queue_empty n e rest es o refl thinned,
        collect_loop-count poll_future d queue_empty n (e ∷ es),
        settle-FirstError d queue_empty n e rest es o refl first,
      )
