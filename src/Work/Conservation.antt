-- ===== src/Work/Conservation.antt =====
-- No lease is lost or closed twice (src/wait/work.rs): each is retained by the queue, closed by one
-- `completed` or `aborted` hook, or given back with its work. The lemmas count the leases by any
-- weight; the weight that is 1 at one lease and 0 elsewhere counts that lease.
use Prim.Native.String.{String}
use gpu_info_rs.Prelude.{
  ℕ, suc, ◌+◌, ◌≡◌, refl, ap, inl, inr, Bool, not, ◌&&◌, Option, none, some, List, [], ◌∷◌, ◌++◌,
  Result, ok, err, arith, All, sum_by, sum_by-append, Option-cases,
}
use gpu_info_rs.Wait.Error.{WaitError, poll_panicked, device_lost, Outcome}
use gpu_info_rs.Wait.Validation.{FuturePoll}
use gpu_info_rs.Wait.Submission.{poll_device}
use gpu_info_rs.Work.State.{
  Event, submitted, completed, aborted, PendingWork, WorkQueue, Drive, aborts, finishes,
}
use gpu_info_rs.Work.Entry.{visit}
use gpu_info_rs.Work.Rounds.{IsSubmitted, visit_lem}
use gpu_info_rs.Work.Collect.{
  Settled, finish_all, terminal_loss, settle, collect_loop, after_poll, or_lost, collect,
}

module _ {ℓ} {L : Type ℓ} (weight : L → ℕ) where
  abbrev pub weigh : List L → ℕ
  weigh = sum_by weight

  -- The leases that hooks have closed.
  abbrev pub closing : Event L → ℕ
  closing (submitted l) = 0
  closing (completed l o) = weight l
  closing (aborted l) = weight l

  abbrev pub closed : List (Event L) → ℕ
  closed = sum_by closing

  abbrev pub retained : {F : Type 0} → List (PendingWork F L) → ℕ
  retained = sum_by (λ e. weigh e.leases)

  -- All leases that the queue has answered or still answers for.
  abbrev pub accounted : {F : Type 0} → WorkQueue F L → ℕ
  accounted q = retained q.pending + closed q.hooks

  pub closed-submitted : (hooks : List (Event L)) → All IsSubmitted hooks → closed hooks ≡ 0
  closed-submitted [] h = refl
  closed-submitted (submitted l ∷ hooks) h = omega (arith, closed-submitted hooks h.1)
  closed-submitted (completed l o ∷ hooks) h = absurd h.0
  closed-submitted (aborted l ∷ hooks) h = absurd h.0

  pub closed-finishes : (o : Outcome) (ls : List L) → closed (finishes o ls) ≡ weigh ls
  closed-finishes o [] = refl
  closed-finishes o (l ∷ ls) = omega (arith, closed-finishes o ls)

  pub closed-aborts : (ls : List L) → closed (aborts ls) ≡ weigh ls
  closed-aborts [] = refl
  closed-aborts (l ∷ ls) = omega (arith, closed-aborts ls)

  pub closed-append : (xs ys : List (Event L)) → closed (xs ++ ys) ≡ closed xs + closed ys
  closed-append xs ys = sum_by-append closing xs ys

  closed-finish_all :
      {F : Type 0} (o : Outcome) (es : List (PendingWork F L))
      → closed (finish_all o es) ≡ retained es
  closed-finish_all o [] = refl
  closed-finish_all o (e ∷ es) = omega (
    arith,
    closed-append (finishes o e.leases) (finish_all o es),
    closed-finishes o e.leases,
    closed-finish_all o es,
  )

  module _ {F : Type 0} (poll_future : F → FuturePoll F) where
    settle-accounted :
        (o : Option Outcome) (e e' : PendingWork F L) (hooks : List (Event L)) (rest : Settled F L)
        → e'.leases ≡ e.leases
        → All IsSubmitted hooks
        → let s = settle poll_future (o, e', hooks) rest in
          retained s.kept + closed s.hooks
          ≡ weigh e.leases + (retained rest.kept + closed rest.hooks)
    settle-accounted none e e' hooks rest l h =
        omega (arith, ap weigh l, closed-append hooks rest.hooks, closed-submitted hooks h)
    settle-accounted (some o) e e' hooks rest l h = omega (
      arith,
      ap weigh l,
      closed-append hooks (finishes o e'.leases ++ rest.hooks),
      closed-append (finishes o e'.leases) rest.hooks,
      closed-finishes o e'.leases,
      closed-submitted hooks h,
    )

    collect_loop-accounted :
        (d : Drive F) (queue_empty : Bool) (n : ℕ) (es : List (PendingWork F L))
        → let s = collect_loop poll_future d queue_empty n es in
          retained s.kept + closed s.hooks ≡ retained es
    unfolding collect_loop
    collect_loop-accounted d queue_empty n [] = refl
    collect_loop-accounted d queue_empty n (e ∷ es) =
        let (o, e', hooks) = visit poll_future d queue_empty n e in
        let ((l, _), h) = visit_lem poll_future d queue_empty n e in
        let rest = collect_loop poll_future d queue_empty (suc n) es in
        omega (
          arith,
          settle-accounted o e e' hooks rest l h,
          collect_loop-accounted d queue_empty (suc n) es,
        )

    after_poll-accounted :
        (d : Drive F) (r : Result Bool WaitError) (q : WorkQueue F L)
        → accounted (after_poll poll_future d r q).1 ≡ accounted q
    after_poll-accounted d (err (poll_panicked m)) q = refl
    after_poll-accounted d (err _) q = refl
    after_poll-accounted d (ok empty) q =
        let s = collect_loop poll_future d (empty && not d.wasm) 0 q.pending in
        omega (
          arith,
          closed-append q.hooks s.hooks,
          collect_loop-accounted d (empty && not d.wasm) 0 q.pending,
        )

    or_lost-accounted :
        (loss : Option String) (q : WorkQueue F L) (r : Result ℕ WaitError × WorkQueue F L)
        → accounted r.1 ≡ accounted q
        → accounted (or_lost poll_future loss q r).1 ≡ accounted q
    unfolding terminal_loss
    or_lost-accounted none q r h = h
    or_lost-accounted (some reason) q r h = omega (
      arith,
      closed-append q.hooks (finish_all (err (device_lost reason)) q.pending),
      closed-finish_all (err (device_lost reason)) q.pending,
    )

    -- `collect` closes leases and keeps the others, whatever it is told and on each of its returns.
    pub collect-accounted :
        (d : Drive F) (q : WorkQueue F L) → accounted (collect poll_future d q).1 ≡ accounted q
    unfolding collect
    collect-accounted d q = or_lost-accounted d.loss q _ (elim (Option-cases q.poll_fault) [
      | inl e ↦
          rw e
            (or_lost-accounted d.loss_polled q _ (after_poll-accounted d (poll_device d.polled) q))
      | inr (x, e) ↦ rw e refl
    ])
