-- ===== src/Wait/Settling.antt =====
-- What polls of a `Validation` (src/wait.rs) promise: a settled outcome stays, and a tree settles
-- when all of it has.
use gpu_info_rs.Prelude.{
  ◌≡◌, refl, sym, ap, ◌∙◌, not, ◌&&◌, ◌||◌, List, [], ◌∷◌, ◌++◌, Bool, true, false, Option, none,
  some, ok, err, arith,
}
use gpu_info_rs.Wait.Error.{WaitError, Outcome}
use gpu_info_rs.Wait.Validation.{
  FuturePoll, Validation, future, all, Validations, nil, cons, first_failure, still_pending,
  conclude, poll_state, poll, poll_loop,
}

-- The stored outcomes of the leaves, in order.
unfoldable mutual
  pub leaves : {F : Type 0} → Validation F → List (Option Outcome)
  leaves (future s) = s.outcome ∷ []
  leaves (all vs) = leaves_of vs

  pub leaves_of : {F : Type 0} → Validations F → List (Option Outcome)
  leaves_of nil = []
  leaves_of (cons v vs) = leaves v ++ leaves_of vs

abbrev pub all_settled : List (Option Outcome) → Bool
all_settled [] = true
all_settled (none ∷ os) = false
all_settled (some o ∷ os) = all_settled os

abbrev pub first_error : List (Option Outcome) → Option WaitError
first_error [] = none
first_error (some (err e) ∷ os) = some e
first_error (some (ok _) ∷ os) = first_error os
first_error (none ∷ os) = first_error os

abbrev or_else : Option WaitError → Option WaitError → Option WaitError
or_else none b = b
or_else (some a) b = some a

-- The outcome of several scopes: none while one is open, then the first error, if there is one.
abbrev pub combined : List (Option Outcome) → Option Outcome
combined os = conclude (not (all_settled os)) (first_error os)

all_settled-append :
    (xs ys : List (Option Outcome)) → all_settled (xs ++ ys) ≡ all_settled xs && all_settled ys
all_settled-append [] ys = refl
all_settled-append (none ∷ xs) ys = refl
all_settled-append (some o ∷ xs) ys = all_settled-append xs ys

first_error-append :
    (xs ys : List (Option Outcome))
    → first_error (xs ++ ys) ≡ or_else (first_error xs) (first_error ys)
first_error-append [] ys = refl
first_error-append (some (err e) ∷ xs) ys = refl
first_error-append (some (ok _) ∷ xs) ys = first_error-append xs ys
first_error-append (none ∷ xs) ys = first_error-append xs ys

-- One round of the loop, by the leaves of the round's scope and of the later ones.
conclude_round :
    (w : Bool) (f : Option WaitError) (o : Option Outcome) (xs ys : List (Option Outcome))
    → o ≡ combined xs
    → conclude
        (still_pending w o || not (all_settled ys))
        (or_else (first_failure f o) (first_error ys))
      ≡ conclude (w || not (all_settled (xs ++ ys))) (or_else f (first_error (xs ++ ys)))
conclude_round w f o xs ys e =
    rw (all_settled-append xs ys, first_error-append xs ys) (ground arith)

settled_parts :
    (xs ys : List (Option Outcome))
    → all_settled (xs ++ ys) ≡ true
    → (all_settled xs ≡ true) × (all_settled ys ≡ true)
settled_parts xs ys h = ground (arith, all_settled-append xs ys)

conclude_settled :
    (w : Bool) (f : Option WaitError) (xs ys : List (Option Outcome))
    → all_settled xs ≡ true
    → conclude
        (still_pending w (combined xs))
        (or_else (first_failure f (combined xs)) (first_error ys))
      ≡ conclude w (or_else f (first_error (xs ++ ys)))
conclude_settled w f xs ys h = rw (first_error-append xs ys) (ground arith)

combined_settled :
    (os : List (Option Outcome)) (o : Outcome) → combined os ≡ some o → all_settled os ≡ true
combined_settled os o e = ground arith

module _ {F : Type 0} (poll_future : F → FuturePoll F) where
  mutual
    unfolding poll poll_loop poll_state leaves leaves_of

    poll-combined :
        (v : Validation F) → (poll poll_future v).0 ≡ combined (leaves (poll poll_future v).1)
    poll-combined (future s) = ground arith
    poll-combined (all vs) = poll_loop-combined vs false none

    poll_loop-combined :
        (vs : Validations F) (w : Bool) (f : Option WaitError)
        → (poll_loop poll_future vs w f).0
          ≡ conclude
              (w || not (all_settled (leaves_of (poll_loop poll_future vs w f).1)))
              (or_else f (first_error (leaves_of (poll_loop poll_future vs w f).1)))
    poll_loop-combined nil w f = ground arith
    poll_loop-combined (cons v vs) w f =
        let o = (poll poll_future v).0 in
        poll_loop-combined vs (still_pending w o) (first_failure f o)
        ∙ conclude_round w f o (leaves (poll poll_future v).1)
            (leaves_of (poll_loop poll_future vs (still_pending w o) (first_failure f o)).1)
            (poll-combined v)

  mutual
    unfolding poll poll_loop poll_state leaves leaves_of

    poll-settled :
        (v : Validation F)
        → all_settled (leaves v) ≡ true
        → poll poll_future v ≡ (combined (leaves v), v)
    poll-settled (future s) h = ground arith
    poll-settled (all vs) h = rw (poll_loop-settled vs false none h, h)

    poll_loop-settled :
        (vs : Validations F) (w : Bool) (f : Option WaitError)
        → all_settled (leaves_of vs) ≡ true
        → poll_loop poll_future vs w f ≡ (conclude w (or_else f (first_error (leaves_of vs))), vs)
    poll_loop-settled nil w f h = ground arith
    poll_loop-settled (cons v vs) w f h =
        let (here, rest) = settled_parts (leaves v) (leaves_of vs) h in
        rw (poll-settled v here, poll_loop-settled vs _ _ rest)
          (ap (λ o. (o, cons v vs)) (conclude_settled w f (leaves v) (leaves_of vs) here))

  -- What a poll returns is the combination of the outcomes that the leaves then hold: nothing while
  -- one of them is open, then the first error in their order, or success.
  pub poll_reports :
      (v : Validation F) → let (o, v') = poll poll_future v in o ≡ combined (leaves v')
  poll_reports v = poll-combined v

  -- A settled outcome stays: once a poll gives one, every later poll gives the same and changes
  -- nothing, whatever the futures would do.
  pub poll_stable :
      (v w : Validation F) (o : Outcome)
      → poll poll_future v ≡ (some o, w)
      → poll poll_future w ≡ (some o, w)
  poll_stable v w o e =
      let reported : ◌≡◌ {A = Option Outcome} (some o) (combined (leaves w)) =
        rw e at (poll-combined v) in
      poll-settled w (combined_settled (leaves w) o (sym reported))
      ∙ ap (λ r. (r, w)) (sym reported)
