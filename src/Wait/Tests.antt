-- ===== src/Wait/Tests.antt =====
-- Runs of src/wait.rs with scopes that are numbers: `n` settles at its poll after `n` pending ones.
use gpu_info_rs.Prelude.{ℕ, zero, suc, ◌≡◌, refl, none, some, List, [], ◌∷◌, ok}
use gpu_info_rs.Wait.Error.{done}
use gpu_info_rs.Wait.Validation.{
  FuturePoll, ready, pending, Validation, future, all, nil, cons, new, poll, poll_loop, poll_state,
}
use gpu_info_rs.Wait.Settling.{poll_stable}
use gpu_info_rs.Wait.Submission.{Signals, Submission, queue_empty, progressed, Round, Checked}

abbrev countdown : ℕ → FuturePoll ℕ
countdown zero = ready none
countdown (suc n) = pending n

abbrev settled : Validation ℕ
settled = future (record { future = none; outcome = some done })

abbrev pair : Validation ℕ
pair = all (cons (new 0) (cons settled nil))

abbrev signals : Signals
signals n = some done

abbrev submission : Submission ℕ
submission = record { signal = 3; validation = some pair }

abbrev rounds : List Round
rounds =
    record { signal = none; polled = progressed }
    ∷ record { signal = some done; polled = queue_empty }
    ∷ []

poll_stable_example :
    poll countdown (all (cons settled (cons settled nil)))
    ≡ (some done, all (cons settled (cons settled nil)))
unfolding poll poll_loop poll_state
poll_stable_example = poll_stable countdown pair (all (cons settled (cons settled nil))) done refl

abbrev checked : Checked ℕ ℕ
checked = record { value = some (ok 41); validation = new 0 }
