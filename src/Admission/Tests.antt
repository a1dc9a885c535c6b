-- ===== src/Admission/Tests.antt =====
-- Runs of src/budget/admission.rs on a budget of 100 bytes.
use gpu_info_rs.Prelude.{ℕ, ◌+◌, ◌≤◌, ◌≡◌, ◌⊎◌, some, List, [], ◌∷◌, u64_max, ◌==◌}
use gpu_info_rs.Pool.Interface.{Pooled}
use gpu_info_rs.Admission.{used, MemoryBudget, Reservation, Charged}
use gpu_info_rs.Admission.Outcomes.{held}
use gpu_info_rs.Admission.Ledger.{Call, reserves, charges, aborts, opened, step, run}
use gpu_info_rs.Admission.Invariant.{promised, owned, opened-Inv, run-opened, step-Allowed}

-- A resource that is its own size.
abbrev sized : Pooled ℕ
sized = record { Key = ℕ; key_eq = λ a b. a == b; key = λ n. n; bytes = λ n. n }

abbrev account : ℕ → ℕ → ℕ → MemoryBudget
account reserved allocated peak = record {
  id = 7;
  usage = record { limit = some 100; reserved = reserved; allocated = allocated; peak = peak };
}

abbrev promise : ℕ → Reservation
promise n = record { budget = 7; remaining = n }

abbrev charged_10 : Charged ℕ
charged_10 = record { resource = 10; charge = record { budget = 7; bytes = 10 } }

abbrev calls : List (Call ℕ)
calls = reserves 40 ∷ charges 0 10 ∷ reserves 90 ∷ aborts 0 ∷ []

run-opened_example :
    let l = run sized (opened 7 (some 100)) calls in
    (used l.budget.usage ≡ promised l.reservations + owned l.charges)
    × (promised l.reservations + owned l.charges ≤ u64_max)
run-opened_example = run-opened sized 7 (some 100) calls

step-Allowed_example :
    let b = (step sized (opened 7 (some 100)) (reserves 40)).budget in
    (held b.usage ≤ held (opened {R = ℕ} 7 (some 100)).budget.usage)
    ⊎ ((bytes : ℕ) × (n : ℕ) × (◌≡◌ {A = Call ℕ} (reserves 40) (reserves bytes))
        × ((opened {R = ℕ} 7 (some 100)).budget.usage.limit ≡ some n)
        × (held b.usage ≡ held (opened {R = ℕ} 7 (some 100)).budget.usage + bytes)
        × (held b.usage ≤ n))
step-Allowed_example =
    step-Allowed sized (opened 7 (some 100)) (reserves 40) (opened-Inv 7 (some 100))
