-- ===== src/Admission/Ledger.antt =====
-- One ownership domain of src/budget/admission.rs with the handles that its clients hold: the
-- reservations and the charged resources. A call acts on the budget and on the handles at once, as
-- Rust's ownership makes it do: a reservation or a charge that is dropped is gone.
use gpu_info_rs.Prelude.{
  ℕ, Option, none, some, List, [], ◌∷◌, Result, ok, err, get_elem?, set, remove_at,
}
use gpu_info_rs.Pool.Interface.{Pooled}
use gpu_info_rs.Admission.{
  MemoryBudget, Reservation, Charged, AdmissionError, new, set_limit, reserve, charge,
  drop_reservation, drop_charge,
}

pub record Ledger {ℓ} (R : Type ℓ) : Type ℓ where
  pub budget : MemoryBudget
  pub reservations : List Reservation
  pub charges : List (Charged R)

-- The calls of the clients; handles are named by their positions.
pub data Call {ℓ} (R : Type ℓ) : Type ℓ where
  limits : Option ℕ → Call R
  reserves : ℕ → Call R
  charges : ℕ → R → Call R
  aborts : ℕ → Call R
  releases : ℕ → Call R

abbrev pub opened {ℓ} : {R : Type ℓ} → ℕ → Option ℕ → Ledger R
opened id limit = record { budget = new id limit; reservations = []; charges = [] }

module _ {ℓ} {R : Type ℓ} (p : Pooled R) where
  abbrev after_reserve : Ledger R → Result (MemoryBudget × Reservation) AdmissionError → Ledger R
  after_reserve l (ok (b, r)) = record l { budget = b; reservations = r ∷ l.reservations }
  after_reserve l (err e) = l

  abbrev after_charge :
      Ledger R → ℕ → Result (MemoryBudget × Reservation × Charged R) AdmissionError → Ledger R
  after_charge l i (ok (b, r, c)) = record {
    budget = b;
    reservations = set l.reservations i r;
    charges = c ∷ l.charges;
  }
  after_charge l i (err e) = l

  abbrev on_reservation : Option Reservation → (Reservation → Ledger R) → Ledger R → Ledger R
  on_reservation none f l = l
  on_reservation (some r) f l = f r

  abbrev on_charge : Option (Charged R) → (Charged R → Ledger R) → Ledger R → Ledger R
  on_charge none f l = l
  on_charge (some c) f l = f c

  unfoldable pub step : Ledger R → Call R → Ledger R
  step l (limits n) = record l { budget = set_limit l.budget n }
  step l (reserves n) = after_reserve l (reserve l.budget n)
  step l (charges i x) =
      on_reservation (get_elem? l.reservations i) (λ r. after_charge l i (charge p l.budget r x)) l
  step l (aborts i) =
      on_reservation (get_elem? l.reservations i)
        (λ r. record l {
          budget = drop_reservation l.budget r;
          reservations = remove_at i l.reservations;
        })
        l
  step l (releases i) =
      on_charge (get_elem? l.charges i)
        (λ c. record l { budget = drop_charge l.budget c.charge; charges = remove_at i l.charges })
        l

  unfoldable pub run : Ledger R → List (Call R) → Ledger R
  run l [] = l
  run l (c ∷ cs) = run (step l c) cs
