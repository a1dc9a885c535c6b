-- ===== src/Pool/Gate/Conservation.antt =====
-- Permits are neither lost nor made up (src/pool.rs, `Gate`).
use gpu_info_rs.Prelude.{
  ℕ, ◌+◌, ◌≤◌, max, ◌≡◌, ◌≢◌, refl, ◌⊎◌, inl, inr, Bool, true, false, none, some, List, [], ◌∷◌,
  arith, u64_max, Option-cases,
}
use gpu_info_rs.Pool.Gate.{Gate, new, admit, leave, admitted, enter_until}
use gpu_info_rs.Pool.Gate.Threads.{
  Hall, opened, Step, enters, sleeps, dozes, leaves_alone, leaves_waking, leaves_rousing, stirs,
  times_out, readmits, resleeps, roused_admits, redozes, cancels, Reach, here, next,
}

-- The free permits and the threads inside make up all permits.
abbrev Balanced : ℕ → Hall → Type 0
Balanced permits h = h.gate.free + h.inside ≡ permits

Step-Balanced :
    (permits : ℕ) {h i : Hall}
    → permits ≤ u64_max
    → Step h i
    → Balanced permits h
    → Balanced permits i
unfolding admit leave
Step-Balanced permits k (enters g e) b = ground arith
Step-Balanced permits k (sleeps e) b = b
Step-Balanced permits k (dozes e) b = b
Step-Balanced permits k (leaves_alone l a d) b = ground arith
Step-Balanced permits k (leaves_waking l a) b = ground arith
Step-Balanced permits k (leaves_rousing l d) b = ground arith
Step-Balanced permits k (stirs a) b = b
Step-Balanced permits k (times_out d) b = b
Step-Balanced permits k (readmits g a e) b = ground arith
Step-Balanced permits k (resleeps a e) b = b
Step-Balanced permits k (roused_admits g a e) b = ground arith
Step-Balanced permits k (redozes a e) b = b
Step-Balanced permits k (cancels a) b = b

Reach-Balanced :
    (permits : ℕ) {h i : Hall}
    → permits ≤ u64_max
    → Balanced permits h
    → Reach h i
    → Balanced permits i
Reach-Balanced permits k b here = b
Reach-Balanced permits k b (next r s) = Step-Balanced permits k s (Reach-Balanced permits k b r)

-- A gate of some permits (at least one, and a `u64`) never has more threads inside than those, in
-- whatever order threads come, sleep, wake, give up and leave; and the free permits and the
-- threads inside always make up all permits.
pub opened_bounded :
    (permits : ℕ) {h : Hall}
    → permits ≤ u64_max
    → Reach (opened permits) h
    → (h.inside ≤ max 1 permits) × (h.gate.free + h.inside ≡ max 1 permits)
unfolding new
opened_bounded permits {h} k r = ground (
  arith,
  Reach-Balanced (max 1 permits) {h = opened permits} {i = h} (omega arith) (ground arith) r,
)

-- The gate as other threads leave it over the rounds that the loop runs.
abbrev pub interfered : List (Bool × (Gate → Gate)) → Gate → Gate
interfered [] g = g
interfered ((false, others) ∷ rounds) g = g
interfered ((true, others) ∷ rounds) g = elim (admit (others g)) [
  | none ↦ interfered rounds (others g)
  | some _ ↦ others g
]

-- A cancelled or unfinished `enter_until` leaves the permits as other threads left them, and an
-- admitted one takes exactly one.
pub enter_until_permits :
    (rounds : List (Bool × (Gate → Gate))) (g : Gate)
    → let (g', entry) = enter_until rounds g in
      (entry ≢ admitted) × (g' ≡ interfered rounds g)
      ⊎ (entry ≡ admitted) × (admit (interfered rounds g) ≡ some g')
unfolding enter_until
enter_until_permits [] g = inl (λ e. cc, refl)
enter_until_permits ((false, others) ∷ rounds) g = inl (λ e. cc, refl)
enter_until_permits ((true, others) ∷ rounds) g = elim (Option-cases (admit (others g))) [
  | inl e ↦ rw (e, enter_until, interfered) (enter_until_permits rounds (others g))
  | inr (g', e) ↦ rw (e, enter_until, interfered) (inr (refl, e))
]
