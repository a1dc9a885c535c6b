-- ===== src/Pool/Gate.antt =====
-- `Gate` (src/pool.rs): a counting semaphore. Here its operations under the lock; the threads that
-- wait on its condition variable are in the child modules.
pub mod Threads
pub mod Conservation
pub mod Wakeups
use gpu_info_rs.Prelude.{
  ℕ, zero, suc, ◌-◌, Bool, true, false, Option, none, some, List, [], ◌∷◌, ◌==◌, if◌then◌else◌,
  add64,
}

pub record Gate : Type 0 where
  pub free : ℕ

-- `Gate::new`: at least one permit.
unfoldable pub new : ℕ → Gate
new permits = record { free = if permits == 0 then 1 else permits }

-- One look under the lock: take a permit, or `none`: wait.
unfoldable pub admit : Gate → Option Gate
admit g = if g.free == 0 then none else some (record g { free = g.free - 1 })

-- `Gate::leave`, which the drop of a permit calls; it then notifies one waiter.
unfoldable pub leave : Gate → Gate
leave g = record g { free = add64 g.free 1 }

pub data Entry : Type 0 where
  cancelled admitted waiting : Entry

-- The loop of `enter_until`: each round has the answer of `keep_waiting` and what other threads do
-- to the gate before the round takes the lock. `waiting` means that the rounds ran out.
unfoldable pub enter_until : List (Bool × (Gate → Gate)) → Gate → Gate × Entry
enter_until [] g = (g, waiting)
enter_until ((false, others) ∷ rounds) g = (g, cancelled)
enter_until ((true, others) ∷ rounds) g = elim (admit (others g)) [
  | none ↦ enter_until rounds (others g)
  | some g' ↦ (g', admitted)
]

-- The loop of `wait_free`: `enter` with no way out but a permit.
unfoldable pub wait_free : List (Gate → Gate) → Gate → Gate × Entry
wait_free [] g = (g, waiting)
wait_free (others ∷ rounds) g = elim (admit (others g)) [
  | none ↦ wait_free rounds (others g)
  | some g' ↦ (g', admitted)
]
