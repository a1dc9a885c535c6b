-- ===== src/Pool/Gate/Wakeups.antt =====
-- Does a returned permit reach a sleeper (src/pool.rs, `Gate`)? With `enter` alone it does; a
-- waiter of `enter_until` that gives up may take the notification with it.
use gpu_info_rs.Prelude.{ℕ, zero, suc, ◌+◌, ◌≤◌, ◌<◌, ◌≡◌, refl, ◌⊎◌, inl, arith}
use gpu_info_rs.Pool.Gate.{new, admit, leave}
use gpu_info_rs.Pool.Gate.Threads.{
  Hall, opened, Step, enters, sleeps, dozes, leaves_alone, leaves_waking, leaves_rousing, stirs,
  times_out, readmits, resleeps, roused_admits, redozes, cancels, Reach, here, next,
}

-- What threads reach that use `enter` only.
pub data Calm (h : Hall) : Hall → Type 0 where
  begin : Calm h h
  on : {i j : Hall} → Calm h i → Step i j → j.dozing ≡ 0 → j.roused ≡ 0 → Calm h j

record Served (h : Hall) : Type 0 where
  served : (h.asleep ≡ 0) ⊎ (h.gate.free ≤ h.awake)
  no_doze : h.dozing ≡ 0
  no_rouse : h.roused ≡ 0

Step-Served : {h i : Hall} → Step h i → Served h → i.dozing ≡ 0 → i.roused ≡ 0 → Served i
unfolding admit leave
Step-Served (enters g e) s d r = ground arith
Step-Served (sleeps e) s d r = ground arith
Step-Served (dozes e) s d r = ground arith
Step-Served (leaves_alone l a b) s d r = ground arith
Step-Served (leaves_waking l a) s d r = ground arith
Step-Served (leaves_rousing l b) s d r = ground arith
Step-Served (stirs a) s d r = ground arith
Step-Served (times_out b) s d r = ground arith
Step-Served (readmits g a e) s d r = ground arith
Step-Served (resleeps a e) s d r = ground arith
Step-Served (roused_admits g a e) s d r = ground arith
Step-Served (redozes a e) s d r = ground arith
Step-Served (cancels a) s d r = ground arith

Calm-Served : {h i : Hall} → Served h → Calm h i → Served i
Calm-Served v begin = v
Calm-Served v (on c s d r) = Step-Served s (Calm-Served v c) d r

-- Where every thread uses `enter`, no wake-up is lost: while one sleeps, each free permit has a
-- thread that is awake and will take it.
pub Calm-awake :
    (permits : ℕ) {h : Hall} → Calm (opened permits) h → (h.asleep ≡ 0) ⊎ (h.gate.free ≤ h.awake)
unfolding new
Calm-awake permits c =
    (Calm-Served (record { served = inl refl; no_doze = refl; no_rouse = refl }) c).served

abbrev filled : ℕ → ℕ → Hall
filled free inside = record {
  gate = record { free = free };
  inside = inside;
  asleep = 0;
  awake = 0;
  dozing = 0;
  roused = 0;
}

fill :
    (h : Hall) (free inside : ℕ)
    → Reach h (filled free inside)
    → (n : ℕ) × (n ≡ inside + free) × Reach h (filled 0 n)
unfolding admit
fill h zero inside r = (inside, omega arith, r)
fill h (suc free) inside r =
    let step : Step (filled (suc free) inside) (filled free (inside + 1)) =
      enters (record { free = free }) (ground arith) in
    let (n, e, r') = fill h free (inside + 1) (next r step) in (n, omega (arith, e), r')

-- With `enter_until` a wake-up can be lost, whatever the number of permits: a permit is free, a
-- thread sleeps in `enter`, and no thread is awake or waits with a time limit. The notification went
-- to a waiter that gave up.
pub wakeup_lost :
    (permits : ℕ)
    → (h : Hall) × Reach (opened permits) h
      × (0 < h.gate.free)
      × (0 < h.asleep)
      × (h.awake ≡ 0)
      × (h.dozing ≡ 0)
      × (h.roused ≡ 0)
unfolding new admit leave
wakeup_lost permits =
    let (n, e, r) = fill (opened permits) (new permits).free 0 here in
    let slept = next r (sleeps refl) in
    let dozed = next slept (dozes refl) in
    let left = next dozed (leaves_rousing (ground arith) (omega arith)) in
    (_, next left (cancels (omega arith)), omega arith, omega arith, refl, refl, refl)
