-- ===== src/Pool/Gate/Threads.antt =====
-- The threads of a `Gate` (src/pool.rs) as a step relation on how many are where. A `notify_one`
-- wakes a sleeper of either kind, if there is one; a sleeper may also wake by itself, and a timed
-- one does when its 10 ms are over.
use gpu_info_rs.Prelude.{ℕ, ◌+◌, ◌-◌, ◌<◌, ◌≡◌, none, some}
use gpu_info_rs.Pool.Gate.{Gate, new, admit, leave}

pub record Hall : Type 0 where
  pub gate : Gate
  -- Threads that hold a permit.
  pub inside : ℕ
  -- Threads in the untimed wait of `enter`, and those of them that woke up.
  pub asleep : ℕ
  pub awake : ℕ
  -- Threads in the timed wait of `enter_until`, and those of them that woke up.
  pub dozing : ℕ
  pub roused : ℕ

abbrev pub opened : ℕ → Hall
opened permits = record {
  gate = new permits;
  inside = 0;
  asleep = 0;
  awake = 0;
  dozing = 0;
  roused = 0;
}

pub data Step (h : Hall) : Hall → Type 0 where
  -- A new thread finds a permit, or goes to sleep in `enter` or in `enter_until`.
  enters :
      (g : Gate) → admit h.gate ≡ some g → Step h (record h { gate = g; inside = h.inside + 1 })
  sleeps : admit h.gate ≡ none → Step h (record h { asleep = h.asleep + 1 })
  dozes : admit h.gate ≡ none → Step h (record h { dozing = h.dozing + 1 })
  -- A permit is given back, and one sleeper is notified.
  leaves_alone :
      0 < h.inside
      → h.asleep ≡ 0
      → h.dozing ≡ 0
      → Step h (record h { gate = leave h.gate; inside = h.inside - 1 })
  leaves_waking :
      0 < h.inside
      → 0 < h.asleep
      → Step h (record h {
        gate = leave h.gate;
        inside = h.inside - 1;
        asleep = h.asleep - 1;
        awake = h.awake + 1;
      })
  leaves_rousing :
      0 < h.inside
      → 0 < h.dozing
      → Step h (record h {
        gate = leave h.gate;
        inside = h.inside - 1;
        dozing = h.dozing - 1;
        roused = h.roused + 1;
      })
  -- A sleeper wakes up without a notification.
  stirs : 0 < h.asleep → Step h (record h { asleep = h.asleep - 1; awake = h.awake + 1 })
  times_out : 0 < h.dozing → Step h (record h { dozing = h.dozing - 1; roused = h.roused + 1 })
  -- A thread that woke up looks again.
  readmits :
      (g : Gate)
      → 0 < h.awake
      → admit h.gate ≡ some g
      → Step h (record h { gate = g; inside = h.inside + 1; awake = h.awake - 1 })
  resleeps :
      0 < h.awake
      → admit h.gate ≡ none
      → Step h (record h { asleep = h.asleep + 1; awake = h.awake - 1 })
  roused_admits :
      (g : Gate)
      → 0 < h.roused
      → admit h.gate ≡ some g
      → Step h (record h { gate = g; inside = h.inside + 1; roused = h.roused - 1 })
  redozes :
      0 < h.roused
      → admit h.gate ≡ none
      → Step h (record h { dozing = h.dozing + 1; roused = h.roused - 1 })
  -- `keep_waiting` says no.
  cancels : 0 < h.roused → Step h (record h { roused = h.roused - 1 })

pub data Reach (h : Hall) : Hall → Type 0 where
  here : Reach h h
  next : {i j : Hall} → Reach h i → Step i j → Reach h j
