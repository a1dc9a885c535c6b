-- ===== src/Vram/Watch.antt =====
-- `VramWatch` (src/vram.rs): a rate-limited reading of the VRAM budget of one device. A call takes
-- the state under the lock and returns it. Time is counted in nanoseconds.
use gpu_info_rs.Prelude.{
  ℕ, ◌-◌, Bool, true, false, ◌&&◌, Option, none, some, List, [], ◌∷◌, ltb, if◌then◌else◌,
}

pub record WatchState (K : Type 0) : Type 0 where
  pub device : Option K
  pub budget : Option ℕ
  pub at : Option ℕ
  pub failing : Bool

-- The state with the interval; the label is only printed.
pub record VramWatch (K : Type 0) : Type 0 where
  pub every : ℕ
  pub state : WatchState K

-- What a call logs: a failure, or a recovery with its figure.
pub data WatchEvent : Type 0 where
  failed : WatchEvent
  recovered : ℕ → WatchEvent

-- A call: for which device, what its query would answer, the time at the look at the cache, and
-- the time after the query.
pub record Call (K : Type 0) : Type 0 where
  pub device : K
  pub query : Option ℕ
  pub now : ℕ
  pub done : ℕ

-- The answer of a call, the watch after it, what it logs, and whether it queried the driver.
pub record Reply (K : Type 0) : Type 0 where
  pub answer : Option ℕ
  pub watch : VramWatch K
  pub events : List WatchEvent
  pub queried : Bool

abbrev pub new : {K : Type 0} → ℕ → VramWatch K
new every = record {
  every = every;
  state = record { device = none; budget = none; at = none; failing = false };
}

-- `at.is_some_and(|at| at.elapsed() < every)`, where `elapsed` saturates at zero.
abbrev pub still_fresh : ℕ → ℕ → Option ℕ → Bool
still_fresh every now none = false
still_fresh every now (some at) = ltb (now - at) every

module _ {K : Type 0} (key_eq : K → K → Bool) where
  -- `state.device.as_ref() == Some(device)`.
  abbrev pub same_device : Option K → K → Bool
  same_device none device = false
  same_device (some known) device = key_eq known device

  -- Another device: its key is kept and the failure forgotten.
  abbrev pub rekey : Bool → WatchState K → K → WatchState K
  rekey true s device = s
  rekey false s device = record s { device = some device; failing = false }

  -- The log lines at a change between failure and success, with the flag after them.
  abbrev pub announce : Option ℕ → Bool → List WatchEvent × Bool
  announce none false = (failed ∷ [], true)
  announce (some bytes) true = (recovered bytes ∷ [], false)
  announce none true = ([], true)
  announce (some bytes) false = ([], false)

  -- The query and what follows it.
  abbrev pub read_again : WatchState K → ℕ → Call K → Reply K
  read_again s every c =
      let (events, failing) = announce c.query s.failing in
      record {
        answer = c.query;
        watch = record {
          every = every;
          state = record s { budget = c.query; at = some c.done; failing = failing };
        };
        events = events;
        queried = true;
      }

  unfoldable pub budget_with : VramWatch K → Call K → Reply K
  budget_with w c =
      let same = same_device w.state.device c.device in
      if same && still_fresh w.every c.now w.state.at
      then record { answer = w.state.budget; watch = w; events = []; queried = false }
      else read_again (rekey same w.state c.device) w.every c

  -- The calls of a watch one after another: the replies, the first one first.
  abbrev pub replies : VramWatch K → List (Call K) → List (Reply K)
  replies w [] = []
  replies w (c ∷ cs) = let r = budget_with w c in r ∷ replies r.watch cs
