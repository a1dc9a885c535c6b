-- ===== src/Vram/Cached.antt =====
-- What a `VramWatch` (src/vram.rs) promises: it remembers one reading, and answers from it while it
-- is of the device that is asked for and younger than the interval.
use gpu_info_rs.Prelude.{
  ℕ, ◌-◌, ◌≡◌, refl, sym, ap, ◌∙◌, ◌↔◌, inl, inr, Bool, true, false, not, ◌&&◌, Option, none, some,
  List, [], ◌∷◌, map, ltb, if◌then◌else◌, is_some, Bool-cases,
}
use gpu_info_rs.Vram.Watch.{
  WatchState, VramWatch, WatchEvent, failed, recovered, Call, Reply, new, still_fresh, same_device,
  rekey, announce, read_again, budget_with, replies,
}

-- One reading of the driver.
pub record Reading (K : Type 0) : Type 0 where
  pub device : K
  pub value : Option ℕ
  pub at : ℕ

-- What a reply shows to the outside.
pub record Shown : Type 0 where
  pub answer : Option ℕ
  pub events : List WatchEvent
  pub queried : Bool

-- A failure is told once, and so is the first figure after it.
abbrev pub told : (was_failing : Bool) → Option ℕ → List WatchEvent
told true none = []
told true (some bytes) = recovered bytes ∷ []
told false none = failed ∷ []
told false (some bytes) = []

abbrev pub shown : {K : Type 0} → Reply K → Shown
shown r = record { answer = r.answer; events = r.events; queried = r.queried }

module _ {K : Type 0} (key_eq : K → K → Bool) (every : ℕ) where
  abbrev pub reading : Call K → Reading K
  reading c = record { device = c.device; value = c.query; at = c.done }

  -- The reading of a call, told against what was known of its device.
  abbrev pub asked : Call K → Bool → Shown × Option (Reading K)
  asked c was_failing = (
    record { answer = c.query; events = told was_failing c.query; queried = true },
    some (reading c),
  )

  -- The reading serves the call.
  abbrev pub serves : Reading K → Call K → Bool
  serves r c = key_eq r.device c.device && ltb (c.now - r.at) every

  unfoldable pub promised : Option (Reading K) → Call K → Shown × Option (Reading K)
  promised none c = asked c false
  promised (some r) c =
      if serves r c
      then (record { answer = r.value; events = []; queried = false }, some r)
      else asked c (key_eq r.device c.device && not (is_some r.value))

  abbrev pub promises : Option (Reading K) → List (Call K) → List Shown
  promises last [] = []
  promises last (c ∷ cs) = let (s, next) = promised last c in s ∷ promises next cs

  -- The state holds exactly the last reading.
  abbrev pub Holds : WatchState K → Option (Reading K) → Type 0
  Holds s none = (s.device ≡ none) × (s.failing ≡ false)
  Holds s (some r) =
      (s.device ≡ some r.device)
      × (s.budget ≡ r.value)
      × (s.at ≡ some r.at)
      × (s.failing ≡ not (is_some r.value))

  announce-told : (o : Option ℕ) (f : Bool) → (announce key_eq o f).0 ≡ told f o
  announce-told none true = refl
  announce-told none false = refl
  announce-told (some b) true = refl
  announce-told (some b) false = refl

  announce-failing : (o : Option ℕ) (f : Bool) → (announce key_eq o f).1 ≡ not (is_some o)
  announce-failing none true = refl
  announce-failing none false = refl
  announce-failing (some b) true = refl
  announce-failing (some b) false = refl

module _ {K : Type 0} (key_eq : K → K → Bool)
    (exact : (a b : K) → (key_eq a b ≡ true) ↔ (a ≡ b)) where
  -- What a step promises, and that the state still holds the last reading.
  abbrev Kept : ℕ → Reply K → Shown × Option (Reading K) → Type 0
  Kept every r p = (shown r ≡ p.0) × Holds key_eq every r.watch.state p.1 × (r.watch.every ≡ every)

  read_again-Kept :
      (every : ℕ) (s : WatchState K) (c : Call K)
      → s.device ≡ some c.device
      → Kept every (read_again key_eq s every c) (asked key_eq every c s.failing)
  read_again-Kept every s c e = (
    rw (announce-told key_eq every c.query s.failing) refl,
    (e, refl, refl, announce-failing key_eq every c.query s.failing),
    refl,
  )

  -- A state that holds the last reading answers a call as promised and holds the last reading again.
  pub budget_with-Kept :
      (w : VramWatch K) (last : Option (Reading K)) (c : Call K)
      → Holds key_eq w.every w.state last
      → Kept w.every (budget_with key_eq w c) (promised key_eq w.every last c)
  unfolding budget_with promised
  budget_with-Kept w none c (d, f) =
      rw d (read_again-Kept w.every (rekey key_eq false w.state c.device) c refl)
  budget_with-Kept w (some r) c (d, b, a, f) =
      let known : same_device key_eq w.state.device c.device ≡ key_eq r.device c.device =
        rw d refl in
      elim (Bool-cases (key_eq r.device c.device)) [
        | inl same ↦
            let known = known ∙ same in
            elim (Bool-cases (ltb (c.now - r.at) w.every)) [
              | inl young ↦
                  let recent : still_fresh w.every c.now w.state.at ≡ true = rw a young in
                  rw (known, same, recent, young, b) (refl, (d, refl, a, f), refl)
              | inr old ↦
                  let stale : still_fresh w.every c.now w.state.at ≡ false = rw a old in
                  rw (known, same, stale, old, sym f)
                    (read_again-Kept w.every w.state c (d ∙ ap (λ k. some k) ((exact _ _).0 same)))
            ]
        | inr other ↦
            rw (known, other) (read_again-Kept w.every (rekey key_eq false w.state c.device) c refl)
      ]

  replies-promises :
      (w : VramWatch K) (last : Option (Reading K)) (cs : List (Call K))
      → Holds key_eq w.every w.state last
      → map shown (replies key_eq w cs) ≡ promises key_eq w.every last cs
  replies-promises w last [] h = refl
  replies-promises w last (c ∷ cs) h =
      let (e, h', k) = budget_with-Kept w last c h in
      let rest =
        replies-promises (budget_with key_eq w c).watch (promised key_eq w.every last c).1 cs
          (rw k h') in
      rw (e, rest, k) refl

  -- For keys that are equal exactly when they pass the test: a new watch shows, on any calls,
  -- what one remembered reading promises. It answers from the reading while that is of the same
  -- device and younger than the interval, and queries otherwise; a failure is logged unless the
  -- last reading of that device failed too, and a figure is logged when that reading had failed.
  pub new-promises :
      (every : ℕ) (cs : List (Call K))
      → map shown (replies key_eq (new every) cs) ≡ promises key_eq every none cs
  new-promises every cs = replies-promises (new every) none cs (refl, refl)
