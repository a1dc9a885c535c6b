-- ===== src/Devices/Once.antt =====
-- The devices of the process (src/lib.rs) over any sequence of requests.
use gpu_info_rs.Prelude.{
  ◌≡◌, refl, ap, ◌∙◌, sym, inl, inr, false, none, some, List, [], ◌∷◌, Result, ok, err, arith,
  Option-cases, Bool-cases,
}
use gpu_info_rs.Devices.{
  Wgpu, Machine, Statics, ComputeGpu, Reason, is_cpu, shared_device, compute_device_status,
  auto_compute_device, software_reason, hardware,
}

pub data Ask : Type 0 where
  asks_shared asks_compute asks_auto : Ask

module _ (w : Wgpu) where
  abbrev pub fresh : Statics w
  fresh = record { shared = none; compute = none; auto = none }

  abbrev pub ask : Machine w → Statics w → Ask → Statics w
  ask m s asks_shared = (shared_device w m s).1
  ask m s asks_compute = (compute_device_status w m s).1
  ask m s asks_auto = (auto_compute_device w m s).1

  -- Requests one after another, each with what the machine answers then.
  abbrev pub after : List (Ask × Machine w) → Statics w → Statics w
  after [] s = s
  after ((a, m) ∷ rest) s = after rest (ask m s a)

  compute-settled :
      (m : Machine w) (s : Statics w) (r : Result (ComputeGpu w) Reason)
      → s.compute ≡ some r
      → (compute_device_status w m s).0 ≡ r
  unfolding compute_device_status
  compute-settled m s r e = rw (e, compute_device_status)

  hardware-ok :
      (r : Result (ComputeGpu w) Reason) (g : ComputeGpu w)
      → hardware w r ≡ ok g
      → (r ≡ ok g) × (is_cpu (w.device_type g.adapter) ≡ false)
  unfolding software_reason
  hardware-ok (err x) g e = absurd (ground arith)
  hardware-ok (ok x) g e = elim (Bool-cases (is_cpu (w.device_type x.adapter))) [
    | inl c ↦ let e' = rw (c, software_reason) at e in absurd (ground arith)
    | inr c ↦
        let e' = rw (c, software_reason) at e in
        let same : x ≡ g = cc in (e', ap (λ g. is_cpu (w.device_type g.adapter)) (sym same) ∙ c)
  ]

  ask-compute :
      (m : Machine w) (s : Statics w) (a : Ask) (r : Result (ComputeGpu w) Reason)
      → s.compute ≡ some r
      → (ask m s a).compute ≡ some r
  unfolding shared_device auto_compute_device compute_device_status
  ask-compute m s asks_shared r e = e
  ask-compute m s asks_compute r e = rw (e)
  ask-compute m s asks_auto r e = elim (Option-cases s.auto) [
    | inl n ↦ rw (n, e, auto_compute_device, compute_device_status)
    | inr (x, n) ↦ rw (n, auto_compute_device) e
  ]

  ask-auto :
      (m : Machine w) (s : Statics w) (a : Ask) (r : Result (ComputeGpu w) Reason)
      → s.auto ≡ some r
      → (ask m s a).auto ≡ some r
  unfolding shared_device auto_compute_device compute_device_status
  ask-auto m s asks_shared r e = e
  ask-auto m s asks_compute r e = e
  ask-auto m s asks_auto r e = rw (e, auto_compute_device) refl

  auto-settled :
      (m : Machine w) (s : Statics w) (r : Result (ComputeGpu w) Reason)
      → s.auto ≡ some r
      → (auto_compute_device w m s).0 ≡ r
  unfolding auto_compute_device
  auto-settled m s r e = rw (e, auto_compute_device)

  after-settled :
      (later : List (Ask × Machine w)) (s : Statics w) (r c : Result (ComputeGpu w) Reason)
      → s.auto ≡ some r
      → s.compute ≡ some c
      → ((after later s).auto ≡ some r) × ((after later s).compute ≡ some c)
  after-settled [] s r c a k = (a, k)
  after-settled ((x, m) ∷ later) s r c a k =
      after-settled later (ask m s x) r c (ask-auto m s x r a) (ask-compute m s x c k)

  -- A first answer of Auto: it is remembered, with the compute device that it rests on.
  auto-first :
      (m : Machine w) (s : Statics w)
      → s.auto ≡ none
      → let r = auto_compute_device w m s in
        let c = (compute_device_status w m s).0 in
        (r.0 ≡ hardware w c) × (r.1.auto ≡ some (hardware w c)) × (r.1.compute ≡ some c)
  unfolding auto_compute_device compute_device_status
  auto-first m s n = rw (n, auto_compute_device, compute_device_status) (refl, refl, refl)

  -- What Auto rests on, whenever it has answered.
  abbrev Settled : Statics w → Type 0
  Settled s =
      (r : Result (ComputeGpu w) Reason)
      → s.auto ≡ some r
      → (c : Result (ComputeGpu w) Reason) × (s.compute ≡ some c) × (r ≡ hardware w c)

  auto-Settled :
      (m : Machine w) (s : Statics w)
      → Settled s
      → (c : Result (ComputeGpu w) Reason) × ((auto_compute_device w m s).0 ≡ hardware w c)
        × ((auto_compute_device w m s).1.auto ≡ some (hardware w c))
        × ((auto_compute_device w m s).1.compute ≡ some c)
  unfolding auto_compute_device
  auto-Settled m s h = elim (Option-cases s.auto) [
    | inl n ↦
        let (answer, auto, compute) = auto-first m s n in
        ((compute_device_status w m s).0, answer, auto, compute)
    | inr (r, e) ↦
        let (c, k, same) = h r e in
        (
          c,
          auto-settled m s r e ∙ same,
          ask-auto m s asks_auto r e ∙ ap some same,
          ask-compute m s asks_auto c k,
        )
  ]

  ask-Settled : (m : Machine w) (s : Statics w) (a : Ask) → Settled s → Settled (ask m s a)
  unfolding shared_device compute_device_status
  ask-Settled m s asks_shared h r e = h r e
  ask-Settled m s asks_compute h r e =
      let (c, k, same) = h r e in (c, ask-compute m s asks_compute c k, same)
  ask-Settled m s asks_auto h r e =
      let (c, _, auto, compute) = auto-Settled m s h in (c, compute, cc)

  after-Settled :
      (asks : List (Ask × Machine w)) (s : Statics w) → Settled s → Settled (after asks s)
  after-Settled [] s h = h
  after-Settled ((a, m) ∷ asks) s h = after-Settled asks (ask m s a) (ask-Settled m s a h)

  fresh-Settled : Settled fresh
  fresh-Settled r e = absurd (ground arith)

  -- In a process that has asked for any devices before, Auto's answer stays the same whatever is
  -- asked later and whatever the machine answers by then; and a device that Auto gives is no
  -- software rasterizer and is the one compute device of the process.
  pub auto_once :
      (before later : List (Ask × Machine w)) (now next : Machine w)
      → let first = auto_compute_device w now (after before fresh) in
        let s = after later first.1 in
        ((auto_compute_device w next s).0 ≡ first.0)
        × ((gpu : ComputeGpu w)
            → first.0 ≡ ok gpu
            → (is_cpu (w.device_type gpu.adapter) ≡ false)
              × ((compute_device_status w next s).0 ≡ ok gpu))
  auto_once before later now next =
      let settled = after-Settled before fresh fresh-Settled in
      let (c, answer, auto, compute) = auto-Settled now (after before fresh) settled in
      let first = auto_compute_device w now (after before fresh) in
      let (auto', compute') = after-settled later first.1 (hardware w c) c auto compute in
      let s = after later first.1 in
      (
        auto-settled next s (hardware w c) auto' ∙ sym answer,
        λ gpu e.
            let (is_gpu, no_cpu) = hardware-ok c gpu (sym answer ∙ e) in
            (no_cpu, compute-settled next s c compute' ∙ is_gpu),
      )
