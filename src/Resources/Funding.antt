-- ===== src/Resources/Funding.antt =====
-- The reservation of `Resources::prepare` (src/resources.rs) is what its creations need.
use gpu_info_rs.Prelude.{
  ℕ, ◌+◌, ◌≤◌, ◌≡◌, refl, ◌∙◌, inl, inr, Bool, true, Option, none, some, List, [], ◌∷◌, Result, ok,
  ok_or, arith, Result-cases, checked_add, All, is_some,
}
use gpu_info_rs.Pool.{ResourcePool}
use gpu_info_rs.Admission.{MemoryBudget, Reservation, Charged, charge, transferred}
use gpu_info_rs.Admission.Outcomes.{held, Fits}
use gpu_info_rs.Resources.Wgpu.{Wgpu, Limits}
use gpu_info_rs.Resources.Spec.{ResourceError, Spec, normalized, bytes}
use gpu_info_rs.Resources.Prepare.{
  Allocation, allocations, Slots, owned, take_match, lacking, checkout, Creation, create_all,
  is_staging,
}

lacking-sum :
    (w : Wgpu) (o : Option ℕ) (e : ResourceError w) (m : ℕ)
    → ◌≡◌ {A = Result ℕ (ResourceError w)} (ok_or o e) (ok m)
    → o ≡ some m
lacking-sum w none e m h = cc
lacking-sum w (some n) e m h = cc

module _ (w : Wgpu) (Native : Type 0) (spec_eq : Spec w → Spec w → Bool)
    (create : Spec w → Native) where
  abbrev Charge : Type 0
  Charge = Charged (Allocation w Native spec_eq create)

  lacking-none :
      (limits : Limits) (s : Spec w) (missing m : ℕ)
      → lacking w Native spec_eq create limits s missing none ≡ ok m
      → (n : ℕ) × (bytes w s limits ≡ ok n) × (m ≡ missing + n)
  lacking-none limits s missing m h = elim (Result-cases (bytes w s limits)) [
    | inl (n, e) ↦ (n, e, ground (arith, lacking-sum w (checked_add missing n) _ m (rw e at h)))
    | inr (x, e) ↦ let h' = rw e at h in absurd (ground arith)
  ]

  lacking_grows :
      (limits : Limits) (s : Spec w) (missing m : ℕ) (c : Option Charge)
      → lacking w Native spec_eq create limits s missing c ≡ ok m
      → missing ≤ m
  lacking_grows limits s missing m none h =
      let (n, _, e) = lacking-none limits s missing m h in omega (arith, e)
  lacking_grows limits s missing m (some c) h = ground arith

  -- The missing bytes only grow.
  checkout_grows :
      (limits : Limits) (specs : List (Spec w)) (missing total : ℕ) (pool : ResourcePool Charge)
      → (checkout w Native spec_eq create limits specs missing pool).0 ≡ ok total
      → missing ≤ total
  unfolding checkout
  checkout_grows limits [] missing total pool h = ground arith
  checkout_grows limits (spec ∷ specs) missing total pool h =
      let s = normalized w spec in
      let (c, pool') = take_match w Native spec_eq create s pool in
      elim (Result-cases (lacking w Native spec_eq create limits s missing c)) [
        | inl (m, e) ↦ omega (
          arith,
          lacking_grows limits s missing m c e,
          checkout_grows limits specs m total pool' (rw (e, checkout) at h),
        )
        | inr (x, e) ↦ let h' = rw (e, checkout) at h in absurd (ground arith)
      ]

  -- All slots are filled, nothing failed, and the reservation is used up.
  abbrev pub Filled : MemoryBudget → Creation w Native spec_eq create → Type 0
  Filled b c =
      (c.failure ≡ none)
      × (c.reservation.remaining ≡ 0)
      × (held c.memory.usage ≡ held b.usage)
      × All (λ o. is_some o ≡ true) c.slots

  charge_enough :
      (b : MemoryBudget) (r : Reservation) (a : Allocation w Native spec_eq create)
      → a.bytes ≤ r.remaining
      → r.remaining ≤ b.usage.reserved
      → Fits b
      → (b' : MemoryBudget) × (r' : Reservation) × (c : Charge) × (charge
            (allocations w Native spec_eq create)
            b
            r
            a
          ≡ ok (b', r', c))
        × (r'.remaining + a.bytes ≡ r.remaining)
        × (r'.remaining ≤ b'.usage.reserved)
        × (held b'.usage ≡ held b.usage)
  unfolding charge
  charge_enough b r a h k f =
      let (b', r', c) = transferred (allocations w Native spec_eq create) b r a a.bytes in
      (b', r', c, ground arith, ground arith, ground arith, ground arith)

  -- One slot of the batch, if the later ones are filled.
  create_slot :
      (limits : Limits) (spec : Spec w) (specs : List (Spec w))
      (slots : Slots w Native spec_eq create) (missing m total : ℕ) (c : Option Charge)
      (b : MemoryBudget) (r : Reservation)
      → lacking w Native spec_eq create limits (normalized w spec) missing c ≡ ok m
      → m ≤ total
      → missing + r.remaining ≡ total
      → r.remaining ≤ b.usage.reserved
      → Fits b
      → ((b' : MemoryBudget) (r' : Reservation)
          → m + r'.remaining ≡ total
          → r'.remaining ≤ b'.usage.reserved
          → Fits b'
          → Filled b' (create_all w Native spec_eq create limits specs slots b' r'))
      → Filled b (
          create_all w Native spec_eq create limits
            (spec ∷ specs)
            (owned w Native spec_eq create true c ∷ slots)
            b
            r)
  unfolding create_all
  create_slot limits spec specs slots missing m total (some c) b r h g e k f ih =
      let (none_failed, used, same, full) = ih b r (ground arith) k f in
      (none_failed, used, same, (refl, full))
  create_slot limits spec specs slots missing m total none b r h g e k f ih =
      let (n, sized, sum) = lacking-none limits (normalized w spec) missing m h in
      let (b', r', c, done, left, covered, same) =
        charge_enough b r
          (record {
            native = create (normalized w spec);
            spec = normalized w spec;
            bytes = n;
            mapped = is_staging w Native spec_eq create (normalized w spec);
          })
          (omega (arith, sum)) k f in
      let (none_failed, used, same', full) =
        ih b' r' (omega (arith, sum, left)) covered (omega (arith, same)) in
      rw (sized, done, create_all) (none_failed, used, same' ∙ same, (refl, full))

  -- With a reservation of the missing bytes that a checkout has found, part of accounts that fit
  -- a `u64`, every miss is created and charged: no descriptor and no charge is refused, the total
  -- stays, and nothing of the reservation is left.
  pub create_all-Filled :
      (limits : Limits) (specs : List (Spec w)) (missing total : ℕ) (pool : ResourcePool Charge)
      (b : MemoryBudget) (r : Reservation)
      → (checkout w Native spec_eq create limits specs missing pool).0 ≡ ok total
      → missing + r.remaining ≡ total
      → r.remaining ≤ b.usage.reserved
      → Fits b
      → Filled b (
          create_all w Native spec_eq create limits specs
            (checkout w Native spec_eq create limits specs missing pool).1
            b
            r)
  unfolding checkout create_all
  create_all-Filled limits [] missing total pool b r h e k f = (refl, ground arith, refl, tt)
  create_all-Filled limits (spec ∷ specs) missing total pool b r h e k f =
      let s = normalized w spec in
      let (c, pool') = take_match w Native spec_eq create s pool in
      elim (Result-cases (lacking w Native spec_eq create limits s missing c)) [
        | inl (m, y) ↦
            let h' = rw (y, checkout) at h in
            rw (y, checkout)
              (create_slot limits spec specs _ missing m total c b r y
                (checkout_grows limits specs m total pool' h') e k f
                (λ b' r' e' k' f'. create_all-Filled limits specs m total pool' b' r' h' e' k' f'))
        | inr (x, y) ↦ let h' = rw (y, checkout) at h in absurd (ground arith)
      ]
