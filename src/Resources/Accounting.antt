-- ===== src/Resources/Accounting.antt =====
-- The charges of src/resources.rs: what the budget counts as allocated is what the idle resources,
-- the buffers that wait to be mapped and the owners in use hold together.
use gpu_info_rs.Prelude.{
  ℕ, ◌+◌, ◌≤◌, ◌≡◌, refl, sym, ap, ◌∙◌, subst, suc, ◌⊎◌, inl, inr, Bool, true, false, Option, none,
  some, List, [], ◌∷◌, ok, err, arith, u64_max, length, All, sum_by-append, Bool-cases, is_some,
}
use gpu_info_rs.Pool.Destruction.{put_destroys, put_conserves}
use gpu_info_rs.Pool.{ResourcePool}
use gpu_info_rs.Admission.{MemoryBudget, charged, drop_charge}
use gpu_info_rs.Admission.Invariant.{owned}
use gpu_info_rs.Wait.Error.{Outcome}
use gpu_info_rs.Resources.Wgpu.{Wgpu}
use gpu_info_rs.Resources.Spec.{ResourceError, Spec}
use gpu_info_rs.Resources.Prepare.{allocations, Owned, drop_charges}
use gpu_info_rs.Resources.Recycle.{
  Held, Remap, Recycler, destroyed, with_pool, put_back, gives_up, must_map, settled, Room,
  drop_owned, remapped, harvest, outcome_of, return_all, map_or, collect,
}
use gpu_info_rs.Resources.Harvest.{waiting, harvest-All}

module _ (w : Wgpu) (Native : Type 0) (spec_eq : Spec w → Spec w → Bool)
    (create : Spec w → Native) where
  abbrev charge_of : Held w Native spec_eq create → ℕ
  charge_of c = c.charge.bytes

  -- The allocated bytes are those of the idle resources, of the remaps, and `extra` in use.
  abbrev pub Accounted : ℕ → Recycler w Native spec_eq create → Type 0
  Accounted extra r =
      (r.resources.memory.usage.allocated
        ≡ owned r.resources.pool.slots + waiting w Native spec_eq create r.remaps + extra)
      × (r.resources.memory.usage.allocated ≤ u64_max)

  pub drop_charges_lem :
      (cs : List (Held w Native spec_eq create)) (b : MemoryBudget)
      → owned cs ≤ b.usage.allocated
      → b.usage.allocated ≤ u64_max
      → (drop_charges w Native spec_eq create b cs).usage.allocated + owned cs ≡ b.usage.allocated
  unfolding drop_charges
  drop_charges_lem [] b h k = omega arith
  drop_charges_lem (c ∷ cs) b h k =
      let one : (drop_charge b c.charge).usage.allocated + c.charge.bytes ≡ b.usage.allocated =
        unfold drop_charge in ground arith in
      omega (
        arith,
        one,
        drop_charges_lem cs (drop_charge b c.charge) (omega (arith, one)) (omega (arith, one)),
      )

  destroyed-Accounted :
      (cs : List (Held w Native spec_eq create)) (extra : ℕ) (r : Recycler w Native spec_eq create)
      → Accounted (owned cs + extra) r
      → Accounted extra (destroyed w Native spec_eq create cs r)
  destroyed-Accounted cs extra r (e, h) =
      let d = drop_charges_lem cs r.resources.memory (omega arith) h in
      (omega (arith, d), omega (arith, d))

  put_back-Accounted :
      (reserved reserved' : Bool) (c : Held w Native spec_eq create) (extra : ℕ)
      → (r : Recycler w Native spec_eq create) → Accounted (c.charge.bytes + extra) r
      → Accounted extra (put_back w Native spec_eq create reserved reserved' c r)
  unfolding put_back
  put_back-Accounted reserved reserved' c extra r (e, h) =
      let p = charged (allocations w Native spec_eq create) in
      let gone = put_destroys p reserved reserved' c r.resources.pool in
      let (q, placed, sum) = put_conserves p reserved reserved' c r.resources.pool charge_of in
      let d = drop_charges_lem gone r.resources.memory (omega (arith, sum)) h in
      rw placed (omega (arith, d, sum), omega (arith, d))

  with_pool_remaps :
      (q : Option (ResourcePool (Held w Native spec_eq create)))
      → (r : Recycler w Native spec_eq create)
      → (with_pool w Native spec_eq create q r).remaps ≡ r.remaps
  with_pool_remaps none r = refl
  with_pool_remaps (some q) r = refl

  put_back_remaps :
      (reserved reserved' : Bool) (c : Held w Native spec_eq create)
      → (r : Recycler w Native spec_eq create)
      → (put_back w Native spec_eq create reserved reserved' c r).remaps ≡ r.remaps
  unfolding put_back
  put_back_remaps reserved reserved' c r = with_pool_remaps _ _

  -- Dropping an owner moves its charge: to the pool, to the remaps, or off the budget.
  pub drop_owned-Accounted :
      (alive : Bool) (room : Room) (signal extra : ℕ) (o : Owned w Native spec_eq create)
      → (r : Recycler w Native spec_eq create) → Accounted (o.allocation.charge.bytes + extra) r
      → Accounted extra (drop_owned w Native spec_eq create alive room signal o r)
  unfolding drop_owned
  drop_owned-Accounted alive room signal extra o r v =
      let end : Accounted extra (destroyed w Native spec_eq create (o.allocation ∷ []) r) =
        destroyed-Accounted (o.allocation ∷ []) extra r (omega (arith, v.0), v.1) in
      elim (Bool-cases (gives_up w Native spec_eq create alive o r)) [
        | inl given ↦ rw given end
        | inr used ↦ elim (Bool-cases (must_map w Native spec_eq create o)) [
          | inr ready ↦
              rw (used, ready) (put_back-Accounted room.slots room.last o.allocation extra r v)
          | inl map ↦ elim (Bool-cases room.remap) [
            | inr full ↦ rw (used, map, full) end
            | inl free ↦
                rw (used, map, free)
                  (
                    omega (
                      arith,
                      v.0,
                      sum_by-append (λ m. m.allocation.charge.bytes) r.remaps
                          (record { allocation = o.allocation; signal = signal } ∷ []),
                    ),
                    v.1,
                  )
          ]
        ]
      ]

  module _ (heard : ℕ → Option Outcome) where
    outcome_of-Accounted :
        (room : Room) (m : Remap w Native spec_eq create) (o : Option Outcome) (extra : ℕ)
        → (r : Recycler w Native spec_eq create) → is_some o ≡ true
        → Accounted (m.allocation.charge.bytes + extra) r
        → Accounted extra (outcome_of w Native spec_eq create heard room m o r).1
    outcome_of-Accounted room m none extra r e v = absurd (ground arith)
    outcome_of-Accounted room m (some (err x)) extra r e v =
        destroyed-Accounted (m.allocation ∷ []) extra r (omega (arith, v.0), v.1)
    outcome_of-Accounted room m (some (ok u)) extra r e v =
        elim (Bool-cases (is_some r.resources.loss)) [
          | inl lost ↦
              rw lost (destroyed-Accounted (m.allocation ∷ []) extra r (omega (arith, v.0), v.1))
          | inr live ↦ rw live (
              put_back-Accounted room.slots room.last
                (remapped w Native spec_eq create m.allocation) extra r v)
        ]

    return_all-Accounted :
        (rooms : ℕ → Room) (ms : List (Remap w Native spec_eq create))
        → (failure : Option (ResourceError w)) (extra : ℕ) (r : Recycler w Native spec_eq create)
        → All (λ m. settled w Native spec_eq create heard m ≡ true) ms
        → Accounted (waiting w Native spec_eq create ms + extra) r
        → Accounted extra (return_all w Native spec_eq create heard rooms ms failure r).1
    unfolding return_all
    return_all-Accounted rooms [] failure extra r a v = (omega (arith, v.0), v.1)
    return_all-Accounted rooms (m ∷ ms) failure extra r (s, a) v =
        return_all-Accounted (λ k. rooms (suc k)) ms _ extra _ a
          (outcome_of-Accounted (rooms 0) m (heard m.signal)
            (waiting w Native spec_eq create ms + extra) r s (omega (arith, v.0), v.1))

    outcome_of_remaps :
        (room : Room) (m : Remap w Native spec_eq create) (o : Option Outcome)
        → (r : Recycler w Native spec_eq create)
        → (outcome_of w Native spec_eq create heard room m o r).1.remaps ≡ r.remaps
    outcome_of_remaps room m none r = refl
    outcome_of_remaps room m (some (err x)) r = refl
    outcome_of_remaps room m (some (ok u)) r = elim (Bool-cases (is_some r.resources.loss)) [
      | inl lost ↦ rw lost refl
      | inr live ↦
          rw live
            (put_back_remaps room.slots room.last (remapped w Native spec_eq create m.allocation) r)
    ]

    return_all_remaps :
        (rooms : ℕ → Room) (ms : List (Remap w Native spec_eq create))
        → (failure : Option (ResourceError w)) (r : Recycler w Native spec_eq create)
        → (return_all w Native spec_eq create heard rooms ms failure r).1.remaps ≡ r.remaps
    unfolding return_all
    return_all_remaps rooms [] failure r = refl
    return_all_remaps rooms (m ∷ ms) failure r =
        return_all_remaps (λ k. rooms (suc k)) ms _ _
        ∙ outcome_of_remaps (rooms 0) m (heard m.signal) r

    map_or_state :
        (count : ℕ) (x : Option (ResourceError w) × Recycler w Native spec_eq create)
        → (map_or w Native spec_eq create heard count x).1 ≡ x.1
    map_or_state count (none, r) = refl
    map_or_state count (some e, r) = refl

    -- Where the allocated bytes are those of the idle resources, of the remaps and of the owners in
    -- use, they still are after a `collect`; where it has memory for its list, it leaves no remap
    -- whose signal is set, and else it leaves all as it was.
    pub collect-Accounted :
        (reserved : Bool) (rooms : ℕ → Room) (extra : ℕ) (r : Recycler w Native spec_eq create)
        → Accounted extra r
        → let r' = (collect w Native spec_eq create heard reserved rooms r).1 in
          Accounted extra r'
          × ((reserved ≡ false) × (r' ≡ r)
              ⊎ (reserved ≡ true) × All (λ m. is_some (heard m.signal) ≡ false) r'.remaps)
    unfolding collect
    collect-Accounted false rooms extra r v = (v, inl (refl, refl))
    collect-Accounted true rooms extra r v =
        let (remaps, completed) =
          harvest w Native spec_eq create heard (length r.remaps) 0 r.remaps [] in
        let (unset, done, sum) = harvest-All w Native spec_eq create heard r.remaps in
        let after : Recycler w Native spec_eq create = record r { remaps = remaps } in
        let x = return_all w Native spec_eq create heard rooms completed none after in
        let state = sym (map_or_state (length completed) x) in
        let counted =
          return_all-Accounted rooms completed none extra after done
            (omega (arith, v.0, sum), v.1) in
        let left = return_all_remaps rooms completed none after in
        (
          subst (Accounted extra) state counted,
          inr (
            refl,
            subst (All (λ m. is_some (heard m.signal) ≡ false))
                (sym left ∙ ap (λ r. r.remaps) state) unset,
          ),
        )
