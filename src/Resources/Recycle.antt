-- ===== src/Resources/Recycle.antt =====
-- What happens to an allocation when its last owner is dropped, and when its staging buffer is mapped
-- again: `Owned::drop`, `MapNotify` and `Resources::collect` (src/resources.rs). One thread runs them.
-- An allocation that nobody keeps is destroyed, and its charge with it. A signal is an address; `heard`
-- tells what each signal holds.
use gpu_info_rs.Prelude.{
  ℕ, zero, suc, Bool, true, false, not, ◌&&◌, ◌||◌, Option, none, some, List, [], ◌∷◌, ◌++◌, Result,
  ok, err, ltb, ◌==◌, if◌then◌else◌, is_some, length, get_elem?, swap_remove,
}
use gpu_info_rs.Pool.{ResourcePool, put}
use gpu_info_rs.Pool.Destruction.{put_destroys}
use gpu_info_rs.Pool.Eviction.{quiet}
use gpu_info_rs.Admission.{Charged, charged}
use gpu_info_rs.Wait.Error.{dropped, Outcome}
use gpu_info_rs.Resources.Wgpu.{Wgpu}
use gpu_info_rs.Resources.Spec.{ResourceError, gpu, host_allocation, Spec, reusable}
use gpu_info_rs.Resources.Prepare.{
  Allocation, allocations, Owned, Resources, drop_charges, is_staging,
}

-- `MapNotify::finish`: a signal is set once.
unfoldable pub finish : Option Outcome → Outcome → Option Outcome
finish none result = some result
finish (some outcome) result = some outcome

-- `MapNotify`'s destructor.
unfoldable pub drop_notify : Option Outcome → Option Outcome
unfolding finish
drop_notify signal = finish signal (err dropped)

-- What the system has room for: in the list of remaps, and twice in the pool.
pub record Room : Type 0 where
  pub remap : Bool
  pub slots : Bool
  pub last : Bool

module _ (w : Wgpu) (Native : Type 0) (spec_eq : Spec w → Spec w → Bool)
    (create : Spec w → Native) where
  abbrev pub Held : Type 0
  Held = Charged (Allocation w Native spec_eq create)

  pub record Remap : Type 0 where
    pub allocation : Held
    pub signal : ℕ

  -- The shared state with the allocations that wait to be mapped again.
  pub record Recycler : Type 0 where
    pub resources : Resources w Native spec_eq create
    pub remaps : List Remap

  abbrev pub destroyed : List Held → Recycler → Recycler
  destroyed cs r = record r {
    resources = record (r.resources) {
      memory = drop_charges w Native spec_eq create r.resources.memory cs;
    };
  }

  abbrev pub with_pool : Option (ResourcePool Held) → Recycler → Recycler
  with_pool none r = r
  with_pool (some q) r = record r { resources = record (r.resources) { pool = q } }

  -- `pool.put(allocation)`, and the end of what it lets go.
  unfoldable pub put_back : Bool → Bool → Held → Recycler → Recycler
  put_back reserved reserved' c r =
      let q = r.resources.pool in
      with_pool (put (charged (allocations w Native spec_eq create)) reserved reserved' quiet c q) (
        destroyed
          (put_destroys (charged (allocations w Native spec_eq create)) reserved reserved' c q) r)

  -- The early returns of `Owned::drop`: unhealthy or not reusable, the domain gone, nothing kept of
  -- this size, or the device lost.
  abbrev pub gives_up : (alive : Bool) → Owned w Native spec_eq create → Recycler → Bool
  gives_up alive o r =
      not o.healthy
      || not (reusable w o.allocation.resource.spec)
      || not alive
      || ltb r.resources.pool.budget o.allocation.charge.bytes
      || r.resources.pool.budget == 0
      || is_some r.resources.loss

  abbrev pub must_map : Owned w Native spec_eq create → Bool
  must_map o =
      is_staging w Native spec_eq create o.allocation.resource.spec
      && not o.allocation.resource.mapped

  -- `Owned::drop`; `signal` is the address of a new signal.
  unfoldable pub drop_owned :
      (alive : Bool) → Room → (signal : ℕ) → Owned w Native spec_eq create → Recycler → Recycler
  drop_owned alive room signal o r =
      if gives_up alive o r
      then destroyed (o.allocation ∷ []) r
      else if not (must_map o)
      then put_back room.slots room.last o.allocation r
      else if room.remap
      then record r {
        remaps = r.remaps ++ record { allocation = o.allocation; signal = signal } ∷ [];
      }
      else destroyed (o.allocation ∷ []) r

  -- The allocation after its mapping.
  abbrev pub remapped : Held → Held
  remapped c = record c { resource = record (c.resource) { mapped = true } }

  module _ (heard : ℕ → Option Outcome) where
    abbrev pub settled : Remap → Bool
    settled m = is_some (heard m.signal)

    abbrev pub harvest_at :
        ℕ
        → List Remap
        → List Remap
        → Option Remap
        → (ℕ → List Remap → List Remap → List Remap × List Remap)
        → List Remap × List Remap
    harvest_at at remaps completed none next = (remaps, completed)
    harvest_at at remaps completed (some m) next =
        if settled m
        then next at (swap_remove at remaps) (completed ++ m ∷ [])
        else next (suc at) remaps completed

    -- The first loop of `collect`: the remaps that are left, and the completed ones. Each round ends
    -- one of the remaps, so that their number is enough fuel.
    unfoldable pub harvest : ℕ → ℕ → List Remap → List Remap → List Remap × List Remap
    harvest zero at remaps completed = (remaps, completed)
    harvest (suc n) at remaps completed =
        harvest_at at remaps completed (get_elem? remaps at)
          (λ at' remaps' completed'. harvest n at' remaps' completed')

    abbrev pub outcome_of :
        Room → Remap → Option Outcome → Recycler → Option (ResourceError w) × Recycler
    outcome_of room m none r = (none, r)
    outcome_of room m (some (err e)) r = (some (gpu e), destroyed (m.allocation ∷ []) r)
    outcome_of room m (some (ok u)) r =
        if is_some r.resources.loss
        then (none, destroyed (m.allocation ∷ []) r)
        else (none, put_back room.slots room.last (remapped m.allocation) r)

    -- A later failure takes the place of an earlier one.
    abbrev pub latest :
        Option (ResourceError w) → Option (ResourceError w) → Option (ResourceError w)
    latest failure none = failure
    latest failure (some e) = some e

    -- The second loop of `collect`, with the room at each of its calls of `put`; `none` of a signal is
    -- unreachable there.
    unfoldable pub return_all :
        (ℕ → Room)
        → List Remap
        → Option (ResourceError w)
        → Recycler
        → Option (ResourceError w) × Recycler
    return_all rooms [] failure r = (failure, r)
    return_all rooms (m ∷ ms) failure r =
        let (e, r') = outcome_of (rooms 0) m (heard m.signal) r in
        return_all (λ k. rooms (suc k)) ms (latest failure e) r'

    abbrev pub map_or :
        ℕ → Option (ResourceError w) × Recycler → Result ℕ (ResourceError w) × Recycler
    map_or count (none, r) = (ok count, r)
    map_or count (some e, r) = (err e, r)

    -- `Resources::collect`; `reserved` tells whether `try_reserve_exact` found memory.
    unfoldable pub collect :
        (reserved : Bool) → (ℕ → Room) → Recycler → Result ℕ (ResourceError w) × Recycler
    collect false rooms r = (err host_allocation, r)
    collect true rooms r =
        let (remaps, completed) = harvest (length r.remaps) 0 r.remaps [] in
        map_or (length completed) (return_all rooms completed none (record r { remaps = remaps }))
