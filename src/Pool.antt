-- ===== src/Pool.antt =====
-- `ResourcePool` (src/pool.rs): idle resources of one device, least recently returned first. The
-- pool's state is what its lock guards. `put` and `evict` release the lock between two evictions:
-- `others k` is all that other threads do to the pool while it is released for the k-th time.
pub mod Interface
pub mod Invariant
pub mod Lookup
pub mod Eviction
pub mod Return
pub mod Destruction
pub mod Gate
mod Tests
use gpu_info_rs.Prelude.{
  ℕ, zero, suc, ◌-◌, Bool, not, ◌&&◌, ◌||◌, Option, none, some, List, [], ◌∷◌, ◌++◌, ltb, leb, ◌==◌,
  if◌then◌else◌, add64, sub64, saturating_add, u64_max, length, get_elem?, remove_at, drop,
}
use gpu_info_rs.Pool.Interface.{Pooled}

pub record ResourcePool {ℓ} (R : Type ℓ) : Type ℓ where
  pub slots : List R
  pub bytes : ℕ
  pub budget : ℕ
  pub max_entries : ℕ

-- `usize::MAX` of a 64-bit target.
abbrev pub usize_max : ℕ
usize_max = u64_max

unfoldable pub with_limits {ℓ} : {R : Type ℓ} → ℕ → ℕ → ResourcePool R
with_limits budget max_entries = record {
  slots = [];
  bytes = 0;
  budget = budget;
  max_entries = max_entries;
}

unfoldable pub new {ℓ} : {R : Type ℓ} → ℕ → ResourcePool R
unfolding with_limits
new budget = with_limits budget usize_max

unfoldable pub idle_count {ℓ} : {R : Type ℓ} → ResourcePool R → ℕ × ℕ
idle_count q = (length q.slots, q.bytes)

-- `Iterator::rposition`: the last position that satisfies the test.
unfoldable pub rposition {ℓ} : {A : Type ℓ} → (A → Bool) → List A → Option ℕ
rposition f [] = none
rposition f (x ∷ xs) = elim (rposition f xs) [
  | some i ↦ some (suc i)
  | none ↦ if f x then some 0 else none
]

module _ {ℓ} {R : Type ℓ} (p : Pooled R) where
  -- The loop of `set_budget`: the bytes that stay and how many of the oldest go.
  unfoldable pub overrun : ℕ → ℕ → List R → ℕ × ℕ
  overrun budget kept [] = (kept, 0)
  overrun budget kept (x ∷ xs) =
      let rest = overrun budget (sub64 kept (p.bytes x)) xs in
      if ltb budget kept then (rest.0, suc rest.1) else (kept, 0)

  unfoldable pub set_budget : ResourcePool R → ℕ → ResourcePool R
  set_budget q budget =
      let (kept, over) = overrun budget q.bytes q.slots in
      record q { slots = drop over q.slots; bytes = kept; budget = budget }

  -- `slots.remove(at)`, which panics out of range; `rposition` never gives such a position.
  abbrev take_at : ResourcePool R → ℕ → Option R → Option R × ResourcePool R
  take_at q at none = (none, q)
  take_at q at (some slot) =
      (some slot, record q { slots = remove_at at q.slots; bytes = sub64 q.bytes (p.bytes slot) })

  unfoldable pub take : ResourcePool R → p.Key → Option R × ResourcePool R
  take q key = elim (rposition (λ slot. p.key_eq (p.key slot) key) q.slots) [
    | none ↦ (none, q)
    | some at ↦ take_at q at (get_elem? q.slots at)
  ]

  -- `slots.remove(0)` and its accounting; `none` is the panic on an empty list.
  unfoldable pub pop_oldest : ResourcePool R → Option (R × ResourcePool R)
  pop_oldest q = elim q.slots [
    | [] ↦ none
    | old ∷ rest ↦ some (old, record q { slots = rest; bytes = sub64 q.bytes (p.bytes old) })
  ]

  -- A resource of `size` bytes can be kept now.
  abbrev pub has_room : ResourcePool R → ℕ → Bool
  has_room q size = leb q.bytes (q.budget - size) && ltb (length q.slots) q.max_entries

  -- The test that ends the eviction loop: nothing to make room for, or room.
  abbrev pub enough : ResourcePool R → ℕ → Bool
  enough q size = ltb q.budget size || has_room q size

  -- The eviction loop of `put`; `none` is a panic.
  unfoldable pub put_evict :
      ℕ → (ℕ → ResourcePool R → ResourcePool R) → ℕ → ResourcePool R → Option (ResourcePool R)
  put_evict zero others size q = some q
  put_evict (suc n) others size q =
      let next = λ (q' : ResourcePool R). put_evict n (λ k. others (suc k)) size (others 0 q') in
      if enough q size
      then some q
      else elim (pop_oldest q) [ none ↦ none | some (old, q') ↦ next q' ]

  -- The end of `put`, under the lock: refuse or push. `reserved` tells whether `try_reserve` did.
  abbrev pub put_last : Bool → R → ResourcePool R → ResourcePool R
  put_last reserved resource q =
      if ltb q.budget (p.bytes resource) || not (has_room q (p.bytes resource)) || not reserved
      then q
      else record q { slots = q.slots ++ resource ∷ []; bytes = add64 q.bytes (p.bytes resource) }

  abbrev put_locked :
      Bool
      → Bool
      → (ℕ → ResourcePool R → ResourcePool R)
      → R
      → ResourcePool R
      → Option (ResourcePool R)
  put_locked reserved reserved' others resource q =
      if reserved
      then elim (put_evict (length q.slots) others (p.bytes resource) q) [
        | none ↦ none
        | some q' ↦ some (put_last reserved' resource q')
      ]
      else some q

  abbrev pub refused : ResourcePool R → R → Bool
  refused q resource = ltb q.budget (p.bytes resource) || q.max_entries == 0

  -- `others 0` acts between the first look at the budget and the lock.
  unfoldable pub put :
      Bool
      → Bool
      → (ℕ → ResourcePool R → ResourcePool R)
      → R
      → ResourcePool R
      → Option (ResourcePool R)
  put reserved reserved' others resource q =
      if refused q resource
      then some q
      else put_locked reserved reserved' (λ k. others (suc k)) resource (others 0 q)

  -- The loop of `evict`, with the bytes freed so far.
  unfoldable pub evict_loop :
      ℕ → (ℕ → ResourcePool R → ResourcePool R) → ℕ → ℕ → ResourcePool R → ℕ × ResourcePool R
  evict_loop zero others bytes freed q = (freed, q)
  evict_loop (suc n) others bytes freed q =
      let next = λ (old : R) (q' : ResourcePool R).
        evict_loop n (λ k. others (suc k)) bytes (saturating_add freed (p.bytes old))
          (others 0 q') in
      if leb bytes freed
      then (freed, q)
      else elim (pop_oldest q) [ none ↦ (freed, q) | some (old, q') ↦ next old q' ]

  unfoldable pub evict :
      (ℕ → ResourcePool R → ResourcePool R) → ℕ → ResourcePool R → ℕ × ResourcePool R
  evict others bytes q = evict_loop (length q.slots) (λ k. others (suc k)) bytes 0 (others 0 q)
