-- ===== src/Pool/Tests.antt =====
-- Runs of src/pool.rs on a pool of 100 bytes and four entries.
use gpu_info_rs.Prelude.{
  ℕ, suc, ◌+◌, ◌≤◌, ◌<◌, max, ◌≡◌, refl, ◌⊎◌, true, none, some, List, [], ◌∷◌, ◌++◌, arith, ◌==◌,
  sub64, length, drop,
}
use gpu_info_rs.Pool.Interface.{Pooled}
use gpu_info_rs.Pool.{ResourcePool, set_budget, put, evict}
use gpu_info_rs.Pool
use gpu_info_rs.Pool.Invariant.{total, IsValid, Fair, put-IsValid}
use gpu_info_rs.Pool.Lookup.{Fails, matches, take_latest}
use gpu_info_rs.Pool.Eviction.{quiet}
use gpu_info_rs.Pool.Return.{holding, put_keeps, take-put}
use gpu_info_rs.Pool.Gate.{Gate, admit, Entry, admitted, enter_until}
use gpu_info_rs.Pool.Gate.Threads.{Hall, opened, Step, enters, Reach, here, next}
use gpu_info_rs.Pool.Gate.Conservation.{opened_bounded}
use gpu_info_rs.Pool.Gate.Wakeups.{begin, on, Calm-awake, wakeup_lost}

record Buffer : Type 0 where
  label : ℕ
  size : ℕ

abbrev buffer : ℕ → ℕ → Buffer
buffer label size = record { label = label; size = size }

abbrev labelled : Pooled Buffer
labelled = record { Key = ℕ; key_eq = λ a b. a == b; key = λ b. b.label; bytes = λ b. b.size }

abbrev shelf : ResourcePool Buffer
shelf = record {
  slots = buffer 1 10 ∷ buffer 2 20 ∷ buffer 1 30 ∷ [];
  bytes = 60;
  budget = 100;
  max_entries = 4;
}

shelf-IsValid : IsValid labelled shelf
shelf-IsValid = record {
  counted = refl;
  within = omega arith;
  budget_fits = omega arith;
  entries = omega arith;
}

quiet-Fair : Fair labelled quiet
quiet-Fair k q v = (v, refl)

abbrev entered : Hall
entered = record {
  gate = record { free = 1 };
  inside = 1;
  asleep = 0;
  awake = 0;
  dozing = 0;
  roused = 0;
}

enters_once : Step (opened 2) entered
unfolding Pool.Gate.new admit
enters_once = enters (record { free = 1 }) refl

put-IsValid_example :
    (q' : ResourcePool Buffer) × (put labelled true true quiet (buffer 3 60) shelf ≡ some q')
    × IsValid labelled q'
    × (q'.max_entries ≡ 4)
put-IsValid_example =
    put-IsValid labelled true true quiet (buffer 3 60) shelf quiet-Fair shelf-IsValid

take_latest_example :
    (Pool.take labelled shelf 1 ≡ (none, shelf)) × Fails (matches labelled shelf 1) shelf.slots
    ⊎ ((pre : List Buffer) × (slot : Buffer) × (post : List Buffer) × (shelf.slots
          ≡ pre ++ slot ∷ post)
        × (matches labelled shelf 1 slot ≡ true)
        × Fails (matches labelled shelf 1) post
        × (Pool.take labelled shelf 1
            ≡ (some slot, record shelf { slots = pre ++ post; bytes = sub64 60 slot.size })))
take_latest_example = take_latest labelled shelf 1

put_keeps_example :
    (n : ℕ) × (put labelled true true quiet (buffer 3 60) shelf
      ≡ some (holding labelled (drop n shelf.slots ++ buffer 3 60 ∷ []) shelf))
    × (total labelled (drop n shelf.slots) + 60 ≤ 100)
    × (length (drop n shelf.slots) < 4)
    × ((n ≡ 0)
        ⊎ ((m : ℕ) × (n ≡ suc m)
            × ((100 < total labelled (drop m shelf.slots) + 60)
                ⊎ (4 ≤ length (drop m shelf.slots)))))
put_keeps_example = put_keeps labelled (buffer 3 60) shelf shelf-IsValid (omega arith) (omega arith)

take-put_example :
    (q' : ResourcePool Buffer) × (rest : ResourcePool Buffer) × (put labelled true true quiet
        (buffer 3 60)
        shelf
      ≡ some q')
    × (Pool.take labelled q' 3 ≡ (some (buffer 3 60), rest))
    × IsValid labelled rest
take-put_example =
    take-put labelled (buffer 3 60) 3 shelf shelf-IsValid (omega arith) (omega arith) refl

opened_bounded_example : (entered.inside ≤ max 1 2) × (entered.gate.free + entered.inside ≡ max 1 2)
opened_bounded_example = opened_bounded 2 {h = entered} (omega arith) (next here enters_once)

Calm-awake_example : (entered.asleep ≡ 0) ⊎ (entered.gate.free ≤ entered.awake)
Calm-awake_example = Calm-awake 2 {h = entered} (on begin enters_once refl refl)

wakeup_lost_example :
    (h : Hall) × Reach (opened 2) h
    × (0 < h.gate.free)
    × (0 < h.asleep)
    × (h.awake ≡ 0)
    × (h.dozing ≡ 0)
    × (h.roused ≡ 0)
wakeup_lost_example = wakeup_lost 2
