-- ===== src/Stats/Engines.antt =====
-- Which total the busiest engine is taken from (src/stats/windows.rs).
use Prim.Native.String.{String}
use gpu_info_rs.Prelude.{
  ◌≡◌, refl, sym, ap, ◌∙◌, inl, inr, false, Option, none, some, List, [], ◌∷◌, arith, string_eq,
  string_eq_iff, if◌then◌else◌, Bool-cases,
}
use gpu_info_rs.Stats.Floats.{Float}
use gpu_info_rs.Stats.Windows.{Instance, engine_type, add_total, visit_engine, engine_totals}

module _ (fl : Float) where
  abbrev pub found_total : String → List (String × fl.Double) → Option fl.Double
  found_total t [] = none
  found_total t ((k, sum) ∷ rest) =
      let later = found_total t rest in if string_eq k t then some sum else later

  -- The sum so far with one more value.
  abbrev pub plus_value : Option fl.Double → fl.Double → Option fl.Double
  plus_value none value = some value
  plus_value (some sum) value = some (fl.plus sum value)

  abbrev plus_engine : String → Option String → fl.Double → Option fl.Double → Option fl.Double
  plus_engine t none value sum = sum
  plus_engine t (some name) value sum =
      if string_eq (engine_type name) t then plus_value sum value else sum

  -- The values of one engine type alone, added up in their order.
  abbrev pub sum_of : String → List (Instance fl) → Option fl.Double → Option fl.Double
  sum_of t [] sum = sum
  sum_of t (i ∷ is) sum = sum_of t is (plus_engine t i.engine i.value sum)

  found_total-add_total :
      (t engine : String) (value : fl.Double) (totals : List (String × fl.Double))
      → found_total t (add_total fl engine value totals) ≡ (
          if string_eq engine t
          then plus_value (found_total t totals) value
          else found_total t totals)
  found_total-add_total t engine value [] = elim (Bool-cases (string_eq engine t)) [
    | inl here ↦ rw here refl
    | inr there ↦ rw there refl
  ]
  found_total-add_total t engine value ((k, sum) ∷ rest) = elim (Bool-cases (string_eq k engine)) [
    | inl hit ↦
        let same : string_eq k t ≡ string_eq engine t = rw ((string_eq_iff k engine).0 hit) refl in
        elim (Bool-cases (string_eq engine t)) [
          | inl here ↦ rw (hit, same, here) refl
          | inr there ↦ rw (hit, same, there) refl
        ]
    | inr miss ↦ elim (Bool-cases (string_eq k t)) [
      | inl here ↦
          let apart : string_eq engine t ≡ false = elim (Bool-cases (string_eq engine t)) [
            | inr e ↦ e
            | inl e ↦
                let equal : k ≡ engine =
                  (string_eq_iff k t).0 here ∙ sym ((string_eq_iff engine t).0 e) in
                let hit = (string_eq_iff k engine).1 equal in absurd (ground arith)
          ] in
          rw (miss, here, apart) refl
      | inr there ↦ rw (miss, there) (found_total-add_total t engine value rest)
    ]
  ]

  found_total-visit :
      (t : String) (engine : Option String) (value : fl.Double) (totals : List (String × fl.Double))
      → found_total t (visit_engine fl engine value totals)
        ≡ plus_engine t engine value (found_total t totals)
  found_total-visit t none value totals = refl
  found_total-visit t (some name) value totals =
      found_total-add_total t (engine_type name) value totals

  engine_totals-sum_from :
      (t : String) (is : List (Instance fl)) (totals : List (String × fl.Double))
      → found_total t (engine_totals fl is totals) ≡ sum_of t is (found_total t totals)
  unfolding engine_totals
  engine_totals-sum_from t [] totals = refl
  engine_totals-sum_from t (i ∷ is) totals =
      engine_totals-sum_from t is (visit_engine fl i.engine i.value totals)
      ∙ ap (λ s. sum_of t is s) (found_total-visit t i.engine i.value totals)

  -- The table of totals has, for each engine type, the values of the instances of that type alone,
  -- added up in their order, and nothing for a type without an instance.
  pub engine_totals-sum_of :
      (t : String) (is : List (Instance fl))
      → found_total t (engine_totals fl is []) ≡ sum_of t is none
  engine_totals-sum_of t is = engine_totals-sum_from t is []
