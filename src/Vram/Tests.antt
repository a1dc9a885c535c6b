-- ===== src/Vram/Tests.antt =====
-- Runs of src/vram.rs.
use gpu_info_rs.Prelude.{
  ℕ, ◌≡◌, refl, ◌↔◌, Bool, true, false, none, some, List, [], ◌∷◌, map, ◌==◌, arith,
}
use gpu_info_rs.Vram.{budget_chainable}
use gpu_info_rs.Vram.Watch.{Call, new, replies, budget_with, failed, recovered}
use gpu_info_rs.Vram.Cached.{shown, promises, new-promises, Shown}

-- Readings of adapters 0 and 1 with an interval of 10.
abbrev calls : List (Call ℕ)
calls =
    record { device = 0; query = some 7; now = 1; done = 2 }
    ∷ record { device = 0; query = some 8; now = 11; done = 12 }
    ∷ record { device = 0; query = none; now = 12; done = 13 }
    ∷ record { device = 0; query = some 9; now = 30; done = 31 }
    ∷ record { device = 1; query = none; now = 32; done = 33 }
    ∷ []

abbrev same : ℕ → ℕ → Bool
same a b = a == b

same-exact : (a b : ℕ) → (same a b ≡ true) ↔ (a ≡ b)
same-exact a b = ground arith

new-promises_example : map shown (replies same (new 10) calls) ≡ promises same 10 none calls
new-promises_example = new-promises same same-exact 10 calls

answers :
    map (λ r. Shown.answer r) (map shown (replies same (new 10) calls))
    ≡ some 7 ∷ some 7 ∷ none ∷ some 9 ∷ none ∷ []
unfolding budget_with
answers = refl

logged :
    map (λ r. Shown.events r) (map shown (replies same (new 10) calls))
    ≡ [] ∷ [] ∷ (failed ∷ []) ∷ (recovered 9 ∷ []) ∷ (failed ∷ []) ∷ []
unfolding budget_with
logged = refl

chained : budget_chainable 4206592 ("VK_KHR_swapchain" ∷ "VK_EXT_memory_budget" ∷ []) ≡ true
unfolding budget_chainable
chained = refl

not_chained : budget_chainable 4194304 ("VK_EXT_memory_budget" ∷ []) ≡ false
unfolding budget_chainable
not_chained = refl
