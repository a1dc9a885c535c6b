-- ===== src/Stats/Drm.antt =====
-- GPU counters of DRM sysfs (src/stats/drm.rs). A file is what it holds, if it can be read: as a number,
-- and as its first line.
use gpu_info_rs.Prelude.{
  ℕ, zero, suc, false, not, ◌&&◌, Option, none, some, List, [], ◌∷◌, if◌then◌else◌, is_some,
  map_option,
}
use gpu_info_rs.Stats.Floats.{Float}
use gpu_info_rs.Stats.Names.{Name}
use gpu_info_rs.Stats.{GpuStats, default_stats}

-- The attributes of one card's device.
pub record Card : Type 0 where
  pub gpu_busy_percent : Option ℕ
  pub mem_info_vram_total : Option ℕ
  pub mem_info_vram_used : Option ℕ
  pub label : Option Name
  pub product_name : Option Name

abbrev pub max_cards : ℕ
max_cards = 8

abbrev or_else : Option Name → Option Name → Option Name
or_else none instead = instead
or_else (some n) instead = some n

module _ (fl : Float) where
  unfoldable pub card : Card → Option (GpuStats fl)
  card c =
      if not (is_some c.gpu_busy_percent)
        && not (is_some c.mem_info_vram_total)
        && not (is_some c.mem_info_vram_used)
      then none
      else some (record (default_stats fl) {
        name = or_else c.label c.product_name;
        util_pct = map_option (λ busy. fl.clamp_percent (fl.of busy)) c.gpu_busy_percent;
        mem_used_bytes = c.mem_info_vram_used;
        mem_total_bytes = c.mem_info_vram_total;
        unified = false;
      })

  abbrev and_rest : Option (GpuStats fl) → List (GpuStats fl) → List (GpuStats fl)
  and_rest none rest = rest
  and_rest (some s) rest = s ∷ rest

  abbrev cards_from : (ℕ → Card) → (left index : ℕ) → List (GpuStats fl)
  cards_from cards zero index = []
  cards_from cards (suc left) index =
      and_rest (card (cards index)) (cards_from cards left (suc index))

  -- `query_all`: the cards by index.
  unfoldable pub query_all : (ℕ → Card) → List (GpuStats fl)
  query_all cards = cards_from cards max_cards 0
