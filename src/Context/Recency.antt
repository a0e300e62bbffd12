-- ===== src/Context/Recency.antt =====
-- src/context/recency.rs: recently modified files are boosted.
pub mod Bounds
mod Tests
use vektor.Common.{ℕ, Bool, ◌||◌, if◌then◌else◌}
use vektor.Common.Float.{FloatOps}
use vektor.Common.Int.{ℤ, pos, ◌-ℤ◌, leb_ℤ, ltb_ℤ}

abbrev pub secs_24h : ℤ
secs_24h = pos 86400

abbrev pub secs_7d : ℤ
secs_7d = pos 604800

pub record RecencyTracker : Type 0 where
  pub now : ℤ

module _ {F : Type 0} ⦃f : FloatOps F⦄ where
  pub recency_multiplier : ℤ → F
  recency_multiplier age_secs =
      if ltb_ℤ age_secs secs_24h
      then f.literal 11 10
      else if ltb_ℤ age_secs secs_7d
      then f.literal 103 100
      else f.literal 10 10

  -- `min_boost_score` is 0.3.
  pub score : RecencyTracker → F → ℤ → F
  score tracker base_score mtime =
      if f.le base_score (f.literal 3 10) || leb_ℤ mtime (pos 0)
      then base_score
      else let age = tracker.now -ℤ mtime in
        if ltb_ℤ age (pos 0) then base_score else f.mul base_score (recency_multiplier age)
