-- ===== src/Context/Recency/Tests.antt =====
-- Runs of src/context/recency.rs, with scores in thousandths.
use vektor.Common.{◌≡◌, refl, true, arith}
use vektor.Common.Milli.{milli, milli-IsMonotone}
use vektor.Common.Int.{pos}
use vektor.Context.Recency.{RecencyTracker, score}
use vektor.Context.Recency.Bounds.{score_mono}

abbrev tracker : RecencyTracker
tracker = record { now = pos 1000000 }

score_mono_example :
    milli.le (score tracker 500 (pos 200000)) (score tracker 500 (pos 990000)) ≡ true
score_mono_example =
    score_mono milli-IsMonotone tracker 500 (pos 200000) (pos 990000) refl refl (omega arith)
      (omega arith)
