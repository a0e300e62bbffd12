-- ===== src/Context/Dedup/Tests.antt =====
-- Runs of src/context/dedup.rs.
use vektor.Common.{◌≤◌, All, Any, length, [], ◌≡◌, refl, true, false}
use vektor.Common.Milli.{milli, milli-IsTotalOrder}
use vektor.Common.Text.{codes, text_eq}
use vektor.Samples.{found, two_overlapping}
use vektor.Context.Dedup.{deduplicate, should_merge, overlap_lines, span, min_span}
use vektor.Context.Dedup.Coverage.{Covers, deduplicate-Covers}
use vektor.Context.Dedup.Origin.{Widens, deduplicate-FromInput, length-deduplicate-le}

-- Eleven common lines of twenty merge; ten, the half, do not.
eleven_merge : should_merge (found [] (codes "a") 1 20 0) (found [] (codes "a") 10 30 0) ≡ true
unfolding should_merge text_eq overlap_lines min_span span
eleven_merge = refl

half_stays : should_merge (found [] (codes "a") 1 20 0) (found [] (codes "a") 11 30 0) ≡ false
unfolding should_merge text_eq overlap_lines min_span span
half_stays = refl

deduplicate-Covers_example : All (λ c. Any (Covers c) (deduplicate two_overlapping)) two_overlapping
deduplicate-Covers_example = deduplicate-Covers milli-IsTotalOrder two_overlapping

length-deduplicate-le_example : length (deduplicate two_overlapping) ≤ length two_overlapping
length-deduplicate-le_example = length-deduplicate-le two_overlapping

deduplicate-FromInput_example :
    All (λ d. Any (Widens d) two_overlapping) (deduplicate two_overlapping)
deduplicate-FromInput_example = deduplicate-FromInput two_overlapping
