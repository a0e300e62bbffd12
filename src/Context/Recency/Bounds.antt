-- ===== src/Context/Recency/Bounds.antt =====
-- What the recency boost of src/context/recency.rs makes of the age of a file.
use vektor.Common.{ℕ, ◌≤◌, true, false, ◌≡◌, arith, if◌then◌else◌, leb, Bool-cases, inl, inr}
use vektor.Common.Float.{FloatOps, IsMonotone}
use vektor.Common.Int.{ℤ, pos, ◌-ℤ◌, leb_ℤ, ltb_ℤ, ◌≤ℤ◌}
use vektor.Context.Recency.{RecencyTracker, recency_multiplier, score, secs_24h, secs_7d}

-- How strongly a file is boosted: 2 in the first day, 1 in the first week, 0 otherwise.
rank : RecencyTracker → ℤ → ℕ
rank t m =
    let age = t.now -ℤ m in
    if leb_ℤ m (pos 0)
    then 0
    else if ltb_ℤ age (pos 0)
    then 0
    else if ltb_ℤ age secs_24h
    then 2
    else if ltb_ℤ age secs_7d
    then 1
    else 0

rank_mono : (t : RecencyTracker) (old new : ℤ) → old ≤ℤ new → new ≤ℤ t.now → rank t old ≤ rank t new
unfolding rank ◌-ℤ◌
rank_mono t old new h k = ground arith

module _ {F : Type 0} ⦃f : FloatOps F⦄ where
  abbrev factor : ℕ → F
  factor r =
      if leb 2 r then f.literal 11 10 else if leb 1 r then f.literal 103 100 else f.literal 10 10

  module _ (law : IsMonotone f) where
    score-rank :
        (t : RecencyTracker) (b : F) (m : ℤ)
        → f.le b (f.literal 3 10) ≡ false
        → score t b m ≡ f.mul b (factor (rank t m))
    unfolding score recency_multiplier rank
    score-rank t b m h = ground (arith, law.mul_one b)

    score_gated :
        (t : RecencyTracker) (b : F) (m : ℤ) → f.le b (f.literal 3 10) ≡ true → score t b m ≡ b
    unfolding score
    score_gated t b m h = ground arith

    factor_mono :
        (b : F) (r s : ℕ)
        → f.lt (f.literal 0 1) b ≡ true
        → r ≤ s
        → f.le (f.mul b (factor r)) (f.mul b (factor s)) ≡ true
    factor_mono b r s p h =
        law.mul_le b _ _ p
          (ground (
            arith,
            law.literal_pos 11 10 (omega arith) (omega arith),
            law.literal_pos 103 100 (omega arith) (omega arith),
            law.literal_pos 10 10 (omega arith) (omega arith),
          ))
          (ground (
            arith,
            law.literal_le 11 10 11 10 (omega arith) (omega arith) (omega arith),
            law.literal_le 103 100 11 10 (omega arith) (omega arith) (omega arith),
            law.literal_le 103 100 103 100 (omega arith) (omega arith) (omega arith),
            law.literal_le 10 10 11 10 (omega arith) (omega arith) (omega arith),
            law.literal_le 10 10 103 100 (omega arith) (omega arith) (omega arith),
            law.literal_le 10 10 10 10 (omega arith) (omega arith) (omega arith),
          ))

    -- Of two files with the same positive score, neither modified after the tracker's present, the
    -- one modified later never scores lower.
    pub score_mono :
        (t : RecencyTracker) (b : F) (old new : ℤ)
        → f.lt (f.literal 0 1) b ≡ true
        → f.le b b ≡ true
        → old ≤ℤ new
        → new ≤ℤ t.now
        → f.le (score t b old) (score t b new) ≡ true
    score_mono t b old new p r h k = elim (Bool-cases (f.le b (f.literal 3 10))) [
      | inl gate ↦ rw (score_gated t b old gate, score_gated t b new gate) r
      | inr open_gate ↦
          rw (score-rank t b old open_gate, score-rank t b new open_gate)
            (factor_mono b (rank t old) (rank t new) p (rank_mono t old new h k))
    ]
