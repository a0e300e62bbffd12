-- ===== src/IndexStatus/Tests.antt =====
-- Runs of src/index_status.rs.
use vektor.Common.{List, ◌≤◌, max, [], ◌∷◌, ◌≡◌, refl, true, false}
use vektor.Common.Text.{codes, text_eq}
use vektor.IndexStatus.{
  IndexPhase, Phases, Disk, rank, get, insert, new, set_phase, status, mark_building, mark_partial,
  mark_full, status_for_root, phase_from_disk, as_str,
}
use vektor.IndexStatus.Phases.{rank-mark_partial, Call, run_all, run_all-forward}

forward_only :
    status (codes "a") (mark_partial (codes "a") (mark_full (codes "a") (new (codes "a" ∷ []))))
    ≡ IndexPhase.full
unfolding status mark_partial mark_full set_phase new get insert rank text_eq
forward_only = refl

reset_by_building :
    as_str (status (codes "a") (mark_building (codes "a") (mark_full (codes "a") (new []))))
    ≡ codes "building"
unfolding as_str status mark_building mark_full set_phase new get insert text_eq
reset_by_building = refl

abbrev tracked : Phases
tracked = (codes "a", IndexPhase.full) ∷ []

rank-mark_partial_example :
    rank (status (codes "a") (mark_partial (codes "a") tracked))
    ≡ max 1 (rank (status (codes "a") tracked))
rank-mark_partial_example = rank-mark_partial (codes "a") tracked

abbrev disk : Disk
disk = record { text_searchable = true; vector_full = false }

abbrev calls : List Call
calls =
    Call.look (codes "b") disk
    ∷ Call.mark_full_of (codes "b")
    ∷ Call.mark_partial_of (codes "b")
    ∷ []

run_all-forward_example :
    rank (status (codes "b") tracked) ≤ rank (status (codes "b") (run_all calls tracked))
run_all-forward_example = run_all-forward calls (codes "b") tracked

-- Another thread between the two locks can have its phase overwritten.
overwritten :
    status (codes "b") (status_for_root (codes "b") disk (mark_full (codes "b")) tracked).1
    ≡ IndexPhase.partial
unfolding status status_for_root mark_full set_phase phase_from_disk get insert text_eq
overwritten = refl

half_indexed : phase_from_disk disk ≡ IndexPhase.partial
unfolding phase_from_disk
half_indexed = refl
