-- ===== src/IndexStatus/Phases.antt =====
-- How src/index_status.rs moves the phase of a project.
use vektor.Common.{
  some, none, List, [], ◌∷◌, ◌≡◌, ◌≢◌, ◌≤◌, ℕ, sym, subst, max, arith, inl, inr, Bool-cases,
  Option-cases, ltb, true, false,
}
use vektor.Common.Text.{Text, text_eq, eq→text_eq, text_eq→eq, text_eq_refl, ne→text_eq}
use vektor.IndexStatus.{
  IndexPhase, rank, Phases, get, insert, status, mark_partial, mark_full, set_phase, Disk,
  phase_from_disk, status_for_root,
}

get-insert_same : (k : Text) (p : IndexPhase) (ps : Phases) → get k (insert k p ps) ≡ some p
unfolding get insert
get-insert_same k p [] = ground (arith, text_eq_refl k)
get-insert_same k p (e ∷ ps) = ground (arith, text_eq_refl k, get-insert_same k p ps)

get-insert_other :
    (k j : Text) (p : IndexPhase) (ps : Phases) → j ≢ k → get j (insert k p ps) ≡ get j ps
unfolding get insert
get-insert_other k j p [] n = ground (arith, ne→text_eq k j (λ e. n (cc)))
get-insert_other k j p (e ∷ ps) n =
    ground (arith, ne→text_eq k j (λ e. n (cc)), text_eq→eq e.0 k, get-insert_other k j p ps n)

-- `mark_partial` raises the phase of its project to at least partial, and never lowers it: the
-- phase becomes the greater of the old one and partial.
pub rank-mark_partial :
    (key : Text) (phases : Phases)
    → rank (status key (mark_partial key phases)) ≡ max 1 (rank (status key phases))
unfolding mark_partial status rank
rank-mark_partial key phases = ground (arith, get-insert_same key IndexPhase.partial phases)

-- The calls that move phases forward; a look reads the disk where the tracker has no phase, and no
-- other thread comes between its two locks.
pub data Call : Type 0 where
  mark_partial_of mark_full_of : Text → Call
  look : Text → Disk → Call

abbrev pub run : Call → Phases → Phases
run (Call.mark_partial_of key) phases = mark_partial key phases
run (Call.mark_full_of key) phases = mark_full key phases
run (Call.look key disk) phases = (status_for_root key disk (λ (p : Phases). p) phases).1

abbrev pub run_all : List Call → Phases → Phases
run_all [] phases = phases
run_all (call ∷ calls) phases = run_all calls (run call phases)

status-insert_same : (k : Text) (p : IndexPhase) (ps : Phases) → status k (insert k p ps) ≡ p
unfolding status
status-insert_same k p ps = ground (arith, get-insert_same k p ps)

status-insert_other :
    (k j : Text) (p : IndexPhase) (ps : Phases) → j ≢ k → status j (insert k p ps) ≡ status j ps
unfolding status
status-insert_other k j p ps n = ground (arith, get-insert_other k j p ps n)

-- An insertion that does not lower its project lowers none.
insert-forward :
    (key project : Text) (phase : IndexPhase) (phases : Phases)
    → rank (status key phases) ≤ rank phase
    → rank (status project phases) ≤ rank (status project (insert key phase phases))
insert-forward key project phase phases h = elim (Bool-cases (text_eq project key)) [
  | inl same ↦
      subst (λ p. rank (status p phases) ≤ rank (status p (insert key phase phases)))
        (sym (text_eq→eq project key same)) (rw (status-insert_same key phase phases) h)
  | inr other ↦
      let n : project ≢ key = λ e. ground (arith, eq→text_eq project key e) in
      rw (status-insert_other key project phase phases n) (omega arith)
]

rank_le : (phase : IndexPhase) → rank phase ≤ rank IndexPhase.full
unfolding rank
rank_le IndexPhase.building = omega arith
rank_le IndexPhase.partial = omega arith
rank_le IndexPhase.full = omega arith

status_untracked :
    (key : Text) (phases : Phases) → get key phases ≡ none → rank (status key phases) ≡ 0
unfolding status rank
status_untracked key phases e = ground arith

mark_partial_low :
    (key : Text) (phases : Phases)
    → ltb (rank (status key phases)) 2 ≡ true
    → mark_partial key phases ≡ insert key IndexPhase.partial phases
unfolding mark_partial status rank
mark_partial_low key phases e = ground arith

mark_partial_high :
    (key : Text) (phases : Phases)
    → ltb (rank (status key phases)) 2 ≡ false
    → mark_partial key phases ≡ phases
unfolding mark_partial status rank
mark_partial_high key phases e = ground arith

below : {n : ℕ} → ltb n 2 ≡ true → n ≤ rank IndexPhase.partial
unfolding rank
below e = ground arith

look_tracked :
    (key : Text) (disk : Disk) (phase : IndexPhase) (phases : Phases)
    → get key phases ≡ some phase
    → (status_for_root key disk (λ (p : Phases). p) phases).1 ≡ phases
unfolding status_for_root
look_tracked key disk phase phases e = ground arith

look_untracked :
    (key : Text) (disk : Disk) (phases : Phases)
    → get key phases ≡ none
    → (status_for_root key disk (λ (p : Phases). p) phases).1
      ≡ insert key (phase_from_disk disk) phases
unfolding status_for_root
look_untracked key disk phases e = ground arith

run-forward :
    (call : Call) (project : Text) (phases : Phases)
    → rank (status project phases) ≤ rank (status project (run call phases))
unfolding mark_full set_phase
run-forward (Call.mark_partial_of key) project phases =
    elim (Bool-cases (ltb (rank (status key phases)) 2)) [
      | inl low ↦
          rw (mark_partial_low key phases low)
            (insert-forward key project IndexPhase.partial phases (below low))
      | inr high ↦ rw (mark_partial_high key phases high) (omega arith)
    ]
run-forward (Call.mark_full_of key) project phases =
    insert-forward key project IndexPhase.full phases (rank_le (status key phases))
run-forward (Call.look key disk) project phases = elim (Option-cases (get key phases)) [
  | inr (phase, tracked) ↦ rw (look_tracked key disk phase phases tracked) (omega arith)
  | inl untracked ↦ rw (look_untracked key disk phases untracked) (
      insert-forward key project (phase_from_disk disk) phases
        (rw (status_untracked key phases untracked) (omega arith)))
]

-- Phases only move forward: no sequence of `mark_partial`, `mark_full` and `status_for_root` calls,
-- on whatever projects, lowers the phase of any project, where no other thread comes between the
-- two locks of `status_for_root`.
pub run_all-forward :
    (calls : List Call) (project : Text) (phases : Phases)
    → rank (status project phases) ≤ rank (status project (run_all calls phases))
run_all-forward [] project phases = omega arith
run_all-forward (call ∷ calls) project phases =
    omega (arith, run-forward call project phases, run_all-forward calls project (run call phases))
