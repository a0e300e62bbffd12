-- ===== src/IndexStatus.antt =====
-- src/index_status.rs: the phase of each project's index. The map behind the lock is a list of
-- entries; every method takes the lock once, except `status_for_root`, which takes it twice.
pub mod Phases
mod Tests
use vektor.Common.{ℕ, Bool, true, false, Option, some, none, List, [], ◌∷◌, if◌then◌else◌, ltb}
use vektor.Common.Text.{Text, codes, text_eq}

pub data IndexPhase : Type 0 where
  building partial full : IndexPhase

pub as_str : IndexPhase → Text
as_str IndexPhase.building = codes "building"
as_str IndexPhase.partial = codes "partial"
as_str IndexPhase.full = codes "full"

-- The derived order.
unfoldable pub rank : IndexPhase → ℕ
rank IndexPhase.building = 0
rank IndexPhase.partial = 1
rank IndexPhase.full = 2

abbrev pub Phases : Type 0
Phases = List (Text × IndexPhase)

pub get : Text → Phases → Option IndexPhase
get key [] = none
get key (entry ∷ phases) = if text_eq entry.0 key then some entry.1 else get key phases

pub insert : Text → IndexPhase → Phases → Phases
insert key phase [] = (key, phase) ∷ []
insert key phase (entry ∷ phases) =
    if text_eq entry.0 key then (entry.0, phase) ∷ phases else entry ∷ insert key phase phases

pub new : List Text → Phases
unfolding insert
new = register []
  where
    register : Phases → List Text → Phases
    register phases [] = phases
    register phases (key ∷ keys) = register (insert key IndexPhase.building phases) keys

pub set_phase : Text → IndexPhase → Phases → Phases
set_phase = insert

pub status : Text → Phases → IndexPhase
status key phases = elim (get key phases) [ none ↦ IndexPhase.building | some phase ↦ phase ]

pub mark_building : Text → Phases → Phases
mark_building key = set_phase key IndexPhase.building

pub mark_partial : Text → Phases → Phases
mark_partial key phases =
    let current = elim (get key phases) as (λ _. IndexPhase) [
      | none ↦ IndexPhase.building
      | some phase ↦ phase
    ] in
    if ltb (rank current) (rank IndexPhase.full)
    then insert key IndexPhase.partial phases
    else phases

pub mark_full : Text → Phases → Phases
mark_full key = set_phase key IndexPhase.full

-- What `phase_from_disk` reads: whether the text index is searchable, and whether the vector store
-- records a full index.
pub record Disk : Type 0 where
  pub text_searchable : Bool
  pub vector_full : Bool

pub phase_from_disk : Disk → IndexPhase
phase_from_disk disk =
    if disk.text_searchable
    then if disk.vector_full then IndexPhase.full else IndexPhase.partial
    else IndexPhase.building

-- `between` is what other threads do to the map after the read lock is released.
pub status_for_root : Text → Disk → (Phases → Phases) → Phases → IndexPhase × Phases
status_for_root project_key disk between phases = elim (get project_key phases) [
  | some phase ↦ (phase, phases)
  | none ↦ let phase = phase_from_disk disk in (phase, insert project_key phase (between phases))
]
