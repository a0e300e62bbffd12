-- ===== src/FileState/Rows.antt =====
-- The table of src/state.rs under `set_hash`.
use vektor.Common.{
  ap, ◌∙◌, ℕ, subst, sym, if◌then◌else◌, Bool-cases, inl, inr, Option-cases, Option, some, none,
  List, [], ◌∷◌, ◌≡◌, ◌≢◌, refl, arith,
}
use vektor.Common.Text.{Text, codes, text_eq, text_eq→eq, text_eq_refl, eq→text_eq, ne→text_eq}
use vektor.Common.Outcome.{Result, ok, err, Result-cases, VektorError}
use vektor.Common.Action.{Action, after, modify, ◌>>=◌, ◌>>◌, Ends, Ends-imp, Triple-bind}
use vektor.FileState.{
  FileStatus, as_str, from_str, FileRow, HashStore, Host, find_row, upsert, statement, get_status,
  get_hash, parse_status, indexed_at_for, current_unix_epoch, set_hash,
}

pub find_row-upsert_same :
    (row : FileRow) (rows : List FileRow) → find_row row.rel_path (upsert row rows) ≡ some row
unfolding find_row upsert
find_row-upsert_same row [] = ground (arith, text_eq_refl row.rel_path)
find_row-upsert_same row (r ∷ rows) =
    ground (arith, text_eq_refl row.rel_path, find_row-upsert_same row rows)

pub find_row-upsert_other :
    (key : Text) (row : FileRow) (rows : List FileRow)
    → key ≢ row.rel_path
    → find_row key (upsert row rows) ≡ find_row key rows
unfolding find_row upsert
find_row-upsert_other key row [] n = ground (arith, ne→text_eq row.rel_path key (λ e. n (cc)))
find_row-upsert_other key row (r ∷ rows) n = ground (
  arith,
  ne→text_eq row.rel_path key (λ e. n (cc)),
  text_eq→eq r.rel_path row.rel_path,
  find_row-upsert_other key row rows n,
)

-- Every status is read back as it was written.
pub from_str-as_str : (status : FileStatus) → from_str (as_str status) ≡ ok status
unfolding from_str as_str text_eq
from_str-as_str FileStatus.pending = refl
from_str-as_str FileStatus.indexed = refl
from_str-as_str FileStatus.failed = refl

pub as_str-from_str :
    (text : Text) (status : FileStatus) → from_str text ≡ ok status → text ≡ as_str status
unfolding from_str as_str
as_str-from_str text status h = ground (
  arith,
  text_eq→eq text (codes "pending"),
  text_eq→eq text (codes "indexed"),
  text_eq→eq text (codes "failed"),
)

abbrev status_result : Option FileStatus → Result FileStatus
status_result none = err (VektorError.state [])
status_result (some status) = ok status

-- The hash and the status that the table holds for a file.
abbrev pub entry_of : Option FileRow → Option (Text × Text)
entry_of none = none
entry_of (some row) = some (row.hash, row.status)

abbrev pub entry : Text → HashStore → Option (Text × Text)
entry key store = entry_of (find_row key store.rows)

entry-upsert :
    (key : Text) (row : FileRow) (rows : List FileRow)
    → entry_of (find_row key (upsert row rows)) ≡ (
        if text_eq row.rel_path key
        then some (row.hash, row.status)
        else entry_of (find_row key rows))
entry-upsert key row rows = elim (Bool-cases (text_eq row.rel_path key)) [
  | inl same ↦
      let e : row.rel_path ≡ key = text_eq→eq row.rel_path key same in
      let found : find_row key (upsert row rows) ≡ some row =
        subst (λ k. find_row k (upsert row rows) ≡ some row) e (find_row-upsert_same row rows) in
      rw (same, found) refl
  | inr other ↦
      let n : key ≢ row.rel_path = λ e. absurd (cc (eq→text_eq row.rel_path key (sym e))) in
      rw (other, find_row-upsert_other key row rows n) refl
]

module _ (host : Host) where
  current_unix_epoch-same :
      (store : HashStore) → Ends (λ _ s. s ≡ store) (λ s. s ≡ store) (current_unix_epoch host store)
  unfolding current_unix_epoch
  current_unix_epoch-same store = ground arith

  indexed_at_for-same :
      (status : FileStatus) (store : HashStore)
      → Ends (λ _ s. s ≡ store) (λ s. s ≡ store) (indexed_at_for host status store)
  unfolding indexed_at_for after ◌>>=◌
  indexed_at_for-same FileStatus.pending store = refl
  indexed_at_for-same FileStatus.indexed store = ground (arith, current_unix_epoch-same store)
  indexed_at_for-same FileStatus.failed store = ground (arith, current_unix_epoch-same store)

module _ (host : Host) (rel_path hash key : Text) where
  -- What a successful write of a status leaves.
  abbrev Wrote : FileStatus → HashStore → Unit {0} → HashStore → Type 0
  Wrote status store _ store' =
      entry key store'
      ≡ (if text_eq rel_path key then some (hash, as_str status) else entry key store)

  abbrev Kept : HashStore → HashStore → Type 0
  Kept store store' = entry key store' ≡ entry key store

  write : FileStatus → Option ℕ → Action HashStore Unit
  write status at = do
    statement host
    modify λ (s : HashStore). record s {
      rows =
          upsert
            (record { rel_path = rel_path; hash = hash; status = as_str status; indexed_at = at })
            s.rows;
    }

  write-Wrote :
      (status : FileStatus) (at : Option ℕ) (store : HashStore)
      → Ends (Wrote status store) (Kept store) (write status at store)
  unfolding write statement after ◌>>=◌
  write-Wrote status at store = elim (Option-cases (host.sqlite_failure store.statements)) [
    | inl runs ↦ rw runs (entry-upsert key _ store.rows)
    | inr (text, fails) ↦ rw fails refl
  ]

  -- `set_hash` either writes the hash and the status of its file, so that every other file keeps
  -- its own, or ends in an error and leaves every entry as it was.
  pub set_hash-entry :
      (status : FileStatus) (store : HashStore)
      → Ends
          (λ _ store'.
            entry key store'
            ≡ (if text_eq rel_path key then some (hash, as_str status) else entry key store))
          (λ store'. entry key store' ≡ entry key store)
          (set_hash host rel_path hash status store)
  unfolding set_hash write after ◌>>=◌
  set_hash-entry status store =
      Triple-bind (λ s. s ≡ store) (λ _ s. s ≡ store) (Wrote status store) (Kept store)
        (indexed_at_for host status) (write status)
        (λ s same. rw same (
          Ends-imp (λ _ t. t ≡ store) (λ _ t. t ≡ store) (λ t. t ≡ store) (Kept store)
            (indexed_at_for host status store) (λ _ _ e. e) (λ t e. rw e refl)
            (indexed_at_for-same host status store)))
        (λ at s same. rw same (write-Wrote status at store)) store refl

  -- After a write that ended in any way, an entry of another status is an old one.
  pub entry-set_hash_old :
      (status other : FileStatus) (old : Text) (store : HashStore)
      → as_str status ≢ as_str other
      → entry key (set_hash host rel_path hash status store).1 ≡ some (old, as_str other)
      → entry key store ≡ some (old, as_str other)
  entry-set_hash_old status other old store differ e =
      old_entry (set_hash host rel_path hash status store) (set_hash-entry status store) e
    where
      old_entry :
          (out : Result Unit × HashStore)
          → Ends (Wrote status store) (Kept store) out
          → entry key out.1 ≡ some (old, as_str other)
          → entry key store ≡ some (old, as_str other)
      old_entry (ok _, s) h e = ground arith
      old_entry (err _, s) h e = ground arith

module _ (host : Host) (key : Text) where
  -- Reading leaves the table alone.
  pub get_hash-rows : (store : HashStore) → (get_hash host key store).1.rows ≡ store.rows
  unfolding get_hash statement after ◌>>=◌
  get_hash-rows store = ground arith

  pub get_status-rows : (store : HashStore) → (get_status host key store).1.rows ≡ store.rows
  unfolding get_status statement parse_status after ◌>>=◌
  get_status-rows store = ground arith

  -- A status that is read is that of the entry.
  pub get_status-entry :
      (status : FileStatus) (store : HashStore)
      → Ends
          (λ read store'.
            read ≡ some status → (h : Text) × (entry key store' ≡ some (h, as_str status)))
          (λ _. Unit {0})
          (get_status host key store)
  unfolding get_status statement parse_status after ◌>>=◌
  get_status-entry status store = elim (Option-cases (host.sqlite_failure store.statements)) [
    | inr (text, fails) ↦ rw fails tt
    | inl runs ↦ elim (Option-cases (find_row key store.rows)) [
      | inl missing ↦ rw runs (rw missing (λ e. cc))
      | inr (row, found) ↦ elim (Result-cases (from_str row.status)) [
        | inl (read, parsed) ↦ rw runs (
            rw found (
              rw parsed (λ e. (
                row.hash,
                rw found (
                    ap (λ t. some (row.hash, t))
                      (as_str-from_str row.status status (parsed ∙ ap status_result e))),
              ))))
        | inr (e, bad) ↦ rw runs (rw found (rw bad tt))
      ]
    ]
  ]
