-- ===== src/FileState.antt =====
-- src/state.rs: the hash and the status of each file, kept in an SQLite table.
-- The database is the list of its rows, with the number of statements that it has run: SQLite may
-- fail any statement, and then changes nothing; which ones fail, and the clock, are parameters.
pub mod Rows
use vektor.Common.{
  ℕ, suc, ◌^◌, Bool, not, Option, some, none, List, [], ◌∷◌, ◌++◌, map, filter, ltb, if◌then◌else◌,
  true, false,
}
use vektor.Common.Text.{Text, codes, text_eq, text_cmp, strip_prefix}
use vektor.Common.Sort.{sort_by}
use vektor.Common.Outcome.{Result, ok, err, VektorError}
use vektor.Common.Action.{Action, pure, lift, gets, modify, ◌>>=◌, ◌>>◌}

pub data FileStatus : Type 0 where
  pending indexed failed : FileStatus

unfoldable pub as_str : FileStatus → Text
as_str FileStatus.pending = codes "pending"
as_str FileStatus.indexed = codes "indexed"
as_str FileStatus.failed = codes "failed"

unfoldable pub from_str : Text → Result FileStatus
from_str status =
    if text_eq status (codes "pending")
    then ok FileStatus.pending
    else if text_eq status (codes "indexed")
    then ok FileStatus.indexed
    else if text_eq status (codes "failed")
    then ok FileStatus.failed
    else err (VektorError.state (codes "unknown file hash status: " ++ status))

-- A row of `file_hashes`; `rel_path` is the primary key.
pub record FileRow : Type 0 where
  pub rel_path : Text
  pub hash : Text
  pub status : Text
  pub indexed_at : Option ℕ

pub record HashStore : Type 0 where
  pub rows : List FileRow
  pub statements : ℕ

-- What the host answers: the error of the n-th statement, if it fails, and the seconds since the
-- Unix epoch at that time, `none` where the clock stands before it.
pub record Host : Type 0 where
  pub sqlite_failure : ℕ → Option Text
  pub clock : ℕ → Option ℕ
  pub clock_error : Text
  pub overflow_error : Text

unfoldable pub find_row : Text → List FileRow → Option FileRow
find_row key [] = none
find_row key (row ∷ rows) = if text_eq row.rel_path key then some row else find_row key rows

-- `==` on `Option<&str>`.
unfoldable pub option_text_eq : Option Text → Option Text → Bool
option_text_eq none none = true
option_text_eq (some s) (some t) = text_eq s t
option_text_eq none (some t) = false
option_text_eq (some s) none = false

-- INSERT ... ON CONFLICT(rel_path) DO UPDATE.
unfoldable pub upsert : FileRow → List FileRow → List FileRow
upsert new [] = new ∷ []
upsert new (row ∷ rows) =
    if text_eq row.rel_path new.rel_path then new ∷ rows else row ∷ upsert new rows

module _ (host : Host) where
  -- One statement runs, or fails.
  unfoldable pub statement : Action HashStore Unit
  statement store = (
    elim (host.sqlite_failure store.statements) [
      | none ↦ ok tt
      | some text ↦ err (VektorError.state text)
    ],
    record store { statements = suc store.statements },
  )

  unfoldable pub get_hash : Text → Action HashStore (Option Text)
  unfolding statement find_row
  get_hash rel_path = do
    statement
    gets λ store. elim (find_row rel_path store.rows) [ none ↦ none | some row ↦ some row.hash ]

  -- `status.as_deref().map(FileStatus::from_str).transpose()`
  unfoldable pub parse_status : Option FileRow → Result (Option FileStatus)
  parse_status none = ok none
  parse_status (some row) = elim (from_str row.status) [
    | ok status ↦ ok (some status)
    | err e ↦ err e
  ]

  unfoldable pub get_status : Text → Action HashStore (Option FileStatus)
  unfolding statement find_row
  get_status rel_path = do
    statement
    row ← gets λ store. find_row rel_path store.rows
    lift (parse_status row)

  unfoldable pub current_unix_epoch : Action HashStore ℕ
  current_unix_epoch store = elim (host.clock store.statements) [
    | none ↦ (
      err (VektorError.state (codes "system clock before Unix epoch: " ++ host.clock_error)),
      store,
    )
    | some seconds ↦
        if ltb seconds (2 ^ 63)
        then (ok seconds, store)
        else (err (VektorError.state (codes "timestamp overflow: " ++ host.overflow_error)), store)
  ]

  unfoldable pub indexed_at_for : FileStatus → Action HashStore (Option ℕ)
  unfolding current_unix_epoch
  indexed_at_for FileStatus.pending = pure none
  indexed_at_for FileStatus.indexed = do seconds ← current_unix_epoch; pure (some seconds)
  indexed_at_for FileStatus.failed = do seconds ← current_unix_epoch; pure (some seconds)

  unfoldable pub set_hash : Text → Text → FileStatus → Action HashStore Unit
  unfolding indexed_at_for statement
  set_hash rel_path hash status = do
    indexed_at ← indexed_at_for status
    statement
    modify λ store. record store {
      rows =
          upsert
            (record {
              rel_path = rel_path;
              hash = hash;
              status = as_str status;
              indexed_at = indexed_at;
            })
            store.rows;
    }

  -- `relative` and `current` are the outcomes of `relative_path_string` and `hash_file`.
  unfoldable pub is_changed : Result Text → Result Text → Action HashStore Bool
  unfolding get_hash
  is_changed relative current = do
    rel_path ← lift relative
    current_hash ← lift current
    stored ← get_hash rel_path
    pure (not (option_text_eq stored (some current_hash)))

  unfoldable pub get_pending : Action HashStore (List Text)
  unfolding statement
  get_pending = do
    statement
    gets λ store. sort_by text_cmp (
        map (λ (row : FileRow). row.rel_path)
          (filter (λ (row : FileRow). text_eq row.status (codes "pending")) store.rows))

-- `home_dir` and `join` are the home directory and `PathBuf::join`.
unfoldable pub expand_data_dir : Option Text → (Text → Text → Text) → Text → Result Text
unfolding strip_prefix
expand_data_dir home_dir join data_dir =
    let no_home : Result Text = err (VektorError.config (codes "home directory not found")) in
    let rest = strip_prefix data_dir (codes "~/") in
    let rest_backslash = strip_prefix data_dir (codes "~\\") in
    if text_eq data_dir (codes "~")
    then elim home_dir [ none ↦ no_home | some home ↦ ok home ]
    else elim rest [
      | some part ↦ elim home_dir [ none ↦ no_home | some home ↦ ok (join home part) ]
      | none ↦ elim rest_backslash [
        | some part ↦ elim home_dir [ none ↦ no_home | some home ↦ ok (join home part) ]
        | none ↦ ok data_dir
      ]
    ]
