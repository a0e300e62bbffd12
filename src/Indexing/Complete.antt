-- ===== src/Indexing/Complete.antt =====
-- What becomes of a file in an index run that succeeds (src/cli.rs).
pub mod Collected
pub mod Written
pub mod Finished
use vektor.Common.{
  ℕ, zero, suc, ◌+◌, ◌<◌, Bool, true, false, Option, some, none, List, [], ◌∷◌, ◌++◌, ◌≡◌, ◌≢◌,
  refl, sym, arith, inl, inr, ◌⊎◌, Any, Any-append_left, Any-append_right, Bool-cases,
  if◌then◌else◌, ap, ◌∙◌,
}
use vektor.Common.Text.{Text, text_eq, text_eq→eq, eq→text_eq}
use vektor.Common.Outcome.{Result, ok, err}
use vektor.Common.Action.{Action, Ends, Ends-imp, Gives, Gives-kept}
use vektor.FileState.{FileStatus, HashStore, Host, as_str, set_hash}
use vektor.FileState.Rows.{entry, set_hash-entry}
use vektor.Indexing.{IndexRun, PendingFile, on_hash_store}

-- The table says that the file is indexed.
abbrev pub IsIndexed : Text → HashStore → Type 0
IsIndexed key store = (h : Text) × (entry key store ≡ some (h, as_str FileStatus.indexed))

module _ (key : Text) where
  abbrev pub IsAt : PendingFile → Type 0
  IsAt p = p.rel_path ≡ key

  -- A write of a status that is not of this file keeps its entry.
  IsIndexed-other :
      (p h : Text) (store store' : HashStore) (status : FileStatus)
      → p ≢ key
      → entry key store' ≡ (if text_eq p key then some (h, as_str status) else entry key store)
      → IsIndexed key store
      → IsIndexed key store'
  IsIndexed-other p h store store' status n e (old, found) = (old, ground (arith, text_eq→eq p key))

  pub IsIndexed-same :
      (p h : Text) (store store' : HashStore)
      → entry key store'
        ≡ (if text_eq p key then some (h, as_str FileStatus.indexed) else entry key store)
      → (p ≡ key) ⊎ IsIndexed key store
      → IsIndexed key store'
  IsIndexed-same p h store store' e (inl same) = (h, ground (arith, eq→text_eq p key same))
  IsIndexed-same p h store store' e (inr (old, found)) = elim (Bool-cases (text_eq p key)) [
    | inl same ↦ (h, ground arith)
    | inr other ↦ (old, ground arith)
  ]

  pub eq_or_ne : (p : Text) → (p ≡ key) ⊎ (p ≢ key)
  eq_or_ne p = elim (Bool-cases (text_eq p key)) [
    | inl e ↦ inl (text_eq→eq p key e)
    | inr e ↦ inr (λ same. absurd (cc (eq→text_eq p key same)))
  ]

module _ (E S T : Type 0) (host : Host) (key : Text) where
  -- Some file has failed, or this one is indexed or waits.
  abbrev pub IsHandled : IndexRun E S T → Type 0
  IsHandled run =
      (0 < run.stats.failed) ⊎ (IsIndexed key run.hash_store ⊎ Any (IsAt key) run.pending)

  -- A call on the hash store, by what it does there.
  on_store_of :
      {A : Type 0} (Q : IndexRun E S T → Type 0) (run : IndexRun E S T) (R : HashStore → Type 0)
      (R' : HashStore → Type 0) (out : Result A × HashStore)
      → Ends (λ _ store. R store) R' out
      → ((store : HashStore) → R store → Q (record run { hash_store = store }))
      → Ends (λ _. Q) (λ _. Unit {0}) (out.0, record run { hash_store = out.1 })
  on_store_of Q run R R' (ok a, store) h next = next store h
  on_store_of Q run R R' (err e, store) h next = tt

  -- What a write of a status leaves of a property of the run.
  pub set_hash-Gives :
      (P Q : IndexRun E S T → Type 0) (p h : Text) (status : FileStatus)
      → ((run : IndexRun E S T) (store : HashStore)
          → entry key store
            ≡ (if text_eq p key then some (h, as_str status) else entry key run.hash_store)
          → P run
          → Q (record run { hash_store = store }))
      → Gives P (on_hash_store (set_hash host p h status)) (λ _. Q)
  unfolding Gives
  set_hash-Gives P Q p h status step run holds =
      on_store_of Q run
        (λ store.
          entry key store
          ≡ (if text_eq p key then some (h, as_str status) else entry key run.hash_store))
        (λ store. entry key store ≡ entry key run.hash_store)
        (set_hash host p h status run.hash_store)
        (set_hash-entry host p h key status run.hash_store) (λ store e. step run store e holds)

  -- Marking a file as pending.
  pub set_pending-Gives :
      (p h : Text)
      → Gives
          (λ run. (p ≡ key) ⊎ IsHandled run)
          (on_hash_store (set_hash host p h FileStatus.pending))
          (λ _ run. (p ≡ key) ⊎ IsHandled run)
  set_pending-Gives p h =
      set_hash-Gives (λ run. (p ≡ key) ⊎ IsHandled run) (λ run. (p ≡ key) ⊎ IsHandled run) p h
        FileStatus.pending
        λ run store e holds. elim (eq_or_ne key p) [
          | inl same ↦ inl same
          | inr other ↦ elim holds [
            | inl same ↦ inl same
            | inr (inl failed) ↦ inr (inl failed)
            | inr (inr (inl done)) ↦ inr (
                inr (
                  inl
                    (IsIndexed-other key p h run.hash_store store FileStatus.pending other e done)))
            | inr (inr (inr waits)) ↦ inr (inr (inr waits))
          ]
        ]
