-- ===== src/TextIndex/Markers.antt =====
-- What the markers of src/text_index.rs tell.
use vektor.Common.{Bool, true, false, ◌≡◌, refl, ◌⊎◌}
use vektor.Common.Action.{Gives, Gives-bind, Gives-kept, Gives-if}
use vektor.TextIndex.{
  TextIndex, Tantivy, writer_mut, mark_searchable, mark_text_ready, commit_with_ready_marker,
}

module _ {T : Type 0} (tantivy : Tantivy T) where
  -- An index that is marked ready is marked searchable.
  abbrev pub IsMarked : TextIndex T → Type 0
  IsMarked index = (index.ready_marker ≡ false) ⊎ (index.searchable_marker ≡ true)

  abbrev IsSearchable : TextIndex T → Type 0
  IsSearchable index = index.searchable_marker ≡ true

  mark_searchable-Gives : Gives IsMarked (mark_searchable tantivy) (λ _. IsSearchable)
  unfolding mark_searchable
  mark_searchable-Gives =
      Gives-bind IsMarked (λ _. IsMarked) (λ _. IsSearchable) _ _
        (Gives-kept IsMarked IsMarked _ (λ index h. h))
        (λ _. Gives-kept IsMarked IsSearchable _ (λ index h. refl))

  mark_text_ready-Gives : Gives IsSearchable (mark_text_ready tantivy) (λ _. IsSearchable)
  unfolding mark_text_ready
  mark_text_ready-Gives =
      Gives-bind IsSearchable (λ _. IsSearchable) (λ _. IsSearchable) _ _
        (Gives-kept IsSearchable IsSearchable _ (λ index h. h))
        (λ _. Gives-kept IsSearchable IsSearchable _ (λ index h. h))

  -- A commit of a well-marked index that succeeds leaves it searchable.
  pub commit_with_ready_marker-IsSearchable :
      (mark_ready : Bool)
      → Gives IsMarked (commit_with_ready_marker tantivy mark_ready) (λ _. IsSearchable)
  unfolding commit_with_ready_marker writer_mut
  commit_with_ready_marker-IsSearchable mark_ready =
      Gives-bind IsMarked (λ _. IsMarked) (λ _. IsSearchable) _ _
        (Gives-kept IsMarked IsMarked _ (λ index h. h))
        λ _.
          Gives-bind IsMarked (λ _. IsMarked) (λ _. IsSearchable) _ _
            (Gives-kept IsMarked IsMarked _ (λ index h. h))
            λ _.
              Gives-bind IsMarked (λ _. IsMarked) (λ _. IsSearchable) _ _
                (Gives-kept IsMarked IsMarked _ (λ index h. h))
                λ _.
                  Gives-bind IsMarked (λ _. IsSearchable) (λ _. IsSearchable) _ _
                    mark_searchable-Gives
                    λ _.
                      Gives-if IsSearchable (λ _. IsSearchable) mark_ready _ _
                        (λ _. mark_text_ready-Gives)
                        (λ _. Gives-kept IsSearchable IsSearchable _ (λ index h. h))
