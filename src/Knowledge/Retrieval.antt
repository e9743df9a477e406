-- ===== src/Knowledge/Retrieval.antt =====
-- `search_hits`: what a question finds.
use mini_company.Prelude.{
  ℕ, ◌≡◌, refl, inl, inr, true, false, not, Option, List, [], ◌∷◌, ◌++◌, map, keep, length, ◌==◌,
  take, sorted_by, All, All-split, Bool-cases, arith,
}
use mini_company.Prelude.Text.{Text, strip}
use mini_company.Knowledge.Chunking.Base.{is_empty}
use mini_company.Knowledge.Domain.{Row, SearchHit, SourceType, Vector, Float}
use mini_company.Knowledge.VectorStore.{
  cosine, hit_of, is_filtered, score_rows, score_documents, search_rows,
}
use mini_company.Knowledge.Library.{Library}
use mini_company.Knowledge.Search.{search_hits, or_top_k, passes}
use mini_company.Knowledge.Ranking.{higher, IsRanking, sorted-IsRanking}
use mini_company.Company.World.{Runtime, World, ok}

-- The rows of all documents.
abbrev pub all_rows : List (Text × List Row) → List Row
all_rows [] = []
all_rows ((doc_id, rows) ∷ documents) = rows ++ all_rows documents

module _ (similarity : Vector → Vector → Float) (source_type : Option SourceType)
    (vector : Vector) where
  -- The hits that a question could have: the rows of the asked source with their scores.
  abbrev pub candidates_in : List Row → List SearchHit
  candidates_in rows =
      map (λ (row : Row). hit_of (similarity vector row.vector) row)
        (keep (λ (row : Row). not (is_filtered source_type row)) rows)

  abbrev HasLength : Row → Type 0
  HasLength row = length vector ≡ length row.vector

  score_rows-candidates :
      (rows : List Row) (w : World)
      → All HasLength rows
      → score_rows similarity source_type vector rows w ≡ (ok (candidates_in rows), w)
  unfolding score_rows cosine
  score_rows-candidates [] w h = refl
  score_rows-candidates (row ∷ rows) w (same, h) =
      let rest = score_rows-candidates rows w h in
      let fits : (length vector == length row.vector) ≡ true = ground (arith, same) in
      elim (Bool-cases (is_filtered source_type row)) [
        | inl out ↦ rw out rest
        | inr in_ ↦ ground (arith, in_, fits, rest)
      ]

  candidates-append :
      (rows more : List Row)
      → candidates_in (rows ++ more) ≡ candidates_in rows ++ candidates_in more
  candidates-append [] more = refl
  candidates-append (row ∷ rows) more = elim (Bool-cases (is_filtered source_type row)) [
    | inl out ↦ rw out (candidates-append rows more)
    | inr in_ ↦ rw (in_, candidates-append rows more)
  ]

  score_documents-candidates :
      (documents : List (Text × List Row)) (w : World)
      → All HasLength (all_rows documents)
      → score_documents similarity source_type vector documents w
        ≡ (ok (candidates_in (all_rows documents)), w)
  unfolding score_documents
  score_documents-candidates [] w h = refl
  score_documents-candidates ((doc_id, rows) ∷ documents) w h =
      let (here, there) = All-split HasLength rows (all_rows documents) h in
      ground (
        arith,
        score_rows-candidates rows w here,
        score_documents-candidates documents w there,
        candidates-append rows (all_rows documents),
      )

-- A search for a question that is not blank returns when the embedding of the question has the
-- length of the stored vectors. What it returns are the best rows of the asked source: as many as
-- asked for at most, the best first, none below the threshold; and a row that is left out is
-- below the threshold, or there are as many hits as asked for, none with a lower score.
pub search_hits_lem :
    (runtime : Runtime) (library : Library) (query : Text) (top_k : Option ℕ)
    (source_type : Option SourceType) (vector : Vector) (more : List Vector) (w : World)
    → is_empty (strip query) ≡ false
    → library.embed (query ∷ []) ≡ ok (vector ∷ more)
    → All (λ (row : Row). length vector ≡ length row.vector) (all_rows w.rows)
    → (hits : List SearchHit) × (search_hits runtime library query top_k source_type w
        ≡ (ok hits, w))
      × IsRanking
          (or_top_k runtime library top_k)
          library.settings.score_threshold
          (candidates_in library.similarity source_type vector (all_rows w.rows))
          hits
unfolding search_hits search_rows
search_hits_lem runtime library query top_k source_type vector more w filled embedded fits =
    let scored = score_documents-candidates library.similarity source_type vector w.rows w fits in
    let found = candidates_in library.similarity source_type vector (all_rows w.rows) in
    (
      keep (passes runtime library)
          (take (or_top_k runtime library top_k) (sorted_by higher found)),
      ground (arith, filled, embedded, scored),
      sorted-IsRanking library.settings.score_threshold (or_top_k runtime library top_k) found,
    )
