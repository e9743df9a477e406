-- ===== src/Knowledge/VectorStore.antt =====
-- `InMemoryVectorStore` of backend/tests/fakes/knowledge.py, which fulfils `VectorStoreProtocol` of
-- backend/src/knowledge/vector_store.py. The arithmetic on floats is a parameter.
use mini_company.Prelude.{
  ℕ, Bool, true, false, not, Option, none, some, List, [], ◌∷◌, ◌++◌, length, sorted_by, take, leb,
  ◌==◌, if◌then◌else◌,
}
use mini_company.Prelude.Text.{Text, assign, discard}
use mini_company.Knowledge.Chunking.Registry.{ContentType}
use mini_company.Knowledge.Domain.{
  Chunk, Float, Vector, SearchHit, Row, SourceType, source_type_rank,
}
use mini_company.Company.World.{Action, gets, modify, pure, raise_if, value_error, ◌>>=◌, ◌>>◌}

-- `zip(chunks, vectors)`
unfoldable pub rows_of : SourceType → ContentType → List Chunk → List Vector → List Row
rows_of source_type content_type [] vectors = []
rows_of source_type content_type (c ∷ chunks) [] = []
rows_of source_type content_type (c ∷ chunks) (v ∷ vectors) =
    record { chunk = c; vector = v; source_type = source_type; content_type = content_type }
    ∷ rows_of source_type content_type chunks vectors

-- `delete_document`
unfoldable pub delete_document : Text → Action Unit
delete_document doc_id = modify (λ w. record w { rows = discard doc_id w.rows })

-- `chunks == []`
abbrev pub is_nil : List Chunk → Bool
is_nil [] = true
is_nil (c ∷ chunks) = false

-- `replace_document`
unfoldable pub replace_document :
    Text → List Chunk → List Vector → SourceType → ContentType → Action Unit
unfolding delete_document rows_of
replace_document doc_id chunks vectors source_type content_type = do
  raise_if (not (length chunks == length vectors)) value_error
  delete_document doc_id
  if is_nil chunks
      then pure tt
      else modify (λ w. record w {
        rows = assign doc_id (rows_of source_type content_type chunks vectors) w.rows;
      })

-- `source_type is not None and row_source is not source_type`
abbrev pub is_filtered : Option SourceType → Row → Bool
is_filtered none row = false
is_filtered (some source_type) row =
    not (source_type_rank row.source_type == source_type_rank source_type)

abbrev pub hit_of : Float → Row → SearchHit
hit_of score row = record {
  doc_id = row.chunk.doc_id;
  chunk_index = row.chunk.chunk_index;
  text = row.chunk.text;
  score = score;
}

module _ (similarity : Vector → Vector → Float) where
  -- `_cosine`
  unfoldable pub cosine : Vector → Vector → Action Float
  cosine left right = do
    raise_if (not (length left == length right)) value_error
    pure (similarity left right)

  -- The loop of `search` over the rows of a document.
  unfoldable pub score_rows : Option SourceType → Vector → List Row → Action (List SearchHit)
  unfolding cosine
  score_rows source_type vector [] = pure []
  score_rows source_type vector (row ∷ rows) =
      let others = score_rows source_type vector rows in
      if is_filtered source_type row
      then others
      else (do score ← cosine vector row.vector; rest ← others; pure (hit_of score row ∷ rest))

  -- The loop of `search` over the documents.
  unfoldable pub score_documents :
      Option SourceType → Vector → List (Text × List Row) → Action (List SearchHit)
  unfolding score_rows
  score_documents source_type vector [] = pure []
  score_documents source_type vector ((doc_id, rows) ∷ documents) = do
    scored ← score_rows source_type vector rows
    rest ← score_documents source_type vector documents
    pure (scored ++ rest)

  -- `search`
  unfoldable pub search_rows : Vector → ℕ → Option SourceType → Action (List SearchHit)
  unfolding score_documents
  search_rows vector top_k source_type = do
    rows ← gets (λ w. w.rows)
    scored ← score_documents source_type vector rows
    pure (take top_k (sorted_by (λ (g h : SearchHit). leb h.score g.score) scored))
