-- ===== src/Knowledge/Search.antt =====
-- backend/src/knowledge/service.py: the part of `class KnowledgeService` that reads.
use mini_company.Prelude.{
  ℕ, Bool, any, Option, none, some, List, [], ◌∷◌, map, keep, leb, ◌==◌, if◌then◌else◌,
}
use mini_company.Prelude.Text.{Text, codes, strip, text_eq, get, assign}
use mini_company.Knowledge.Chunking.Base.{is_empty}
use mini_company.Knowledge.Domain.{SourceType, SourceDocument, SearchHit}
use mini_company.Knowledge.Repository.{get_source, list_recent_sources, get_many}
use mini_company.Knowledge.VectorStore.{search_rows}
use mini_company.Knowledge.Schemas.{
  DocumentResponse, SearchResponse, SearchResultItem, document_response,
}
use mini_company.Tasks.Responses.{for_each}
use mini_company.Company.World.{
  Runtime, Action, or_raise, pure, ◌>>=◌, invalid_id, document_not_found,
}
use mini_company.Knowledge.Library.{Library}
use mini_company.Knowledge.Metadata.{untitled}
use mini_company.Knowledge.Service.{embed_texts}

-- `{hit.doc_id for hit in hits}`, in the order of the hits: a set has none.
abbrev pub add_new : Text → List Text → List Text
add_new doc_id ids = if any (text_eq doc_id) ids then ids else doc_id ∷ ids

abbrev pub distinct_ids : List SearchHit → List Text
distinct_ids [] = []
distinct_ids (hit ∷ hits) = add_new hit.doc_id (distinct_ids hits)

module _ (runtime : Runtime) (library : Library) where
  -- `top_k or self._settings.top_k`
  abbrev pub or_top_k : Option ℕ → ℕ
  or_top_k none = library.settings.top_k
  or_top_k (some top_k) = if top_k == 0 then library.settings.top_k else top_k

  abbrev pub passes : SearchHit → Bool
  passes hit = leb library.settings.score_threshold hit.score

  -- `search_hits`
  unfoldable pub search_hits : Text → Option ℕ → Option SourceType → Action (List SearchHit)
  unfolding search_rows strip
  search_hits query top_k source_type = if is_empty (strip query) then pure [] else (do
    vectors ← embed_texts runtime library (query ∷ [])
    elim vectors [
      | [] ↦ pure []
      | vector ∷ more ↦ do
        hits ← search_rows library.similarity vector (or_top_k top_k) source_type
        pure (keep passes hits)
    ])

  -- `PydanticObjectId(doc_id) for doc_id in ... if doc_id`
  unfoldable pub read_ids : List Text → Action (List ℕ)
  read_ids [] = pure []
  read_ids (doc_id ∷ doc_ids) =
      let others = read_ids doc_ids in
      if is_empty doc_id
      then others
      else (do i ← or_raise (runtime.parse_id doc_id) invalid_id; rest ← others; pure (i ∷ rest))

  -- `{str(document.id): document.title for document in documents}`, on the entries so far
  abbrev pub name_titles : List (Text × Text) → List SourceDocument → List (Text × Text)
  name_titles titles [] = titles
  name_titles titles (document ∷ documents) =
      name_titles
        (assign (elim document.id [ none ↦ codes "None" | some i ↦ runtime.show_id i ])
          document.title titles)
        documents

  -- `_titles_of`
  unfoldable pub titles_of : List Text → Action (List (Text × Text))
  unfolding read_ids get_many
  titles_of doc_ids = do
    object_ids ← read_ids doc_ids
    documents ← get_many object_ids
    pure (name_titles [] documents)

  -- `titles_by_doc_id`
  abbrev pub bare_hit : Text → SearchHit
  bare_hit doc_id = record { doc_id = doc_id; chunk_index = 0; text = []; score = 0 }

  unfoldable pub titles_by_doc_id : List Text → Action (List (Text × Text))
  unfolding titles_of
  titles_by_doc_id doc_ids = titles_of (distinct_ids (map bare_hit doc_ids))

  -- `titles.get(doc_id, _UNTITLED)`
  abbrev pub title_or_untitled : Text → List (Text × Text) → Text
  title_or_untitled doc_id titles = elim (get doc_id titles) [
    | none ↦ untitled
    | some title ↦ title
  ]

  abbrev pub result_item : List (Text × Text) → SearchHit → SearchResultItem
  result_item titles hit = record {
    doc_id = hit.doc_id;
    chunk_index = hit.chunk_index;
    text = hit.text;
    score = library.show_score hit.score;
    title = title_or_untitled hit.doc_id titles;
  }

  -- `search`
  unfoldable pub search_documents : Text → Option ℕ → Option SourceType → Action SearchResponse
  unfolding search_hits titles_of
  search_documents query top_k source_type = do
    hits ← search_hits query top_k source_type
    titles ← titles_of (distinct_ids hits)
    pure (record { query = query; items = map (result_item titles) hits })

  -- `list_recent`
  unfoldable pub list_recent : ℕ → Action (List DocumentResponse)
  unfolding list_recent_sources for_each document_response
  list_recent limit = do
    documents ← list_recent_sources limit
    for_each (document_response runtime) documents

  -- `get_document`
  unfoldable pub get_document : ℕ → Action DocumentResponse
  unfolding get_source document_response
  get_document doc_id = do
    document ← or_raise (← get_source doc_id) document_not_found
    document_response runtime document
