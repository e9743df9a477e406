-- ===== src/Knowledge/Repository.antt =====
-- `InMemoryDocumentRepository` of backend/tests/fakes/knowledge.py, which fulfils
-- `DocumentRepositoryProtocol` of backend/src/knowledge/repository.py.
use mini_company.Prelude.{ℕ, Option, none, some, List, [], ◌∷◌, find_first, sorted_by, take, leb}
use mini_company.Prelude.Text.{Text, text_eq}
use mini_company.Prelude.Dict.{lookup, insert, values}
use mini_company.Knowledge.Domain.{SourceDocument}
use mini_company.Company.World.{Runtime, Action, gets, modify, pure, draw_id, ◌>>=◌, ◌>>◌}

-- `get`
unfoldable pub get_source : ℕ → Action (Option SourceDocument)
get_source doc_id = gets (λ w. lookup doc_id w.documents)

-- `find_by_content_hash`
unfoldable pub find_by_content_hash : Text → Action (Option SourceDocument)
find_by_content_hash content_hash = gets (λ w.
    find_first (λ (d : SourceDocument). text_eq d.content_hash content_hash) (values w.documents))

unfoldable pub put_source : ℕ → SourceDocument → Action SourceDocument
put_source i document = do
  modify (λ w. record w { documents = insert i document w.documents })
  pure document

-- `save`: a document without an id gets one.
unfoldable pub save_source : Runtime → SourceDocument → Action SourceDocument
unfolding put_source
save_source runtime document = elim document.id [
  | none ↦ do i ← draw_id runtime; put_source i (record document { id = some i })
  | some i ↦ put_source i document
]

-- `list_recent`: what was collected at the same instant keeps its order.
unfoldable pub list_recent_sources : ℕ → Action (List SourceDocument)
list_recent_sources limit = gets (λ w.
    take limit (
      sorted_by (λ (d e : SourceDocument). leb e.collected_at d.collected_at) (values w.documents)))

abbrev pub or_skip : Option SourceDocument → List SourceDocument → List SourceDocument
or_skip none rest = rest
or_skip (some d) rest = d ∷ rest

-- `get_many`
unfoldable pub get_many : List ℕ → Action (List SourceDocument)
get_many [] = pure []
get_many (i ∷ doc_ids) = do found ← get_source i; rest ← get_many doc_ids; pure (or_skip found rest)
