-- ===== src/Knowledge/Service.antt =====
-- backend/src/knowledge/service.py: the part of `class KnowledgeService` that takes documents in.
use mini_company.Prelude.{ℕ, suc, true, false, Option, none, some, List, [], ◌∷◌, map, length}
use mini_company.Prelude.Text.{Text, strip}
use mini_company.Knowledge.Chunking.Base.{from_tokens, is_empty}
use mini_company.Knowledge.Chunking.Registry.{ContentType, resolve_chunker, strategy_name}
use mini_company.Knowledge.Domain.{SourceType, SourceDocument, Chunk, Vector}
use mini_company.Knowledge.Parsing.{ParsedDocument, resolve_parser}
use mini_company.Knowledge.Repository.{get_source, find_by_content_hash, save_source}
use mini_company.Knowledge.VectorStore.{replace_document}
use mini_company.Knowledge.Schemas.{DocumentResponse, IngestResult, document_response}
use mini_company.Company.World.{
  Runtime, Action, or_raise, raise_if, now, pure, ◌>>=◌, ◌>>◌, value_error, document_not_found,
  empty_document, unsupported_chunking_strategy,
}
use mini_company.Knowledge.Library.{Library}
use mini_company.Knowledge.Metadata.{or_value, merge_metadata, resolve_title}

-- `strategy_override or document.chunking_strategy or self._settings.chunking_strategy`
abbrev pub choose_strategy : Option Text → Text → Option Text → Option Text
choose_strategy override recorded setting = or_value override (or_value (some recorded) setting)

-- `[Chunk(doc_id=doc_id, chunk_index=index, text=text) for index, text in enumerate(texts)]`
unfoldable pub number_chunks : Text → ℕ → List Text → List Chunk
number_chunks doc_id index [] = []
number_chunks doc_id index (text ∷ texts) =
    record { doc_id = doc_id; chunk_index = index; text = text }
    ∷ number_chunks doc_id (suc index) texts

-- The arguments of `ingest`
pub record Material : Type 0 where
  pub source_type : SourceType
  pub content_type : ContentType
  pub collected_by : ℕ
  pub text : Option Text
  pub bytes : Option (List ℕ)
  pub source_url : Option Text
  pub title_hint : Option Text
  pub task_id : Option ℕ
  pub metadata_hints : List (Text × Text)
  pub chunking_strategy : Option Text

module _ (runtime : Runtime) (library : Library) where
  -- `await self._embeddings.embed(texts)`
  abbrev pub embed_texts : List Text → Action (List Vector)
  embed_texts texts w = (library.embed texts, w)

  -- `chunker.chunk(...)`, once the strategy and the options are there
  unfoldable pub chunks_of : SourceDocument → Option Text → Text → Action (List Chunk)
  unfolding resolve_chunker number_chunks from_tokens
  chunks_of document override doc_id = do
    chunker ←
        or_raise (resolve_chunker library.settings.chunkers document.content_type override)
          unsupported_chunking_strategy
    options ←
        or_raise
          (from_tokens library.settings.chunk_target_tokens library.settings.chunk_overlap_tokens)
          value_error
    pure (
        number_chunks doc_id 0
          (chunker (record { text = document.raw_text; outline = document.outline }) options))

  -- `_index`
  unfoldable pub index : SourceDocument → Option Text → Action SourceDocument
  unfolding chunks_of replace_document save_source strategy_name
  index document strategy_override = do
    i ← or_raise document.id document_not_found
    let override =
        choose_strategy strategy_override document.chunking_strategy
          library.settings.chunking_strategy
    let doc_id = runtime.show_id i
    chunks ← chunks_of document override doc_id
    vectors ← embed_texts (map (λ (c : Chunk). c.text) chunks)
    replace_document doc_id chunks vectors document.source_type document.content_type
    at ← now runtime
    save_source runtime (record document {
      chunk_count = length chunks;
      indexed_at = some at;
      chunking_strategy = strategy_name document.content_type override;
    })

  -- The rest of `ingest` once the content is known to be new.
  unfoldable pub add_document : Material → ParsedDocument → Action IngestResult
  unfolding save_source index document_response merge_metadata resolve_title
  add_document material parsed = do
    let metadata = merge_metadata library.readers parsed.metadata material.metadata_hints
    at ← now runtime
    saved ← save_source runtime (record {
      id = none;
      title = resolve_title material.title_hint metadata;
      source_url = material.source_url;
      source_type = material.source_type;
      content_type = material.content_type;
      raw_text = parsed.text;
      outline = parsed.outline;
      chunking_strategy = [];
      metadata = metadata;
      collected_by = material.collected_by;
      task_id = material.task_id;
      collected_at = at;
      content_hash = library.hash_text parsed.text;
      chunk_count = 0;
      indexed_at = none;
    })
    indexed ← index saved material.chunking_strategy
    response ← document_response runtime indexed
    pure (record { document = response; skipped_duplicate = false })

  -- `parser.parse(...)`
  unfoldable pub parse : Material → Action ParsedDocument
  unfolding resolve_parser
  parse material = do
    parser ← resolve_parser library.settings.parsers material.content_type
    λ w. (
      parser (record {
        content_type = material.content_type;
        text = material.text;
        bytes = material.bytes;
        hints = material.metadata_hints;
      }),
      w,
    )

  -- `ingest`
  unfoldable pub ingest : Material → Action IngestResult
  unfolding parse find_by_content_hash add_document document_response strip
  ingest material = do
    parsed ← parse material
    raise_if (is_empty (strip parsed.text)) empty_document
    existing ← find_by_content_hash (library.hash_text parsed.text)
    elim existing [
      | some document ↦ do
        response ← document_response runtime document
        pure (record { document = response; skipped_duplicate = true })
      | none ↦ add_document material parsed
    ]

  -- `reindex`
  unfoldable pub reindex : ℕ → Option Text → Action DocumentResponse
  unfolding get_source index document_response
  reindex doc_id chunking_strategy = do
    document ← or_raise (← get_source doc_id) document_not_found
    indexed ← index document chunking_strategy
    document_response runtime indexed
