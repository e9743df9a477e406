-- ===== src/Knowledge/Schemas.antt =====
-- backend/src/knowledge/schemas.py
use mini_company.Prelude.{ℕ, Bool, Option, none, some, List, length}
use mini_company.Prelude.Text.{Text}
use mini_company.Knowledge.Chunking.Registry.{ContentType}
use mini_company.Knowledge.Domain.{DocumentMetadata, SourceDocument, SourceType}
use mini_company.Company.World.{Runtime, Action, or_raise, pure, value_error, ◌>>=◌}

-- `class DocumentMetadataResponse`
pub record DocumentMetadataResponse : Type 0 where
  pub title : Option Text
  pub author : Option Text
  pub description : Option Text
  pub published_at : Option ℕ
  pub language : Option Text
  pub keywords : List Text
  pub extra : List (Text × Text)

-- `DocumentMetadataResponse.from_domain`
unfoldable pub metadata_response : DocumentMetadata → DocumentMetadataResponse
metadata_response metadata = record {
  title = metadata.title;
  author = metadata.author;
  description = metadata.description;
  published_at = metadata.published_at;
  language = metadata.language;
  keywords = metadata.keywords;
  extra = metadata.extra;
}

-- `class DocumentResponse`
pub record DocumentResponse : Type 0 where
  pub id : Text
  pub title : Text
  pub source_url : Option Text
  pub source_type : SourceType
  pub content_type : ContentType
  pub metadata : DocumentMetadataResponse
  pub collected_by : Text
  pub task_id : Option Text
  pub collected_at : ℕ
  pub content_hash : Text
  pub chunk_count : ℕ
  pub chunking_strategy : Text
  pub section_count : ℕ
  pub indexed_at : Option ℕ
  pub text_length : ℕ

abbrev pub show_some : Runtime → Option ℕ → Option Text
show_some runtime none = none
show_some runtime (some i) = some (runtime.show_id i)

-- `DocumentResponse.from_domain` of a document that has an id
unfoldable pub response_of : Runtime → ℕ → SourceDocument → DocumentResponse
unfolding metadata_response
response_of runtime i document = record {
  id = runtime.show_id i;
  title = document.title;
  source_url = document.source_url;
  source_type = document.source_type;
  content_type = document.content_type;
  metadata = metadata_response document.metadata;
  collected_by = runtime.show_id document.collected_by;
  task_id = show_some runtime document.task_id;
  collected_at = document.collected_at;
  content_hash = document.content_hash;
  chunk_count = document.chunk_count;
  chunking_strategy = document.chunking_strategy;
  section_count = length document.outline;
  indexed_at = document.indexed_at;
  text_length = length document.raw_text;
}

-- `DocumentResponse.from_domain`
unfoldable pub document_response : Runtime → SourceDocument → Action DocumentResponse
unfolding response_of
document_response runtime document = do
  i ← or_raise document.id value_error
  pure (response_of runtime i document)

-- `class IngestResult`
pub record IngestResult : Type 0 where
  pub document : DocumentResponse
  pub skipped_duplicate : Bool

-- `class SearchResultItem`
pub record SearchResultItem : Type 0 where
  pub doc_id : Text
  pub chunk_index : ℕ
  pub text : Text
  pub score : Text
  pub title : Text

-- `class SearchResponse`
pub record SearchResponse : Type 0 where
  pub query : Text
  pub items : List SearchResultItem
