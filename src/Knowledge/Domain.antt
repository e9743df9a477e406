-- ===== src/Knowledge/Domain.antt =====
-- backend/src/knowledge/domain.py, `class SourceType` of constants.py, and the rows of the vector
-- store. A float is its place in the ascending order of the floats: they are compared and printed,
-- and computed with by parameters alone.
use mini_company.Prelude.{ℕ, Option, List}
use mini_company.Prelude.Text.{Text}
use mini_company.Knowledge.Chunking.Base.{Section}
use mini_company.Knowledge.Chunking.Registry.{ContentType}

-- `class SourceType(StrEnum)`
pub data SourceType : Type 0 where
  rss web api file : SourceType

abbrev pub source_type_rank : SourceType → ℕ
source_type_rank rss = 0
source_type_rank web = 1
source_type_rank api = 2
source_type_rank file = 3

-- `class DocumentMetadata(BaseModel)`
pub record DocumentMetadata : Type 0 where
  pub title : Option Text
  pub author : Option Text
  pub description : Option Text
  pub published_at : Option ℕ
  pub language : Option Text
  pub keywords : List Text
  pub extra : List (Text × Text)

-- `class SourceDocument(BaseModel)`
pub record SourceDocument : Type 0 where
  pub id : Option ℕ
  pub title : Text
  pub source_url : Option Text
  pub source_type : SourceType
  pub content_type : ContentType
  pub raw_text : Text
  pub outline : List Section
  pub chunking_strategy : Text
  pub metadata : DocumentMetadata
  pub collected_by : ℕ
  pub task_id : Option ℕ
  pub collected_at : ℕ
  pub content_hash : Text
  pub chunk_count : ℕ
  pub indexed_at : Option ℕ

-- `class Chunk(BaseModel)`
pub record Chunk : Type 0 where
  pub doc_id : Text
  pub chunk_index : ℕ
  pub text : Text

abbrev pub Float : Type 0
Float = ℕ

abbrev pub Vector : Type 0
Vector = List Float

-- `class SearchHit(BaseModel)`
pub record SearchHit : Type 0 where
  pub doc_id : Text
  pub chunk_index : ℕ
  pub text : Text
  pub score : Float

-- What the vector store keeps of a chunk.
pub record Row : Type 0 where
  pub chunk : Chunk
  pub vector : Vector
  pub source_type : SourceType
  pub content_type : ContentType
