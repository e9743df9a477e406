-- ===== src/Knowledge/Library.antt =====
-- `KnowledgeSettings` of backend/src/knowledge/settings.py, and what else the service is given.
use mini_company.Prelude.{ℕ, Option, List}
use mini_company.Prelude.Text.{Text}
use mini_company.Knowledge.Chunking.Registry.{ContentType, Registry}
use mini_company.Knowledge.Domain.{Float, Vector}
use mini_company.Knowledge.Parsing.{Parser, Readers}
use mini_company.Company.World.{Result}

-- `class KnowledgeSettings`
pub record KnowledgeSettings : Type 0 where
  pub parsers : List (ContentType × Parser)
  pub chunkers : Registry
  pub top_k : ℕ
  pub score_threshold : Float
  pub chunk_target_tokens : ℕ
  pub chunk_overlap_tokens : ℕ
  pub chunking_strategy : Option Text

-- What the service is given: its settings, the provider of embeddings, SHA-256 of a text, the
-- cosine of vectors of one length, and a score with four decimals.
pub record Library : Type 0 where
  pub settings : KnowledgeSettings
  pub readers : Readers
  pub embed : List Text → Result (List Vector)
  pub hash_text : Text → Text
  pub similarity : Vector → Vector → Float
  pub show_score : Float → Text
