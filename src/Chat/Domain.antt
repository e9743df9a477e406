-- ===== src/Chat/Domain.antt =====
-- backend/src/chat/domain.py
use mini_company.Prelude.{ℕ, Option, List, Bool}
use mini_company.Prelude.Text.{Text}

-- `class MessageRole(StrEnum)`
pub data MessageRole : Type 0 where
  user assistant : MessageRole

-- `class Citation(BaseModel)`
pub record Citation : Type 0 where
  pub index : ℕ
  pub doc_id : Text
  pub chunk_index : ℕ
  pub title : Text
  pub excerpt : Text
  pub score : Text

-- `class Message(BaseModel)`
pub record Message : Type 0 where
  pub role : MessageRole
  pub content : Text
  pub created_at : ℕ
  pub citations : List Citation
  pub grounded : Bool

-- `class Conversation(BaseModel)`
pub record Conversation : Type 0 where
  pub id : Option ℕ
  pub title : Text
  pub created_at : ℕ
  pub messages : List Message
