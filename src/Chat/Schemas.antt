-- ===== src/Chat/Schemas.antt =====
-- backend/src/chat/schemas.py
use mini_company.Prelude.{ℕ, Bool, List, map}
use mini_company.Prelude.Text.{Text}
use mini_company.Chat.Domain.{Citation, Conversation, Message, MessageRole}
use mini_company.Company.World.{Runtime, Action, or_raise, pure, value_error, ◌>>=◌}

-- `class CitationResponse`
pub record CitationResponse : Type 0 where
  pub index : ℕ
  pub doc_id : Text
  pub chunk_index : ℕ
  pub title : Text
  pub excerpt : Text
  pub score : Text

-- `CitationResponse.from_domain`
abbrev pub citation_response : Citation → CitationResponse
citation_response citation = record {
  index = citation.index;
  doc_id = citation.doc_id;
  chunk_index = citation.chunk_index;
  title = citation.title;
  excerpt = citation.excerpt;
  score = citation.score;
}

-- `class MessageResponse`
pub record MessageResponse : Type 0 where
  pub role : MessageRole
  pub content : Text
  pub created_at : ℕ
  pub citations : List CitationResponse
  pub grounded : Bool

-- `MessageResponse.from_domain`
abbrev pub message_response : Message → MessageResponse
message_response message = record {
  role = message.role;
  content = message.content;
  created_at = message.created_at;
  citations = map citation_response message.citations;
  grounded = message.grounded;
}

-- `class ConversationResponse`
pub record ConversationResponse : Type 0 where
  pub id : Text
  pub title : Text
  pub created_at : ℕ
  pub messages : List MessageResponse

-- `ConversationResponse.from_domain`
unfoldable pub conversation_response : Runtime → Conversation → Action ConversationResponse
conversation_response runtime conversation = do
  i ← or_raise conversation.id value_error
  pure (record {
    id = runtime.show_id i;
    title = conversation.title;
    created_at = conversation.created_at;
    messages = map message_response conversation.messages;
  })

-- `class AnswerResponse`
pub record AnswerResponse : Type 0 where
  pub conversation_id : Text
  pub message : MessageResponse

-- `AnswerResponse.of`
abbrev pub answer_response : Message → Text → AnswerResponse
answer_response message conversation_id = record {
  conversation_id = conversation_id;
  message = message_response message;
}
