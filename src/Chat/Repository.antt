-- ===== src/Chat/Repository.antt =====
-- `InMemoryConversationRepository` of backend/tests/fakes/chat.py, which fulfils
-- `ConversationRepositoryProtocol` of backend/src/chat/repository.py.
use mini_company.Prelude.{ℕ, Option, none, some, List, sorted_by, take, leb}
use mini_company.Prelude.Dict.{lookup, insert, values}
use mini_company.Chat.Domain.{Conversation}
use mini_company.Company.World.{Runtime, Action, gets, modify, pure, draw_id, ◌>>=◌, ◌>>◌}

-- `get`
unfoldable pub get_stored : ℕ → Action (Option Conversation)
get_stored conversation_id = gets (λ w. lookup conversation_id w.conversations)

unfoldable pub put_conversation : ℕ → Conversation → Action Conversation
put_conversation i conversation = do
  modify (λ w. record w { conversations = insert i conversation w.conversations })
  pure conversation

-- `save`: a conversation without an id gets one.
unfoldable pub save_conversation : Runtime → Conversation → Action Conversation
unfolding put_conversation
save_conversation runtime conversation = elim conversation.id [
  | none ↦ do i ← draw_id runtime; put_conversation i (record conversation { id = some i })
  | some i ↦ put_conversation i conversation
]

-- `list_recent`: what began at the same instant keeps its order.
unfoldable pub list_recent_stored : ℕ → Action (List Conversation)
list_recent_stored limit = gets (λ w.
    take limit
      (sorted_by (λ (c d : Conversation). leb d.created_at c.created_at) (values w.conversations)))
