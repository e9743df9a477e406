-- ===== src/Chat/Service.antt =====
-- backend/src/chat/service.py: `class ChatService`. The warning about numbers that the answer has
-- made up is a line of the log, and left out.
use mini_company.Prelude.{
  ℕ, suc, ◌-◌, Bool, true, false, Option, none, some, List, [], ◌∷◌, ◌++◌, map, length, take, drop,
  ◌==◌, if◌then◌else◌,
}
use mini_company.Prelude.Text.{Text, codes, strip, text_eq, assign}
use mini_company.Knowledge.Chunking.Base.{is_empty}
use mini_company.Knowledge.Domain.{SearchHit}
use mini_company.Knowledge.Library.{Library}
use mini_company.Knowledge.Search.{search_hits, titles_by_doc_id}
use mini_company.Ledger.Domain.{monthly}
use mini_company.Ledger.Calendar.{Calendar}
use mini_company.Ledger.Service.{summarize}
use mini_company.Llm.Gateway as Llm
use mini_company.Llm.Gateway.{LlmGateway}
use mini_company.Llm.Service.{CompletionResponse, complete_with_profile}
use mini_company.Chat.Domain.{Citation, Conversation, Message, MessageRole, user, assistant}
use mini_company.Chat.Repository.{get_stored, save_conversation, list_recent_stored}
use mini_company.Chat.Schemas.{
  AnswerResponse, ConversationResponse, answer_response, conversation_response,
}
use mini_company.Chat.Prompts.{
  Printer, not_found_answer, system_prompt, build_context, build_question, render_ledger_table,
  title_in,
}
use mini_company.Tasks.Responses.{for_each}
use mini_company.Company.World.{
  Runtime, Action, or_raise, now, pure, ◌>>=◌, ◌>>◌, conversation_not_found,
}

-- What `ChatService` is given.
pub record Assistant : Type 0 where
  pub calendar : Calendar
  pub library : Library
  pub gateway : LlmGateway
  pub printer : Printer
  pub profile_name : Text
  pub history_limit : ℕ

abbrev pub excerpt_length : ℕ
excerpt_length = 240

abbrev pub title_length : ℕ
title_length = 60

-- `role.value`
unfoldable pub role_value : MessageRole → Text
role_value user = codes "user"
role_value assistant = codes "assistant"

-- `title or "새 대화"`
abbrev pub title_or_new : Option Text → Text
title_or_new none = codes "새 대화"
title_or_new (some title) = if is_empty title then codes "새 대화" else title

-- `messages[-limit:]`: for a limit of 0 that is `messages[0:]`.
unfoldable pub last_messages : ℕ → List Message → List Message
last_messages limit messages =
    if limit == 0 then messages else drop (length messages - limit) messages

-- `if kept and kept[-1].role == MessageRole.USER.value: kept.pop()`
unfoldable pub drop_question : List Llm.Message → List Llm.Message
unfolding role_value
drop_question [] = []
drop_question (m ∷ []) = if text_eq m.role (role_value user) then [] else m ∷ []
drop_question (m ∷ next ∷ messages) = m ∷ drop_question (next ∷ messages)

abbrev pub is_refusal : Message → Bool
is_refusal message = elim message.role [
  | user ↦ false
  | assistant ↦ if message.grounded then false else true
]

abbrev pub sent : Message → Llm.Message
sent message = record { role = role_value message.role; content = message.content }

-- The loop of `_history`
unfoldable pub keep_history : List Llm.Message → List Message → List Llm.Message
unfolding drop_question
keep_history kept [] = kept
keep_history kept (message ∷ messages) =
    let refused = keep_history (drop_question kept) messages in
    let answered = keep_history (kept ++ sent message ∷ []) messages in
    if is_refusal message then refused else answered

-- `_history`
unfoldable pub history : ℕ → Conversation → List Llm.Message
unfolding keep_history last_messages
history history_limit conversation =
    keep_history [] (last_messages history_limit conversation.messages)

-- `{citation.doc_id: citation.title for citation in citations}`, on the entries so far
abbrev pub name_cited : List (Text × Text) → List Citation → List (Text × Text)
name_cited titles [] = titles
name_cited titles (citation ∷ citations) =
    name_cited (assign citation.doc_id citation.title titles) citations

abbrev pub asked_message : Text → ℕ → Message
asked_message question at = record {
  role = user;
  content = question;
  created_at = at;
  citations = [];
  grounded = true;
}

abbrev pub refusal_message : ℕ → Message
refusal_message at = record {
  role = assistant;
  content = not_found_answer;
  created_at = at;
  citations = [];
  grounded = false;
}

abbrev pub grounded_message : Text → ℕ → List Citation → Message
grounded_message content at citations = record {
  role = assistant;
  content = content;
  created_at = at;
  citations = citations;
  grounded = true;
}

module _ (runtime : Runtime) (desk : Assistant) where
  -- `start_conversation`
  unfoldable pub start_conversation : Option Text → Action ConversationResponse
  unfolding save_conversation conversation_response strip
  start_conversation title = do
    at ← now runtime
    conversation ← save_conversation runtime (record {
      id = none;
      title = take title_length (strip (title_or_new title));
      created_at = at;
      messages = [];
    })
    conversation_response runtime conversation

  -- `_require`
  unfoldable pub require : ℕ → Action Conversation
  unfolding get_stored
  require conversation_id = do
    found ← get_stored conversation_id
    or_raise found conversation_not_found

  -- `get_conversation`
  unfoldable pub get_conversation : ℕ → Action ConversationResponse
  unfolding require conversation_response
  get_conversation conversation_id = do
    conversation ← require conversation_id
    conversation_response runtime conversation

  -- `list_conversations`
  unfoldable pub list_conversations : ℕ → Action (List ConversationResponse)
  unfolding list_recent_stored for_each conversation_response
  list_conversations limit = do
    conversations ← list_recent_stored limit
    for_each (conversation_response runtime) conversations

  -- `_append`
  unfoldable pub append : Conversation → List Message → Action Conversation
  unfolding save_conversation
  append conversation messages =
      save_conversation runtime
        (record conversation { messages = conversation.messages ++ messages })

  abbrev pub cite : List (Text × Text) → ℕ → SearchHit → Citation
  cite titles index hit = record {
    index = index;
    doc_id = hit.doc_id;
    chunk_index = hit.chunk_index;
    title = title_in titles hit.doc_id;
    excerpt = take excerpt_length hit.text;
    score = desk.library.show_score hit.score;
  }

  -- `enumerate(hits, start=1)`
  abbrev pub cite_all : List (Text × Text) → ℕ → List SearchHit → List Citation
  cite_all titles index [] = []
  cite_all titles index (hit ∷ hits) = cite titles index hit ∷ cite_all titles (suc index) hits

  -- `_build_citations`
  unfoldable pub build_citations : List SearchHit → Action (List Citation)
  unfolding titles_by_doc_id
  build_citations hits = do
    titles ← titles_by_doc_id runtime desk.library (map (λ (hit : SearchHit). hit.doc_id) hits)
    pure (cite_all titles 1 hits)

  -- The rest of `ask` without hits.
  unfoldable pub refuse : ℕ → Conversation → Message → Action AnswerResponse
  unfolding append
  refuse conversation_id conversation asked = do
    at ← now runtime
    let answered = refusal_message at
    append conversation (asked ∷ answered ∷ [])
    pure (answer_response answered (runtime.show_id conversation_id))

  -- The part of `ask` that asks the language model.
  unfoldable pub consult :
      Conversation → Text → List SearchHit → List Citation → Action CompletionResponse
  unfolding summarize build_context render_ledger_table complete_with_profile system_prompt history
      build_question
  consult conversation question hits citations = do
    summary ← summarize desk.calendar runtime monthly none
    let context =
        build_context desk.printer hits (name_cited [] citations)
          (render_ledger_table desk.printer summary)
    complete_with_profile desk.calendar runtime desk.gateway desk.profile_name (
        record { role = codes "system"; content = system_prompt }
          ∷ history desk.history_limit conversation
        ++ record { role = codes "user"; content = context ++ 10 ∷ 10 ∷ build_question question }
          ∷ [])

  -- The rest of `ask` with hits.
  unfoldable pub answer : ℕ → Conversation → Message → Text → List SearchHit → Action AnswerResponse
  unfolding build_citations consult append
  answer conversation_id conversation asked question hits = do
    citations ← build_citations hits
    completion ← consult conversation question hits citations
    at ← now runtime
    let answered = grounded_message completion.content at citations
    append conversation (asked ∷ answered ∷ [])
    pure (answer_response answered (runtime.show_id conversation_id))

  -- `ask`
  unfoldable pub ask : ℕ → Text → Action AnswerResponse
  unfolding require search_hits refuse answer
  ask conversation_id question = do
    conversation ← require conversation_id
    at ← now runtime
    let asked = asked_message question at
    hits ← search_hits runtime desk.library question none none
    elim hits [
      | [] ↦ refuse conversation_id conversation asked
      | hit ∷ more ↦ answer conversation_id conversation asked question (hit ∷ more)
    ]
