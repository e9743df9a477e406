-- ===== src/Tests/Talks.antt =====
-- A conversation about the note on the shelf, and what the theorems say of it.
use mini_company.Prelude.{
  ℕ, ◌+◌, ◌*◌, ◌-◌, ◌≡◌, refl, ap, true, none, some, List, [], ◌∷◌, map, keep, length, drop, arith,
}
use mini_company.Prelude.Text.{codes, strip, get, assign, discard}
use mini_company.Prelude.Dict.{lookup, insert, values}
use mini_company.Knowledge.Chunking.Base.{from_tokens}
use mini_company.Knowledge.Chunking.Registry.{build_chunker_registry, resolve_chunker}
use mini_company.Knowledge.Chunking.Strategies.{chunk_fixed_size, windows}
use mini_company.Knowledge.Domain.{SearchHit}
use mini_company.Knowledge.Parsing.{parse_plain_text, resolve_parser, clean_text}
use mini_company.Knowledge.Service.{ingest, index, chunks_of, number_chunks}
use mini_company.Knowledge.Repository.{get_source}
use mini_company.Knowledge.Search.{search_hits}
use mini_company.Knowledge.Metadata.{untitled}
use mini_company.Ledger.Service.{record_entry}
use mini_company.Llm.Profiles.{default_profiles, calculate_cost_krw}
use mini_company.Llm.Service.{call_with_fallback, record_cost, reject_if_over_daily_limit, run}
use mini_company.Chat.Domain.{Conversation, Citation}
use mini_company.Chat.Schemas.{AnswerResponse, answer_response}
use mini_company.Chat.Service.{
  Assistant, ask, asked_message, refusal_message, grounded_message, start_conversation, history,
  sent,
}
use mini_company.Chat.History.{messages_of, is_grounded, history_lem, Exchange}
use mini_company.Chat.Answers.{IsTidy, ask-refuses}
use mini_company.Chat.Runs
use mini_company.Chat.Runs.{opens, next, starts, asks, others, Reach-IsTidy}
use mini_company.Chat.Citing.{AreCited, IsPaid, ask-cites}
use mini_company.Company.World.{World, ok}
use mini_company.Company.Office.{opening}
use mini_company.Tests.Shelves.{library, shelved}
use mini_company.Tests.Models.{gateway}
use mini_company.Samples.{runtime, even_months}

abbrev desk : Assistant
desk = record {
  calendar = even_months;
  library = library;
  gateway = gateway;
  printer = record { show_number = λ n. n ∷ []; show_amount = λ a. [] };
  profile_name = codes "structured";
  history_limit = 4;
}

-- A conversation with the id 1.
abbrev opened : World
opened = (start_conversation runtime desk none shelved).1

abbrev talk : Conversation
talk = record { id = some 1; title = codes "새 대화"; created_at = 1002; messages = [] }

talks : Unit {0}
unfolding ask start_conversation ingest index chunks_of number_chunks parse_plain_text clean_text
    strip lookup insert values get assign discard from_tokens resolve_chunker build_chunker_registry
    chunk_fixed_size windows search_hits record_entry default_profiles calculate_cost_krw
    call_with_fallback record_cost reject_if_over_daily_limit run history resolve_parser get_source
talks = tt

is_open : lookup 1 opened.conversations ≡ some talk
unfolding talks
is_open = refl

blank_finds_nothing :
    (search_hits runtime library
      (codes " ")
      none
      none
      (record opened { reads = opened.reads + 1 })).0
    ≡ ok []
unfolding talks
blank_finds_nothing = refl

ask-refuses_example :
    (ask runtime desk 1 (codes " ") opened).0
    ≡ ok (answer_response (refusal_message (runtime.time (opened.reads + 1))) (runtime.show_id 1))
ask-refuses_example =
    ap (λ r. r.0)
      (ask-refuses runtime desk 1 (codes " ") talk opened is_open refl blank_finds_nothing)

shelved_untold : shelved.conversations ≡ opening.conversations
unfolding talks
shelved_untold = refl

Reach-IsTidy_example : IsTidy (ask runtime desk 1 (codes "what?") opened).1
Reach-IsTidy_example = Reach-IsTidy runtime (ask runtime desk 1 (codes "what?") opened).1 (
    Runs.Reach.next
      (Runs.Reach.next (Runs.Reach.next opens (others shelved shelved_untold)) (starts desk none))
      (asks desk 1 (codes "what?")))

abbrev first_hit : SearchHit
first_hit = record {
  doc_id = runtime.show_id 0;
  chunk_index = 0;
  text = codes "abcdefgh";
  score = 5;
}

abbrev second_hit : SearchHit
second_hit = record { doc_id = runtime.show_id 0; chunk_index = 1; text = codes "ij"; score = 5 }

question_finds :
    (search_hits runtime library
      (codes "what?")
      none
      none
      (record opened { reads = opened.reads + 1 })).0
    ≡ ok (first_hit ∷ second_hit ∷ [])
unfolding talks
question_finds = refl

abbrev cited : ℕ → SearchHit → Citation
cited index hit = record {
  index = index;
  doc_id = hit.doc_id;
  chunk_index = hit.chunk_index;
  title = untitled;
  excerpt = hit.text;
  score = 5 ∷ [];
}

abbrev reply : AnswerResponse
reply =
    answer_response
      (grounded_message (codes "ok") 1007 (cited 1 first_hit ∷ cited 2 second_hit ∷ []))
      (runtime.show_id 1)

replied : (ask runtime desk 1 (codes "what?") opened).0 ≡ ok reply
unfolding talks
replied = refl

ask-cites_example :
    (reply.message.grounded ≡ true)
    × AreCited 1 (first_hit ∷ second_hit ∷ []) reply.message.citations
    × IsPaid runtime desk opened (ask runtime desk 1 (codes "what?") opened).1
ask-cites_example =
    ask-cites runtime desk 1 (codes "what?") talk first_hit (second_hit ∷ []) opened reply is_open
      refl question_finds replied

-- A refused question and an answered one.
abbrev exchanged : List Exchange
exchanged =
    (asked_message (codes "who?") 1, grounded_message (codes "ok") 2 [])
    ∷ (asked_message (codes "why?") 3, refusal_message 4)
    ∷ []

history_lem_example :
    history (2 * 2) (record talk { messages = messages_of exchanged })
    ≡ map sent (messages_of (keep is_grounded (drop (length exchanged - 2) exchanged)))
history_lem_example =
    history_lem 2 (record talk { messages = messages_of exchanged }) exchanged (omega arith) refl
      ((refl, refl), ((refl, refl), tt))
