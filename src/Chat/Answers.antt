-- ===== src/Chat/Answers.antt =====
-- What `ask` writes, and that no answer stands without a source.
use mini_company.Prelude.{
  ℕ, ◌+◌, ◌≤◌, ◌≡◌, ◌≢◌, ◌⊎◌, refl, ap, sym, ◌∙◌, subst, inl, inr, true, false, none, some, List,
  [], ◌∷◌, ◌++◌, map, length, All, All-append, arith,
}
use mini_company.Prelude.Text.{Text}
use mini_company.Prelude.Dict.{Dict, lookup, insert, insert_cases}
use mini_company.Knowledge.Domain.{SearchHit}
use mini_company.Knowledge.Search.{search_hits, titles_by_doc_id}
use mini_company.Ledger.Service.{summarize}
use mini_company.Chat.Domain.{Citation, Conversation, Message, user}
use mini_company.Chat.Repository.{get_stored, put_conversation, save_conversation}
use mini_company.Chat.Prompts.{not_found_answer}
use mini_company.Chat.Schemas.{answer_response}
use mini_company.Chat.Service.{
  Assistant, answer, append, ask, asked_message, build_citations, cite_all, consult,
  grounded_message, refusal_message, refuse, require,
}
use mini_company.Chat.History.{Exchange, IsExchange, messages_of}
use mini_company.Chat.Keeping.{search_hits-IsStill, titles_by_doc_id-IsStill}
use mini_company.Chat.Completing.{complete_with_profile-told}
use mini_company.Company.World.{Runtime, World, ok, Result-cases}

module _ (runtime : Runtime) (desk : Assistant) where
  -- When a search finds nothing for a question in a known conversation, `ask` returns the fixed
  -- refusal, without a citation and not grounded, whatever the language model would say, and all
  -- that it changes is that the question and the refusal are appended to the conversation and the
  -- clock is read twice.
  pub ask-refuses :
      (i : ℕ) (question : Text) (conversation : Conversation) (w : World)
      → lookup i w.conversations ≡ some conversation
      → conversation.id ≡ some i
      → (search_hits runtime desk.library question none none (record w { reads = w.reads + 1 })).0
        ≡ ok []
      → let asked = asked_message question (runtime.time w.reads) in
        let refused = refusal_message (runtime.time (w.reads + 1)) in
        ask runtime desk i question w ≡ (
          ok (answer_response refused (runtime.show_id i)),
          record w {
            conversations =
                insert i
                  (record conversation { messages = conversation.messages ++ asked ∷ refused ∷ [] })
                  w.conversations;
            reads = w.reads + 1 + 1;
          },
        )
  unfolding ask require get_stored refuse append save_conversation put_conversation
  ask-refuses i question conversation w found named nothing =
      let still =
        search_hits-IsStill runtime desk.library question none none
          (record w { reads = w.reads + 1 }) in
      ground (arith, found, named, still, nothing)

  consult-told :
      (conversation : Conversation) (question : Text) (hits : List SearchHit)
      (citations : List Citation) (w : World)
      → (consult runtime desk conversation question hits citations w).1.conversations
        ≡ w.conversations
  unfolding consult summarize
  consult-told conversation question hits citations w =
      complete_with_profile-told desk.calendar runtime desk.gateway desk.profile_name _ _

  pub build_citations-cites :
      (hits : List SearchHit) (w : World)
      → (build_citations runtime desk hits w ≡ ((build_citations runtime desk hits w).0, w))
        × ((citations : List Citation)
            → (build_citations runtime desk hits w).0 ≡ ok citations
            → (titles : List (Text × Text)) × (citations ≡ cite_all runtime desk titles 1 hits))
  unfolding build_citations
  build_citations-cites hits w =
      let ids = map (λ (hit : SearchHit). hit.doc_id) hits in
      let still = titles_by_doc_id-IsStill runtime desk.library ids w in
      elim (Result-cases (titles_by_doc_id runtime desk.library ids w).0) [
        | inr (e, failed) ↦ (ground (arith, still, failed), λ citations made. absurd (ground arith))
        | inl (titles, found) ↦
            (ground (arith, still, found), λ citations made. (titles, ground (arith, still, found)))
      ]

-- A question with a grounded answer that cites a source, or with the fixed refusal.
abbrev pub IsSourced : Exchange → Type 0
IsSourced (question, answer) =
    IsExchange (question, answer)
    × ((answer.grounded ≡ true) × (1 ≤ length answer.citations)
        ⊎ (answer.grounded ≡ false) × (answer.content ≡ not_found_answer) × (answer.citations ≡ []))

-- A conversation is a row of questions and answers, every answer with a source or refused.
abbrev pub IsTold : Conversation → Type 0
IsTold conversation =
    (exchanges : List Exchange) × (conversation.messages ≡ messages_of exchanges)
    × All IsSourced exchanges

messages_of-append :
    (xs ys : List Exchange) → messages_of (xs ++ ys) ≡ messages_of xs ++ messages_of ys
messages_of-append [] ys = refl
messages_of-append ((q, a) ∷ xs) ys = ap (λ ms. q ∷ a ∷ ms) (messages_of-append xs ys)

append-IsTold :
    (conversation : Conversation) (q a : Message)
    → IsSourced (q, a)
    → IsTold conversation
    → IsTold (record conversation { messages = conversation.messages ++ q ∷ a ∷ [] })
append-IsTold conversation q a sourced (exchanges, whole, h) = (
  exchanges ++ (q, a) ∷ [],
  ap (λ ms. ms ++ q ∷ a ∷ []) whole ∙ sym (messages_of-append exchanges ((q, a) ∷ [])),
  All-append IsSourced exchanges ((q, a) ∷ []) h (sourced, tt),
)

-- The stored conversations carry their ids, and are told.
pub record IsTidy (w : World) : Type 0 where
  pub named : (i : ℕ) (c : Conversation) → lookup i w.conversations ≡ some c → c.id ≡ some i
  pub told : (i : ℕ) (c : Conversation) → lookup i w.conversations ≡ some c → IsTold c

-- An exchange is appended to the conversation at `i`.
abbrev pub IsWritten : ℕ → World → Dict Conversation → Type 0
IsWritten i w after =
    (c : Conversation) × (q : Message) × (a : Message) × (lookup i w.conversations ≡ some c)
    × (after ≡ insert i (record c { messages = c.messages ++ q ∷ a ∷ [] }) w.conversations)
    × IsSourced (q, a)

pub written-IsTidy : (i : ℕ) (w w' : World) → IsTidy w → IsWritten i w w'.conversations → IsTidy w'
written-IsTidy i w w' tidy (c, q, a, found, same, sourced) =
    let c' = record c { messages = c.messages ++ q ∷ a ∷ [] } in
    let cases : (j : ℕ) (d : Conversation)
        → lookup j w'.conversations ≡ some d
        → (i ≡ j) × (c' ≡ d) ⊎ (i ≢ j) × (lookup j w.conversations ≡ some d) =
      λ j d h. insert_cases i j c' d w.conversations (ap (lookup j) (sym same) ∙ h) in
    record {
      named = λ j d h. elim (cases j d h) [
        | inl (e, new) ↦ ground (arith, tidy.named i c found)
        | inr (differs, old) ↦ tidy.named j d old
      ];
      told = λ j d h. elim (cases j d h) [
        | inl (e, new) ↦ subst IsTold new (append-IsTold c q a sourced (tidy.told i c found))
        | inr (differs, old) ↦ tidy.told j d old
      ];
    }

module _ (runtime : Runtime) (desk : Assistant) where
  pub answer-IsWritten :
      (i : ℕ) (c : Conversation) (asked : Message) (question : Text) (hit : SearchHit)
      (more : List SearchHit) (w : World)
      → lookup i w.conversations ≡ some c
      → c.id ≡ some i
      → asked.role ≡ user
      → let after = (answer runtime desk i c asked question (hit ∷ more) w).1.conversations in
        (after ≡ w.conversations) ⊎ IsWritten i w after
  unfolding answer append save_conversation put_conversation
  answer-IsWritten i c asked question hit more w found named asks =
      let (still, cites) = build_citations-cites runtime desk (hit ∷ more) w in
      elim (Result-cases (build_citations runtime desk (hit ∷ more) w).0) [
        | inr (e, failed) ↦ inl (ground (arith, still, failed))
        | inl (citations, made) ↦
            let (titles, same) = cites citations made in
            let asked_model = consult runtime desk c question (hit ∷ more) citations w in
            let kept = consult-told runtime desk c question (hit ∷ more) citations w in
            elim (Result-cases asked_model.0) [
              | inr (e, failed) ↦ inl (ground (arith, still, made, failed, kept))
              | inl (completion, answered) ↦
                  let a =
                    grounded_message completion.content (runtime.time asked_model.1.reads)
                      citations in
                  inr (
                    c,
                    asked,
                    a,
                    found,
                    ground (arith, still, made, answered, kept, named),
                    ((asks, refl), inl (refl, ground (arith, same))),
                  )
            ]
      ]
