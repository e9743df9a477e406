-- ===== src/Chat/Citing.antt =====
-- What a grounded answer cites, and what it costs.
use mini_company.Prelude.{
  ℕ, suc, ◌+◌, ◌≡◌, refl, ap, sym, ◌∙◌, subst, inl, inr, true, none, some, List, [], ◌∷◌, map, take,
  length, Option-cases, arith,
}
use mini_company.Prelude.Text.{Text, get}
use mini_company.Prelude.Dict.{lookup, insert}
use mini_company.Knowledge.Domain.{SearchHit}
use mini_company.Knowledge.Search.{search_hits}
use mini_company.Ledger.Domain.{LedgerEntry, llm_cost}
use mini_company.Ledger.Service.{summarize}
use mini_company.Llm.Billing.{run-IsBilled}
use mini_company.Llm.Service.{CompletionResponse, complete_with_profile, resolve_profile}
use mini_company.Llm.Gateway as Llm
use mini_company.Chat.Domain.{Citation, Conversation, Message}
use mini_company.Chat.Repository.{get_stored, put_conversation, save_conversation}
use mini_company.Chat.Schemas.{AnswerResponse, CitationResponse, citation_response}
use mini_company.Chat.Service.{
  Assistant, answer, append, ask, asked_message, build_citations, cite_all, consult, require,
}
use mini_company.Chat.Keeping.{search_hits-IsStill}
use mini_company.Chat.Answers.{build_citations-cites}
use mini_company.Company.World.{Runtime, World, ok, Result-cases}

-- The citations number the hits from `n` on, name the chunk of each, and quote its beginning.
abbrev pub AreCited : ℕ → List SearchHit → List CitationResponse → Type 0
AreCited n [] [] = Unit
AreCited n [] (c ∷ citations) = length (c ∷ []) ≡ 0
AreCited n (hit ∷ hits) [] = length (hit ∷ []) ≡ 0
AreCited n (hit ∷ hits) (c ∷ citations) =
    (c.index ≡ n)
    × (c.doc_id ≡ hit.doc_id)
    × (c.chunk_index ≡ hit.chunk_index)
    × (c.excerpt ≡ take 240 hit.text)
    × AreCited (suc n) hits citations

module _ (runtime : Runtime) (desk : Assistant) where
  cite_all-AreCited :
      (titles : List (Text × Text)) (n : ℕ) (hits : List SearchHit)
      → AreCited n hits (map citation_response (cite_all runtime desk titles n hits))
  cite_all-AreCited titles n [] = tt
  cite_all-AreCited titles n (hit ∷ hits) =
      (refl, refl, refl, refl, cite_all-AreCited titles (suc n) hits)

  -- One entry of the ledger is the cost of a completion without an employee.
  abbrev pub IsPaid : World → World → Type 0
  IsPaid w w' =
      (key : ℕ) × (entry : LedgerEntry) × (w'.entries ≡ insert key entry w.entries)
      × (entry.category ≡ llm_cost)
      × (entry.employee_id ≡ none)

  complete_with_profile-IsPaid :
      (messages : List Llm.Message) (w : World) (completion : CompletionResponse)
      → (complete_with_profile desk.calendar runtime desk.gateway desk.profile_name messages w).0
        ≡ ok completion
      → IsPaid w
          (complete_with_profile desk.calendar runtime desk.gateway desk.profile_name messages w).1
  unfolding complete_with_profile resolve_profile
  complete_with_profile-IsPaid messages w completion h =
      elim (Option-cases (get desk.profile_name desk.gateway.profiles)) [
        | inl missing ↦ absurd (ground arith)
        | inr (own, found) ↦
            let billed =
              run-IsBilled desk.calendar runtime desk.gateway own messages none none w completion
                (ground arith) in
            (
              billed.key,
              billed.entry,
              ground (arith, billed.entries),
              billed.category,
              billed.employee,
            )
      ]

  consult-IsPaid :
      (conversation : Conversation) (question : Text) (hits : List SearchHit)
      (citations : List Citation) (w : World) (completion : CompletionResponse)
      → (consult runtime desk conversation question hits citations w).0 ≡ ok completion
      → IsPaid w (consult runtime desk conversation question hits citations w).1
  unfolding consult summarize
  consult-IsPaid conversation question hits citations w completion h =
      complete_with_profile-IsPaid _ _ completion h

  answer-cites :
      (i : ℕ) (c : Conversation) (asked : Message) (question : Text) (hits : List SearchHit)
      (w : World) (response : AnswerResponse)
      → c.id ≡ some i
      → (answer runtime desk i c asked question hits w).0 ≡ ok response
      → (response.message.grounded ≡ true)
        × AreCited 1 hits response.message.citations
        × IsPaid w (answer runtime desk i c asked question hits w).1
  unfolding answer append save_conversation put_conversation
  answer-cites i c asked question hits w response named h =
      let (still, cites) = build_citations-cites runtime desk hits w in
      elim (Result-cases (build_citations runtime desk hits w).0) [
        | inr (e, failed) ↦ absurd (ground (arith, still))
        | inl (citations, made) ↦
            let (titles, same) = cites citations made in
            let asked_model = consult runtime desk c question hits citations w in
            elim (Result-cases asked_model.0) [
              | inr (e, failed) ↦ absurd (ground (arith, still))
              | inl (completion, answered) ↦
                  let (key, entry, written, kind, nobody) =
                    consult-IsPaid c question hits citations w completion answered in
                  let cited : response.message.citations ≡ map citation_response citations =
                    ground (arith, still) in
                  (
                    ground (arith, still),
                    subst (AreCited 1 hits) (sym (cited ∙ ap (map citation_response) same))
                        (cite_all-AreCited titles 1 hits),
                    (key, entry, ground (arith, still), kind, nobody),
                  )
            ]
      ]

  -- When a search finds hits for a question in a known conversation and `ask` returns, the answer
  -- is grounded, its citations number the hits from 1 on, name the chunk of each and quote the
  -- first 240 characters of it, and one entry of LLM_COST, of no employee, is added to the ledger.
  pub ask-cites :
      (i : ℕ) (question : Text) (conversation : Conversation) (hit : SearchHit)
      (more : List SearchHit) (w : World) (response : AnswerResponse)
      → lookup i w.conversations ≡ some conversation
      → conversation.id ≡ some i
      → (search_hits runtime desk.library question none none (record w { reads = w.reads + 1 })).0
        ≡ ok (hit ∷ more)
      → (ask runtime desk i question w).0 ≡ ok response
      → (response.message.grounded ≡ true)
        × AreCited 1 (hit ∷ more) response.message.citations
        × IsPaid w (ask runtime desk i question w).1
  unfolding ask require get_stored
  ask-cites i question c hit more w response found named hits h =
      let v = record w { reads = w.reads + 1 } in
      let still = search_hits-IsStill runtime desk.library question none none v in
      let asked = asked_message question (runtime.time w.reads) in
      let goes_on : ask runtime desk i question w
          ≡ answer runtime desk i c asked question (hit ∷ more) v =
        ground (arith, found, still, hits) in
      let (grounded, cited, paid) =
        answer-cites i c asked question (hit ∷ more) v response named
          (ap (λ r. r.0) (sym goes_on) ∙ h) in
      (grounded, cited, subst (λ r. IsPaid w r.1) (sym goes_on) paid)
