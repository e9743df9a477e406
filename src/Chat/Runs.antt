-- ===== src/Chat/Runs.antt =====
-- Every sequence of calls of the chat.
use mini_company.Prelude.{
  ℕ, ◌+◌, ◌≡◌, ◌⊎◌, refl, ap, sym, ◌∙◌, subst, inl, inr, Option, none, some, [], ◌∷◌, take,
  Option-cases, arith,
}
use mini_company.Prelude.Text.{Text, strip}
use mini_company.Prelude.Dict.{lookup, insert_cases}
use mini_company.Knowledge.Search.{search_hits}
use mini_company.Chat.Domain.{Conversation}
use mini_company.Chat.Repository.{get_stored, put_conversation, save_conversation}
use mini_company.Chat.Schemas.{conversation_response}
use mini_company.Chat.Service.{
  Assistant, answer, append, ask, asked_message, refuse, refusal_message, require,
  start_conversation, title_length, title_or_new,
}
use mini_company.Chat.Keeping.{search_hits-IsStill}
use mini_company.Chat.Answers.{IsTidy, IsTold, IsWritten, answer-IsWritten, written-IsTidy}
use mini_company.Company.World.{Runtime, World, Result-cases}
use mini_company.Company.Office.{opening}

same-IsTidy : (w v : World) → v.conversations ≡ w.conversations → IsTidy w → IsTidy v
same-IsTidy w v same tidy = record {
  named = λ i c h. tidy.named i c (ap (lookup i) (sym same) ∙ h);
  told = λ i c h. tidy.told i c (ap (lookup i) (sym same) ∙ h);
}

module _ (runtime : Runtime) where
  ask-IsWritten :
      (desk : Assistant) (i : ℕ) (question : Text) (w : World)
      → IsTidy w
      → let after = (ask runtime desk i question w).1.conversations in
        (after ≡ w.conversations) ⊎ IsWritten i w after
  unfolding ask require get_stored refuse append save_conversation put_conversation
  ask-IsWritten desk i question w tidy = elim (Option-cases (lookup i w.conversations)) [
    | inl absent ↦ inl (ground (arith, absent))
    | inr (c, found) ↦
        let v = record w { reads = w.reads + 1 } in
        let still = search_hits-IsStill runtime desk.library question none none v in
        let named = tidy.named i c found in
        let asked = asked_message question (runtime.time w.reads) in
        elim (Result-cases (search_hits runtime desk.library question none none v).0) [
          | inr (e, failed) ↦ inl (ground (arith, found, still, failed))
          | inl ([], nothing) ↦ inr (
            c,
            asked,
            refusal_message (runtime.time (w.reads + 1)),
            found,
            ground (arith, found, still, nothing, named),
            ((refl, refl), inr (refl, refl, refl)),
          )
          | inl (hit ∷ more, hits) ↦
              let goes_on : (ask runtime desk i question w).1.conversations
                  ≡ (answer runtime desk i c asked question (hit ∷ more) v).1.conversations =
                ground (arith, found, still, hits) in
              subst (λ after. (after ≡ w.conversations) ⊎ IsWritten i w after) (sym goes_on)
                (answer-IsWritten runtime desk i c asked question hit more v found named refl)
        ]
  ]

  ask-IsTidy :
      (desk : Assistant) (i : ℕ) (question : Text) (w : World)
      → IsTidy w
      → IsTidy (ask runtime desk i question w).1
  ask-IsTidy desk i question w tidy =
      let w' = (ask runtime desk i question w).1 in
      elim (ask-IsWritten desk i question w tidy) [
        | inl same ↦ same-IsTidy w w' same tidy
        | inr written ↦ written-IsTidy i w w' tidy written
      ]

  start-IsTidy :
      (desk : Assistant) (title : Option Text) (w : World)
      → IsTidy w
      → IsTidy (start_conversation runtime desk title w).1
  unfolding start_conversation save_conversation put_conversation conversation_response
  start-IsTidy desk title w tidy =
      let i = runtime.object_id w.drawn in
      let c : Conversation = record {
        id = some i;
        title = take title_length (strip (title_or_new title));
        created_at = runtime.time w.reads;
        messages = [];
      } in
      record {
        named = λ j d h. elim (insert_cases i j c d w.conversations h) [
          | inl (e, new) ↦ ground arith
          | inr (differs, old) ↦ tidy.named j d old
        ];
        told = λ j d h. elim (insert_cases i j c d w.conversations h) [
          | inl (e, new) ↦ subst IsTold new ([], refl, tt)
          | inr (differs, old) ↦ tidy.told j d old
        ];
      }

  -- Conversations are started and questions asked, each time with documents, settings and models
  -- of their own, and in between other services write other stores.
  pub data Step (w : World) : World → Type 0 where
    starts :
        (desk : Assistant) (title : Option Text)
        → Step w (start_conversation runtime desk title w).1
    asks :
        (desk : Assistant) (conversation_id : ℕ) (question : Text)
        → Step w (ask runtime desk conversation_id question w).1
    others : (v : World) → v.conversations ≡ w.conversations → Step w v

  pub data Reach : World → Type 0 where
    opens : Reach opening
    next : {v w : World} → Reach v → Step v w → Reach w

  Step-IsTidy : (w v : World) → Step w v → IsTidy w → IsTidy v
  Step-IsTidy w _ (starts desk title) tidy = start-IsTidy desk title w tidy
  Step-IsTidy w _ (asks desk i question) tidy = ask-IsTidy desk i question w tidy
  Step-IsTidy w v (others _ same) tidy = same-IsTidy w v same tidy

  -- Whatever is started and asked in any order, with whatever the searches find and the language
  -- models say, and wherever a call raises: every stored conversation is a row of questions each
  -- with its answer, and an answer is either grounded and cites a source at least, or it is the
  -- fixed refusal, without a citation and not grounded.
  pub Reach-IsTidy : (w : World) → Reach w → IsTidy w
  unfolding lookup
  Reach-IsTidy _ opens = record {
    named = λ i c h. ground arith;
    told = λ i c h. absurd (ground arith);
  }
  Reach-IsTidy _ (next {v} {w} r s) = Step-IsTidy v w s (Reach-IsTidy v r)
