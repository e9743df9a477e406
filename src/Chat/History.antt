-- ===== src/Chat/History.antt =====
-- What of a conversation is sent to the model.
use mini_company.Prelude.{
  ℕ, zero, suc, ◌-◌, ◌*◌, ◌<◌, ◌≡◌, refl, ap, sym, ◌∙◌, inl, inr, Bool, true, false, List, [], ◌∷◌,
  ◌++◌, append_assoc, append-nil, map, keep, length, drop, All, Bool-cases, ◌==◌, arith,
}
use mini_company.Prelude.Text.{text_eq, text_eq_refl}
use mini_company.Llm.Gateway as Llm
use mini_company.Chat.Domain.{Conversation, Message, user, assistant}
use mini_company.Chat.Service.{
  drop_question, history, is_refusal, keep_history, last_messages, role_value, sent,
}

-- A question and its answer.
abbrev pub Exchange : Type 0
Exchange = Message × Message

abbrev pub IsExchange : Exchange → Type 0
IsExchange (question, answer) = (question.role ≡ user) × (answer.role ≡ assistant)

abbrev pub messages_of : List Exchange → List Message
messages_of [] = []
messages_of ((question, answer) ∷ exchanges) = question ∷ answer ∷ messages_of exchanges

abbrev pub is_grounded : Exchange → Bool
is_grounded (question, answer) = answer.grounded

drop_question-append :
    (kept : List Llm.Message) (m : Llm.Message)
    → text_eq m.role (role_value user) ≡ true
    → drop_question (kept ++ m ∷ []) ≡ kept
unfolding drop_question
drop_question-append [] m h = rw h
drop_question-append (k ∷ []) m h = rw h
drop_question-append (k ∷ next ∷ kept) m h =
    ap (λ ms. k ∷ ms) (drop_question-append (next ∷ kept) m h)

All-drop : (P : Exchange → Type 0) (n : ℕ) (xs : List Exchange) → All P xs → All P (drop n xs)
All-drop P zero xs h = h
All-drop P (suc n) [] h = tt
All-drop P (suc n) (x ∷ xs) (p, h) = All-drop P n xs h

append-two :
    (kept : List Llm.Message) (a b : Llm.Message) (rest : List Llm.Message)
    → ((kept ++ a ∷ []) ++ b ∷ []) ++ rest ≡ kept ++ a ∷ b ∷ rest
append-two kept a b rest =
    append_assoc (kept ++ a ∷ []) (b ∷ []) rest ∙ append_assoc kept (a ∷ []) (b ∷ rest)

length-messages_of :
    (exchanges : List Exchange) → length (messages_of exchanges) ≡ length exchanges * 2
length-messages_of [] = refl
length-messages_of ((question, answer) ∷ exchanges) = omega (arith, length-messages_of exchanges)

drop-messages_of :
    (n : ℕ) (exchanges : List Exchange)
    → drop (n * 2) (messages_of exchanges) ≡ messages_of (drop n exchanges)
drop-messages_of zero exchanges = refl
drop-messages_of (suc n) [] = let twice : suc n * 2 ≡ suc (suc (n * 2)) = omega arith in rw twice
drop-messages_of (suc n) ((question, answer) ∷ exchanges) =
    let twice : suc n * 2 ≡ suc (suc (n * 2)) = omega arith in
    rw twice (drop-messages_of n exchanges)

keep_history-exchanges :
    (kept : List Llm.Message) (exchanges : List Exchange)
    → All IsExchange exchanges
    → keep_history kept (messages_of exchanges)
      ≡ kept ++ map sent (messages_of (keep is_grounded exchanges))
unfolding keep_history role_value
keep_history-exchanges kept [] h = sym (append-nil kept)
keep_history-exchanges kept ((question, answer) ∷ exchanges) ((asks, answers), h) =
    let asked : is_refusal question ≡ false = rw asks refl in
    let role : text_eq (sent question).role (role_value user) ≡ true =
      rw asks (text_eq_refl (role_value user)) in
    let dropped = drop_question-append kept (sent question) role in
    elim (Bool-cases answer.grounded) [
      | inl grounded ↦
          let kept_ : is_refusal answer ≡ false = rw (answers, grounded) refl in
          let rest =
            keep_history-exchanges ((kept ++ sent question ∷ []) ++ sent answer ∷ []) exchanges h in
          rw (asked, kept_, grounded) (rest ∙ append-two kept (sent question) (sent answer) _)
      | inr refused ↦
          let dropped_ : is_refusal answer ≡ true = rw (answers, refused) refl in
          let rest = keep_history-exchanges kept exchanges h in
          rw (asked, dropped_, refused, dropped) rest
    ]

-- In a conversation of questions and answers, with a limit of an even number of messages above 0,
-- what is sent to the model are the exchanges among the last ones whose answer is grounded, in
-- order and whole: no refusal and no question that met one.
pub history_lem :
    (k : ℕ) (conversation : Conversation) (exchanges : List Exchange)
    → 0 < k
    → conversation.messages ≡ messages_of exchanges
    → All IsExchange exchanges
    → history (k * 2) conversation
      ≡ map sent (messages_of (keep is_grounded (drop (length exchanges - k) exchanges)))
unfolding history last_messages
history_lem k conversation exchanges positive whole h =
    let limited : (k * 2 == 0) ≡ false = ground arith in
    let start : length (messages_of exchanges) - k * 2 ≡ (length exchanges - k) * 2 =
      omega (arith, length-messages_of exchanges) in
    let last = drop-messages_of (length exchanges - k) exchanges in
    let sent_ =
      keep_history-exchanges [] (drop (length exchanges - k) exchanges)
        (All-drop IsExchange (length exchanges - k) exchanges h) in
    rw (whole, limited, start, last) sent_
