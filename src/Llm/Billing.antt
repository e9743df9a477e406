-- ===== src/Llm/Billing.antt =====
-- Every answer of a language model is billed.
use mini_company.Prelude.{
  ℕ, ◌≡◌, ◌⊎◌, inl, inr, refl, ap, sym, subst, ◌∙◌, true, Option, none, some, List, Option-cases,
  arith,
}
use mini_company.Prelude.Text.{Text, get}
use mini_company.Prelude.Int.{pos}
use mini_company.Prelude.Dict.{lookup, insert}
use mini_company.Tasks.Service.{add_activity}
use mini_company.Employees.Domain.{Employee}
use mini_company.Ledger.Domain.{llm_cost, LedgerEntry}
use mini_company.Ledger.Calendar.{Calendar}
use mini_company.Ledger.Service.{record_entry, summarize}
use mini_company.Llm.Profiles.{LlmProfile, ModelPrice, calculate_cost_krw}
use mini_company.Llm.Gateway.{Message, LlmProvider, LlmResult, LlmGateway}
use mini_company.Llm.Service.{
  CompletionRequest, CompletionResponse, completion_response, reject_if_over_daily_limit, call,
  warn_fallback, call_with_fallback, record_cost, run, complete,
}
use mini_company.Company.World.{Runtime, World, ok, Result-cases}

-- A result is what the provider of a profile answers to messages: the provider is registered under
-- the profile's name for it, and configured.
pub record IsAnswerOf (gateway : LlmGateway) (profile : LlmProfile) (messages : List Message)
    (result : LlmResult) : Type 0 where
  pub provider : LlmProvider
  pub registered : get profile.provider gateway.providers ≡ some provider
  pub configured : provider.is_configured ≡ true
  pub answered : provider.complete profile messages ≡ some result

-- The profile that answers: the employee's own, or the one it falls back to, where its own provider
-- has no answer.
abbrev pub IsChosen : LlmGateway → LlmProfile → List Message → LlmProfile → Type 0
IsChosen gateway own messages used =
    (used ≡ own)
    ⊎ ((name : Text) × (own.fallback ≡ some name)
        × (get name gateway.profiles ≡ some used)
        × ((result : LlmResult) → ¬ IsAnswerOf gateway own messages result))

-- An answer, and the one entry that was written for it.
pub record IsBilled (gateway : LlmGateway) (own : LlmProfile) (messages : List Message)
    (employee_id task_id : Option ℕ) (w w' : World) (response : CompletionResponse) : Type 0 where
  pub used : LlmProfile
  pub chosen : IsChosen gateway own messages used
  pub result : LlmResult
  pub given : IsAnswerOf gateway used messages result
  pub price : ModelPrice
  pub priced : get used.model gateway.pricing ≡ some price
  pub answer :
      response
      ≡ completion_response result used (calculate_cost_krw price result.usage gateway.usd_krw_rate)
  pub key : ℕ
  pub entry : LedgerEntry
  pub entries : w'.entries ≡ insert key entry w.entries
  pub category : entry.category ≡ llm_cost
  pub amount : entry.amount ≡ pos response.cost_krw
  pub employee : entry.employee_id ≡ employee_id
  pub task : entry.task_id ≡ task_id

module _ (calendar : Calendar) (runtime : Runtime) (gateway : LlmGateway) where
  pub reject-entries :
      (w : World) → (reject_if_over_daily_limit calendar runtime gateway w).1.entries ≡ w.entries
  unfolding reject_if_over_daily_limit summarize
  reject-entries w = ground arith

  pub call-entries :
      (profile : LlmProfile) (messages : List Message) (w : World)
      → (call calendar runtime gateway profile messages w).1 ≡ w
  unfolding call
  call-entries profile messages w = ground arith

  -- A call returns just what its provider answers.
  call-IsAnswerOf :
      (profile : LlmProfile) (messages : List Message) (w : World) (result : LlmResult)
      → (call calendar runtime gateway profile messages w).0 ≡ ok result
      → IsAnswerOf gateway profile messages result
  unfolding call
  call-IsAnswerOf profile messages w result h =
      elim (Option-cases (get profile.provider gateway.providers)) [
        | inl unknown ↦ absurd (ground arith)
        | inr (p, registered) ↦ elim (Option-cases (p.complete profile messages)) [
          | inl silent ↦ absurd (ground arith)
          | inr (r, answered) ↦ record {
            provider = p;
            registered = registered;
            configured = ground arith;
            answered = ground arith;
          }
        ]
      ]

  pub call-answers :
      (profile : LlmProfile) (messages : List Message) (w : World) (result : LlmResult)
      → IsAnswerOf gateway profile messages result
      → (call calendar runtime gateway profile messages w).0 ≡ ok result
  unfolding call
  call-answers profile messages w result a = rw (a.registered, a.configured, a.answered) refl

  pub warn-entries :
      (task_id : Option ℕ) (primary fallback : LlmProfile) (w : World)
      → (warn_fallback calendar runtime gateway task_id primary fallback w).1.entries ≡ w.entries
  unfolding warn_fallback add_activity
  warn-entries none primary fallback w = refl
  warn-entries (some i) primary fallback w = ground arith

  pub call_with_fallback-IsChosen :
      (profile : LlmProfile) (messages : List Message) (task_id : Option ℕ) (w : World)
      (used : LlmProfile) (result : LlmResult)
      → (call_with_fallback calendar runtime gateway profile messages task_id w).0
        ≡ ok (used, result)
      → IsChosen gateway profile messages used
        × IsAnswerOf gateway used messages result
        × ((call_with_fallback calendar runtime gateway profile messages task_id w).1.entries
            ≡ w.entries)
  unfolding call_with_fallback
  call_with_fallback-IsChosen profile messages task_id w used result h =
      let first = call calendar runtime gateway profile messages w in
      let same = call-entries profile messages w in
      elim (Result-cases first.0) [
        | inl (r, answered) ↦ (
          inl (ground arith),
          subst (λ u. IsAnswerOf gateway u messages result) (ground arith)
              (call-IsAnswerOf profile messages w result (ground arith)),
          ground arith,
        )
        | inr (x, failed) ↦ elim (Option-cases profile.fallback) [
          | inl alone ↦ absurd (ground arith)
          | inr (name, named) ↦ elim (Option-cases (get name gateway.profiles)) [
            | inl missing ↦ absurd (ground arith)
            | inr (other, found) ↦
                let warned = warn_fallback calendar runtime gateway task_id profile other w in
                let kept = warn-entries task_id profile other w in
                let second = call-entries other messages warned.1 in
                let same : other ≡ used = ground arith in
                (
                  inr (
                    name,
                    named,
                    found ∙ ap some same,
                    λ r a. ground (arith, failed, call-answers profile messages w r a),
                  ),
                  subst (λ u. IsAnswerOf gateway u messages result) same
                      (call-IsAnswerOf other messages warned.1 result (ground arith)),
                  ground arith,
                )
          ]
        ]
      ]

  -- `record_cost` writes one entry and returns.
  pub record_cost-entries :
      (cost : ℕ) (employee_id task_id : Option ℕ) (profile : LlmProfile) (w : World)
      → (entry : LedgerEntry) × (entry.category ≡ llm_cost)
        × (entry.amount ≡ pos cost)
        × (entry.employee_id ≡ employee_id)
        × (entry.task_id ≡ task_id)
        × ((record_cost calendar runtime gateway cost employee_id task_id profile w).0 ≡ ok tt)
        × ((record_cost calendar runtime gateway cost employee_id task_id profile w).1.entries
            ≡ insert (runtime.object_id w.drawn) entry w.entries)
  unfolding record_cost record_entry
  record_cost-entries cost employee_id task_id profile w = (_, refl, refl, refl, refl, refl, refl)

  pub run-IsBilled :
      (own : LlmProfile) (messages : List Message) (employee_id task_id : Option ℕ) (w : World)
      (response : CompletionResponse)
      → (run calendar runtime gateway own messages employee_id task_id w).0 ≡ ok response
      → IsBilled gateway own messages employee_id task_id w
          (run calendar runtime gateway own messages employee_id task_id w).1
          response
  unfolding run completion_response
  run-IsBilled own messages employee_id task_id w response h =
      let limited = reject_if_over_daily_limit calendar runtime gateway w in
      let kept = reject-entries w in
      let called = call_with_fallback calendar runtime gateway own messages task_id limited.1 in
      elim (Result-cases limited.0) [
        | inr (x, e) ↦ absurd (ground arith)
        | inl (u, within) ↦ elim (Result-cases called.0) [
          | inr (x, e) ↦ absurd (ground arith)
          | inl ((used, result), answered) ↦ elim (Option-cases (get used.model gateway.pricing)) [
            | inl free ↦ absurd (ground arith)
            | inr (price, priced) ↦
                let c =
                  call_with_fallback-IsChosen own messages task_id limited.1 used result answered in
                let cost = calculate_cost_krw price result.usage gateway.usd_krw_rate in
                let (entry, kind, amount, owner, task, returned, stored) =
                  record_cost-entries cost employee_id task_id used called.1 in
                let answer : response ≡ completion_response result used cost = ground arith in
                record {
                  used = used;
                  chosen = c.0;
                  result = result;
                  given = c.1;
                  price = price;
                  priced = priced;
                  answer = answer;
                  key = runtime.object_id called.1.drawn;
                  entry = entry;
                  entries = ground arith;
                  category = kind;
                  amount = amount ∙ ap (λ (r : CompletionResponse). pos r.cost_krw) (sym answer);
                  employee = owner;
                  task = task;
                }
          ]
        ]
      ]

  -- When `complete` returns an answer, the employee and its profile are there, the answer is what the
  -- configured provider of that profile gives to the messages, or the provider of the profile that it
  -- falls back to where its own gives none; the model of that profile has a price, the cost is that price
  -- times the tokens times the rate, and the one change to the ledger is one LLM_COST entry of
  -- exactly that cost for the employee and the task.
  pub complete-bills :
      (request : CompletionRequest) (w : World) (response : CompletionResponse)
      → (complete calendar runtime gateway request w).0 ≡ ok response
      → (employee : Employee) × (lookup request.employee_id w.employees ≡ some employee)
        × ((own : LlmProfile) × (get employee.llm_profile gateway.profiles ≡ some own)
            × IsBilled gateway own request.messages
                (some request.employee_id)
                request.task_id
                w
                (complete calendar runtime gateway request w).1
                response)
  unfolding complete
  complete-bills request w response h =
      elim (Option-cases (lookup request.employee_id w.employees)) [
        | inl absent ↦ absurd (ground arith)
        | inr (employee, found) ↦ elim (Option-cases (get employee.llm_profile gateway.profiles)) [
          | inl missing ↦ absurd (ground arith)
          | inr (own, named) ↦
              let returned : (run calendar runtime gateway own request.messages
                    (some request.employee_id) request.task_id w).0
                  ≡ ok response =
                ground arith in
              (
                employee,
                found,
                (
                  own,
                  named,
                  rw (found, named)
                      (run-IsBilled own request.messages (some request.employee_id) request.task_id
                        w response returned),
                ),
              )
        ]
      ]
