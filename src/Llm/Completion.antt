-- ===== src/Llm/Completion.antt =====
-- What a completion comes to: a billed answer, or an exception with its reason.
use mini_company.Prelude.{
  ℕ, ◌≡◌, ◌⊎◌, inl, inr, refl, Option, none, some, List, Option-cases, arith,
}
use mini_company.Prelude.Text.{Text, get}
use mini_company.Prelude.Dict.{lookup}
use mini_company.Employees.Domain.{Employee}
use mini_company.Ledger.Calendar.{Calendar}
use mini_company.Llm.Profiles.{LlmProfile, calculate_cost_krw}
use mini_company.Llm.Gateway.{Message, LlmResult, LlmGateway}
use mini_company.Llm.Service.{
  CompletionRequest, CompletionResponse, reject_if_over_daily_limit, call, warn_fallback,
  call_with_fallback, run, complete,
}
use mini_company.Llm.Billing.{
  IsAnswerOf, IsBilled, IsChosen, call-answers, call-entries, call_with_fallback-IsChosen,
  complete-bills, record_cost-entries, reject-entries, warn-entries,
}
use mini_company.Company.World.{Error, Result, Runtime, World, ok, err, Result-cases}

module _ (calendar : Calendar) (runtime : Runtime) (gateway : LlmGateway) where
  -- The provider of a profile gives no answer to messages.
  abbrev pub HasNoAnswer : LlmProfile → List Message → Type 0
  HasNoAnswer profile messages = (result : LlmResult) → ¬ IsAnswerOf gateway profile messages result

  -- Neither a profile nor its fallback gives an answer: there is no fallback, its name is unknown,
  -- the warning about it cannot be written, or it has no answer either.
  abbrev pub IsSilent : LlmProfile → List Message → Option ℕ → World → Error → Type 0
  IsSilent own messages task_id w e =
      HasNoAnswer own messages
      × ((own.fallback ≡ none)
          ⊎ ((name : Text) × (own.fallback ≡ some name)
              × ((get name gateway.profiles ≡ none)
                  ⊎ ((other : LlmProfile) × (get name gateway.profiles ≡ some other)
                      × (((warn_fallback calendar runtime gateway task_id own other w).0 ≡ err e)
                          ⊎ HasNoAnswer other messages)))))

  -- The model of the profile that answers has no price.
  abbrev pub IsUnpriced : LlmProfile → List Message → Type 0
  IsUnpriced own messages =
      (used : LlmProfile) × (result : LlmResult) × IsChosen gateway own messages used
      × IsAnswerOf gateway used messages result
      × (get used.model gateway.pricing ≡ none)

  -- Why a profile gives no response: the daily limit, the providers, or the table of prices.
  abbrev pub IsWithheld : LlmProfile → List Message → Option ℕ → World → Error → Type 0
  IsWithheld own messages task_id w e =
      let (limited, w') = reject_if_over_daily_limit calendar runtime gateway w in
      (limited ≡ err e) ⊎ (IsSilent own messages task_id w' e ⊎ IsUnpriced own messages)

  abbrev pub IsRefused : CompletionRequest → World → Error → Type 0
  IsRefused request w e =
      (lookup request.employee_id w.employees ≡ none)
      ⊎ ((employee : Employee) × (lookup request.employee_id w.employees ≡ some employee)
          × ((get employee.llm_profile gateway.profiles ≡ none)
              ⊎ ((own : LlmProfile) × (get employee.llm_profile gateway.profiles ≡ some own)
                  × IsWithheld own request.messages request.task_id w e)))

  call-HasNoAnswer :
      (profile : LlmProfile) (messages : List Message) (w : World) (e : Error)
      → (call calendar runtime gateway profile messages w).0 ≡ err e
      → HasNoAnswer profile messages
  call-HasNoAnswer profile messages w e failed result a =
      ground (arith, failed, call-answers calendar runtime gateway profile messages w result a)

  call_with_fallback-entries :
      (own : LlmProfile) (messages : List Message) (task_id : Option ℕ) (w : World)
      → (call_with_fallback calendar runtime gateway own messages task_id w).1.entries ≡ w.entries
  unfolding call_with_fallback
  call_with_fallback-entries own messages task_id w =
      let same = call-entries calendar runtime gateway own messages w in
      elim (Option-cases own.fallback) [
        | inl alone ↦ ground arith
        | inr (name, named) ↦ elim (Option-cases (get name gateway.profiles)) [
          | inl missing ↦ ground arith
          | inr (other, found) ↦
              let warned = warn_fallback calendar runtime gateway task_id own other w in
              let kept = warn-entries calendar runtime gateway task_id own other w in
              let second = call-entries calendar runtime gateway other messages warned.1 in
              ground arith
        ]
      ]

  call_with_fallback-IsSilent :
      (own : LlmProfile) (messages : List Message) (task_id : Option ℕ) (w : World) (e : Error)
      → (call_with_fallback calendar runtime gateway own messages task_id w).0 ≡ err e
      → IsSilent own messages task_id w e
  unfolding call_with_fallback
  call_with_fallback-IsSilent own messages task_id w e h =
      let same = call-entries calendar runtime gateway own messages w in
      elim (Result-cases (call calendar runtime gateway own messages w).0) [
        | inl (r, answered) ↦ absurd (ground arith)
        | inr (x, failed) ↦ (
          call-HasNoAnswer own messages w x failed,
          elim (Option-cases own.fallback) [
            | inl alone ↦ inl alone
            | inr (name, named) ↦ inr (
              name,
              named,
              elim (Option-cases (get name gateway.profiles)) [
                | inl missing ↦ inl missing
                | inr (other, found) ↦
                    let warned = warn_fallback calendar runtime gateway task_id own other w in
                    inr (
                      other,
                      found,
                      elim (Result-cases warned.0) [
                        | inr (y, refused) ↦ inl (ground arith)
                        | inl (u, written) ↦
                            inr (call-HasNoAnswer other messages warned.1 e (ground arith))
                      ],
                    )
              ],
            )
          ],
        )
      ]

  run-IsWithheld :
      (own : LlmProfile) (messages : List Message) (employee_id task_id : Option ℕ) (w : World)
      (e : Error)
      → let (r, w') = run calendar runtime gateway own messages employee_id task_id w in
        r ≡ err e → IsWithheld own messages task_id w e × (w'.entries ≡ w.entries)
  unfolding run
  run-IsWithheld own messages employee_id task_id w e h =
      let limited = reject_if_over_daily_limit calendar runtime gateway w in
      let kept = reject-entries calendar runtime gateway w in
      let called = call_with_fallback calendar runtime gateway own messages task_id limited.1 in
      let still = call_with_fallback-entries own messages task_id limited.1 in
      elim (Result-cases limited.0) [
        | inr (x, over) ↦ (inl (ground arith), ground arith)
        | inl (u, within) ↦ elim (Result-cases called.0) [
          | inr (x, failed) ↦ (
            inr (inl (call_with_fallback-IsSilent own messages task_id limited.1 e (ground arith))),
            ground arith,
          )
          | inl ((used, result), answered) ↦ elim (Option-cases (get used.model gateway.pricing)) [
            | inl free ↦
                let c =
                  call_with_fallback-IsChosen calendar runtime gateway own messages task_id
                    limited.1 used result answered in
                (inr (inr (used, result, c.0, c.1, free)), ground arith)
            | inr (price, priced) ↦
                let cost = calculate_cost_krw price result.usage gateway.usd_krw_rate in
                let recorded =
                  record_cost-entries calendar runtime gateway cost employee_id task_id used
                    called.1 in
                absurd (ground arith)
          ]
        ]
      ]

  -- What a completion comes to, and what it leaves in the ledger.
  abbrev pub IsCompleted : CompletionRequest → World → Result CompletionResponse × World → Type 0
  IsCompleted request w (ok response, w') =
      (employee : Employee) × (lookup request.employee_id w.employees ≡ some employee)
      × ((own : LlmProfile) × (get employee.llm_profile gateway.profiles ≡ some own)
          × IsBilled gateway own request.messages (some request.employee_id) request.task_id w w'
              response)
  IsCompleted request w (err e, w') = IsRefused request w e × (w'.entries ≡ w.entries)

  completed :
      (request : CompletionRequest) (w : World) (r : Result CompletionResponse)
      → (complete calendar runtime gateway request w).0 ≡ r
      → IsCompleted request w (r, (complete calendar runtime gateway request w).1)
  unfolding complete
  completed request w (ok response) h = complete-bills calendar runtime gateway request w response h
  completed request w (err e) h = elim (Option-cases (lookup request.employee_id w.employees)) [
    | inl absent ↦ (inl absent, ground arith)
    | inr (employee, found) ↦ elim (Option-cases (get employee.llm_profile gateway.profiles)) [
      | inl missing ↦ (inr (employee, found, inl missing), ground arith)
      | inr (own, named) ↦
          let (why, kept) =
            run-IsWithheld own request.messages (some request.employee_id) request.task_id w e
              (ground arith) in
          (inr (employee, found, inr (own, named, why)), rw (found, named) kept)
    ]
  ]

  -- When `complete` returns an answer, the employee and its profile are there, the answer is what the
  -- configured provider of that profile gives to the messages, or the provider of the profile that it
  -- falls back to where its own gives none, the model of the profile has a price, the cost is that
  -- price times the tokens times the rate, and the one change to the ledger is one LLM_COST entry of
  -- exactly that cost for the employee and the task. When it raises, the ledger is not changed, and
  -- the employee or its profile is not there, the daily limit refuses, neither the provider of the
  -- profile nor that of its fallback gives an answer (or the warning about the fallback cannot be
  -- written), or the model of the profile that answers has no price.
  pub complete_lem :
      (request : CompletionRequest) (w : World)
      → IsCompleted request w (complete calendar runtime gateway request w)
  complete_lem request w = completed request w (complete calendar runtime gateway request w).0 refl
