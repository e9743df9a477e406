-- ===== src/Chat/Completing.antt =====
-- A completion without a task leaves the conversations alone.
use mini_company.Prelude.{ℕ, ◌≡◌, refl, inl, inr, none, List, Option-cases, arith}
use mini_company.Prelude.Text.{Text, get}
use mini_company.Ledger.Calendar.{Calendar}
use mini_company.Ledger.Service.{record_entry, summarize}
use mini_company.Llm.Profiles.{LlmProfile, calculate_cost_krw}
use mini_company.Llm.Gateway.{Message, LlmGateway}
use mini_company.Llm.Service.{
  call, call_with_fallback, complete_with_profile, cost_of, record_cost, reject_if_over_daily_limit,
  run, warn_fallback,
}
use mini_company.Llm.Billing.{call-entries}
use mini_company.Company.World.{Runtime, World, ok, Result-cases}

module _ (calendar : Calendar) (runtime : Runtime) (gateway : LlmGateway) where
  reject-told :
      (w : World)
      → (reject_if_over_daily_limit calendar runtime gateway w).1.conversations ≡ w.conversations
  unfolding reject_if_over_daily_limit summarize
  reject-told w = ground arith

  call_with_fallback-told :
      (profile : LlmProfile) (messages : List Message) (w : World)
      → (call_with_fallback calendar runtime gateway profile messages none w).1.conversations
        ≡ w.conversations
  unfolding call_with_fallback warn_fallback
  call_with_fallback-told profile messages w =
      let first = call calendar runtime gateway profile messages w in
      let same = call-entries calendar runtime gateway profile messages w in
      elim (Result-cases first.0) [
        | inl (r, answered) ↦ ground arith
        | inr (x, failed) ↦ elim (Option-cases profile.fallback) [
          | inl alone ↦ ground arith
          | inr (name, named) ↦ elim (Option-cases (get name gateway.profiles)) [
            | inl missing ↦ ground arith
            | inr (other, found) ↦
                let second = call-entries calendar runtime gateway other messages w in
                elim (Result-cases (call calendar runtime gateway other messages w).0) [
                  | inl (r, answered) ↦ ground arith
                  | inr (y, failed') ↦ ground arith
                ]
          ]
        ]
      ]

  record_cost-told :
      (cost : ℕ) (profile : LlmProfile) (w : World)
      → ((record_cost calendar runtime gateway cost none none profile w).0 ≡ ok tt)
        × ((record_cost calendar runtime gateway cost none none profile w).1.conversations
            ≡ w.conversations)
  unfolding record_cost record_entry
  record_cost-told cost profile w = (refl, refl)

  run-told :
      (own : LlmProfile) (messages : List Message) (w : World)
      → (run calendar runtime gateway own messages none none w).1.conversations ≡ w.conversations
  unfolding run cost_of
  run-told own messages w =
      let limited = reject_if_over_daily_limit calendar runtime gateway w in
      let kept = reject-told w in
      let called = call_with_fallback calendar runtime gateway own messages none limited.1 in
      let kept' = call_with_fallback-told own messages limited.1 in
      elim (Result-cases limited.0) [
        | inr (x, e) ↦ ground arith
        | inl (u, within) ↦ elim (Result-cases called.0) [
          | inr (x, e) ↦ ground arith
          | inl ((used, result), answered) ↦ elim (Option-cases (get used.model gateway.pricing)) [
            | inl free ↦ ground arith
            | inr (price, priced) ↦
                let cost = calculate_cost_krw price result.usage gateway.usd_krw_rate in
                let (billed, kept'') = record_cost-told cost used called.1 in ground arith
          ]
        ]
      ]

  pub complete_with_profile-told :
      (name : Text) (messages : List Message) (w : World)
      → (complete_with_profile calendar runtime gateway name messages w).1.conversations
        ≡ w.conversations
  unfolding complete_with_profile
  complete_with_profile-told name messages w = elim (Option-cases (get name gateway.profiles)) [
    | inl missing ↦ ground arith
    | inr (own, found) ↦ ground (arith, run-told own messages w)
  ]
