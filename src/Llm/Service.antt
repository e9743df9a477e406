-- ===== src/Llm/Service.antt =====
-- backend/src/llm/service.py: `class LlmService`.
use mini_company.Prelude.{ℕ, not, Option, none, some, List, ◌++◌, if◌then◌else◌}
use mini_company.Prelude.Text.{Text, codes, get}
use mini_company.Prelude.Int.{pos, leb_ℤ}
use mini_company.Tasks.Domain.{warn}
use mini_company.Tasks.Service.{add_activity}
use mini_company.Employees.Repository.{get_employee}
use mini_company.Ledger.Domain.{llm_cost, daily}
use mini_company.Ledger.Calendar.{Calendar}
use mini_company.Ledger.Service.{record_entry, summarize}
use mini_company.Llm.Profiles.{LlmProfile, TokenUsage, calculate_cost_krw}
use mini_company.Llm.Gateway.{Message, LlmResult, LlmGateway}
use mini_company.Company.World.{
  Runtime, Action, Result, ok, err, pure, raise, or_raise, raise_if, now, ◌>>=◌, ◌>>◌,
  employee_not_found, profile_not_found, provider_not_configured, llm_call_failed,
  daily_cost_limit_exceeded,
}

-- backend/src/llm/schemas.py: `CompletionRequest` and `CompletionResponse`
pub record CompletionRequest : Type 0 where
  pub employee_id : ℕ
  pub task_id : Option ℕ
  pub messages : List Message

pub record CompletionResponse : Type 0 where
  pub content : Text
  pub profile : Text
  pub provider : Text
  pub model : Text
  pub usage : TokenUsage
  pub cost_krw : ℕ

-- `CompletionResponse.of`
unfoldable pub completion_response : LlmResult → LlmProfile → ℕ → CompletionResponse
completion_response result profile cost = record {
  content = result.content;
  profile = profile.name;
  provider = profile.provider;
  model = profile.model;
  usage = result.usage;
  cost_krw = cost;
}

module _ (calendar : Calendar) (runtime : Runtime) (gateway : LlmGateway) where
  -- `_resolve_profile`
  unfoldable pub resolve_profile : Text → Action LlmProfile
  resolve_profile name = or_raise (get name gateway.profiles) profile_not_found

  -- `_reject_if_over_daily_limit`
  unfoldable pub reject_if_over_daily_limit : Action Unit
  reject_if_over_daily_limit = if leb_ℤ gateway.daily_cost_limit_krw (pos 0) then pure tt else (do
    summary ← summarize calendar runtime daily none
    raise_if (leb_ℤ gateway.daily_cost_limit_krw (summary.totals llm_cost))
        daily_cost_limit_exceeded)

  -- `_call`
  unfoldable pub call : LlmProfile → List Message → Action LlmResult
  call profile messages = do
    provider ← or_raise (get profile.provider gateway.providers) provider_not_configured
    raise_if (not provider.is_configured) provider_not_configured
    or_raise (provider.complete profile messages) llm_call_failed

  -- `_warn_fallback`
  unfoldable pub warn_fallback : Option ℕ → LlmProfile → LlmProfile → Action Unit
  warn_fallback none primary fallback = pure tt
  warn_fallback (some task_id) primary fallback = do
    add_activity runtime task_id warn
        (primary.name ++ codes " 프로파일 호출 실패로 " ++ fallback.name ++ codes "으로 대체했습니다")
    pure tt

  -- The handler of `_call_with_fallback`, which sees LlmCallFailed and ProviderNotConfigured alone:
  -- `_call` raises nothing else.
  unfoldable pub fall_back :
      LlmProfile → List Message → Option ℕ → Result LlmResult → Action (LlmProfile × LlmResult)
  unfolding resolve_profile call
  fall_back profile messages task_id (ok result) = pure (profile, result)
  fall_back profile messages task_id (err e) = elim profile.fallback [
    | none ↦ raise e
    | some name ↦ do
      fallback ← resolve_profile name
      warn_fallback task_id profile fallback
      result ← call fallback messages
      pure (fallback, result)
  ]

  -- `_call_with_fallback`
  unfoldable pub call_with_fallback :
      LlmProfile → List Message → Option ℕ → Action (LlmProfile × LlmResult)
  unfolding call fall_back
  call_with_fallback profile messages task_id w =
      let (r, w') = call profile messages w in fall_back profile messages task_id r w'

  -- `_cost_of`
  unfoldable pub cost_of : LlmProfile → LlmResult → Action ℕ
  cost_of profile result = do
    price ← or_raise (get profile.model gateway.pricing) llm_call_failed
    pure (calculate_cost_krw price result.usage gateway.usd_krw_rate)

  -- `_record_cost`
  unfoldable pub record_cost : ℕ → Option ℕ → Option ℕ → LlmProfile → Action Unit
  record_cost cost employee_id task_id profile = do
    at ← now runtime
    record_entry calendar runtime llm_cost (pos cost) at employee_id task_id (
        some (
          profile.provider
          ++ codes "/"
          ++ profile.model
          ++ codes " ("
          ++ profile.name
          ++ codes ")"))
    pure tt

  -- `_run`
  unfoldable pub run : LlmProfile → List Message → Option ℕ → Option ℕ → Action CompletionResponse
  unfolding cost_of completion_response
  run profile messages employee_id task_id = do
    reject_if_over_daily_limit
    called ← call_with_fallback profile messages task_id
    cost ← cost_of called.0 called.1
    record_cost cost employee_id task_id called.0
    pure (completion_response called.1 called.0 cost)

  -- `complete`
  unfoldable pub complete : CompletionRequest → Action CompletionResponse
  unfolding get_employee resolve_profile
  complete request = do
    employee ← or_raise (← get_employee request.employee_id) employee_not_found
    profile ← resolve_profile employee.llm_profile
    run profile request.messages (some request.employee_id) request.task_id

  -- `complete_with_profile`
  unfoldable pub complete_with_profile : Text → List Message → Action CompletionResponse
  unfolding resolve_profile
  complete_with_profile name messages = do
    profile ← resolve_profile name
    run profile messages none none
