-- ===== src/Tests/Models.antt =====
-- A catalogue, and a call of a model that is billed.
use mini_company.Prelude.{◌≡◌, refl, true, none, some, List, [], ◌∷◌, All, if◌then◌else◌}
use mini_company.Prelude.Text.{Text, codes, get, text_eq}
use mini_company.Prelude.Int.{pos}
use mini_company.Prelude.Dict.{lookup, insert, values}
use mini_company.Employees.Domain.{writer, role_llm_profile}
use mini_company.Ledger.Service.{record_entry}
use mini_company.Llm.Profiles.{default_profiles, validate_catalog, accepted, calculate_cost_krw}
use mini_company.Llm.Gateway.{LlmGateway, LlmProvider}
use mini_company.Llm.Service.{
  CompletionRequest, CompletionResponse, complete, reject_if_over_daily_limit, call_with_fallback,
  record_cost, run, warn_fallback,
}
use mini_company.Llm.Catalog.{IsCallable, validate_catalog-IsCallable}
use mini_company.Llm.Completion.{IsCompleted, complete_lem}
use mini_company.Employees.Service.{hire}
use mini_company.Company.World.{World, ok, err, employee_not_found}
use mini_company.Company.Office.{opening}
use mini_company.Samples.{runtime, even_months, hired}

abbrev known : List Text
known = codes "minimax" ∷ codes "anthropic" ∷ codes "ollama" ∷ []

abbrev priced : List Text
priced = codes "MiniMax-M2.7" ∷ codes "MiniMax-M3" ∷ []

defaults_accepted :
    validate_catalog default_profiles known (codes "minimax" ∷ []) priced true ≡ accepted []
unfolding validate_catalog default_profiles get text_eq
defaults_accepted = refl

validate_catalog-IsCallable_example :
    All (IsCallable default_profiles known (codes "minimax" ∷ []) priced true) default_profiles
validate_catalog-IsCallable_example =
    validate_catalog-IsCallable default_profiles known (codes "minimax" ∷ []) priced true []
      defaults_accepted

-- A provider that always answers "ok", for ten tokens in and two out.
abbrev answering : LlmProvider
answering = record {
  is_configured = true;
  complete = λ profile messages.
      some
        (record { content = codes "ok"; usage = record { input_tokens = 10; output_tokens = 2 } });
}

abbrev pub gateway : LlmGateway
gateway = record {
  profiles = default_profiles;
  pricing =
      (codes "MiniMax-M2.7", record { input_usd_per_million = 3; output_usd_per_million = 5 }) ∷ [];
  providers = (codes "minimax", answering) ∷ [];
  usd_krw_rate = 1400;
  daily_cost_limit_krw = pos 0;
}

abbrev request : CompletionRequest
request = record { employee_id = 0; task_id = none; messages = [] }

abbrev response : CompletionResponse
response = record {
  content = codes "ok";
  profile = codes "structured";
  provider = codes "minimax";
  model = codes "MiniMax-M2.7";
  usage = record { input_tokens = 10; output_tokens = 2 };
  cost_krw = 56000;
}

answered : (complete even_months runtime gateway request hired).0 ≡ ok response
unfolding complete reject_if_over_daily_limit call_with_fallback record_cost record_entry
    calculate_cost_krw get text_eq default_profiles hire lookup insert values run role_llm_profile
answered = refl

complete_lem_example :
    IsCompleted even_months runtime gateway request hired
      (complete even_months runtime gateway request hired)
complete_lem_example = complete_lem even_months runtime gateway request hired

-- An office without that employee.
complete_refused :
    (complete even_months runtime gateway (record request { employee_id = 7 }) hired).0
    ≡ err employee_not_found
unfolding complete hire lookup insert values
complete_refused = refl

-- The provider has no answer for the profile "writer", which falls back to "cheap".
abbrev picky : LlmProvider
picky = record {
  is_configured = true;
  complete = λ profile messages.
      if text_eq profile.name (codes "writer")
      then none
      else some (record {
        content = codes "ok";
        usage = record { input_tokens = 10; output_tokens = 2 };
      });
}

abbrev picky_gateway : LlmGateway
picky_gateway = record gateway { providers = (codes "minimax", picky) ∷ [] }

abbrev writing : World
writing = (hire runtime (codes "Juno") writer opening).1

falls_back :
    (complete even_months runtime picky_gateway request writing).0
    ≡ ok (record response { profile = codes "cheap" })
unfolding complete reject_if_over_daily_limit call_with_fallback record_cost record_entry
    calculate_cost_krw get text_eq default_profiles hire lookup insert values run role_llm_profile
    warn_fallback
falls_back = refl
