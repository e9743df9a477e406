-- ===== src/Llm/Gateway.antt =====
-- backend/src/llm/gateway.py. A provider talks to a remote service, and is a parameter: whether it
-- has a key, and what it answers, or nothing where it raises LlmCallFailed.
use mini_company.Prelude.{ℕ, Bool, Option, none, List, [], ◌∷◌, if◌then◌else◌}
use mini_company.Prelude.Text.{Text, codes, text_eq, setdefault}
use mini_company.Prelude.Int.{ℤ}
use mini_company.Llm.Profiles.{LlmProfile, Profiles, ModelPrice, TokenUsage}

-- `class Message`
pub record Message : Type 0 where
  pub role : Text
  pub content : Text

-- `class LlmResult`
pub record LlmResult : Type 0 where
  pub content : Text
  pub usage : TokenUsage

-- `class LlmProvider`
pub record LlmProvider : Type 0 where
  pub is_configured : Bool
  pub complete : LlmProfile → List Message → Option LlmResult

-- `class LlmGateway`
pub record LlmGateway : Type 0 where
  pub profiles : Profiles
  pub pricing : List (Text × ModelPrice)
  pub providers : List (Text × LlmProvider)
  pub usd_krw_rate : ℕ
  pub daily_cost_limit_krw : ℤ

-- `_with_local_model`
unfoldable pub with_local_model :
    Profiles → List (Text × ModelPrice) → Text → Profiles × List (Text × ModelPrice)
unfolding setdefault
with_local_model profiles pricing model = (
  setdefault (codes "local")
      (record {
        name = codes "local";
        provider = codes "ollama";
        model = model;
        temperature = 30;
        max_tokens = 2000;
        fallback = none;
      })
      profiles,
  setdefault model (record { input_usd_per_million = 0; output_usd_per_million = 0 }) pricing,
)

-- One profile of `_redirect_to_local`
unfoldable pub redirect : Text → LlmProfile → LlmProfile
redirect model profile = if text_eq profile.provider (codes "ollama") then profile else record {
  name = profile.name;
  provider = codes "ollama";
  model = model;
  temperature = profile.temperature;
  max_tokens = profile.max_tokens;
  fallback = none;
}

-- `_redirect_to_local`
unfoldable pub redirect_to_local : Profiles → Text → Profiles
unfolding redirect
redirect_to_local [] model = []
redirect_to_local ((name, profile) ∷ profiles) model =
    (name, redirect model profile) ∷ redirect_to_local profiles model
