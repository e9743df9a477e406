-- ===== src/Llm/Profiles.antt =====
-- backend/src/llm/profiles.py and pricing.py. A temperature is counted in hundredths.
use mini_company.Prelude.{
  ℕ, ◌+◌, ◌*◌, Bool, true, false, not, Option, none, some, List, [], ◌∷◌, ◌++◌, is_some, any,
  if◌then◌else◌,
}
use mini_company.Prelude.Text.{Text, codes, text_eq, get}

-- `class LlmProfile`
pub record LlmProfile : Type 0 where
  pub name : Text
  pub provider : Text
  pub model : Text
  pub temperature : ℕ
  pub max_tokens : ℕ
  pub fallback : Option Text

abbrev pub Profiles : Type 0
Profiles = List (Text × LlmProfile)

abbrev pub profile_of : Text → Text → ℕ → ℕ → Option Text → LlmProfile
profile_of name model temperature max_tokens fallback = record {
  name = name;
  provider = codes "minimax";
  model = model;
  temperature = temperature;
  max_tokens = max_tokens;
  fallback = fallback;
}

-- `DEFAULT_PROFILES`
unfoldable pub default_profiles : Profiles
default_profiles =
    (codes "cheap", profile_of (codes "cheap") (codes "MiniMax-M2.7") 20 1500 none)
    ∷ (codes "structured", profile_of (codes "structured") (codes "MiniMax-M2.7") 0 2000 none)
    ∷ (
      codes "writer",
      profile_of (codes "writer") (codes "MiniMax-M3") 80 4000 (some (codes "cheap")),
    )
    ∷ (
      codes "reasoner",
      profile_of (codes "reasoner") (codes "MiniMax-M3") 30 8000 (some (codes "cheap")),
    )
    ∷ []

-- Why a catalogue is refused, `InvalidProfileCatalog` with the profile that is at fault.
pub data Refusal : Type 0 where
  empty_catalog : Refusal
  unknown_provider missing_fallback own_fallback second_hop missing_key missing_price :
      Text → Refusal

-- The warnings, or a refusal.
pub data Verdict : Type 0 where
  accepted : List Text → Verdict
  refused : Refusal → Verdict

abbrev pub has : Text → List Text → Bool
has name names = any (λ n. text_eq n name) names

-- `not profiles`
abbrev pub is_empty : Profiles → Bool
is_empty [] = true
is_empty (p ∷ ps) = false

-- `_validate_fallback`
unfoldable pub validate_fallback : LlmProfile → Profiles → Option Refusal
validate_fallback profile profiles = elim profile.fallback [
  | none ↦ none
  | some name ↦ elim (get name profiles) [
    | none ↦ some (missing_fallback profile.name)
    | some target ↦
        if text_eq name profile.name
        then some (own_fallback profile.name)
        else if is_some target.fallback
        then some (second_hop profile.name)
        else none
  ]
]

-- The text of the warning on a profile without a key.
abbrev pub no_key : LlmProfile → Text
no_key profile =
    codes "프로파일 '"
    ++ profile.name
    ++ codes "'의 프로바이더 '"
    ++ profile.provider
    ++ codes "' 키가 없습니다 — 이 프로파일은 호출할 수 없습니다"

module _ (profiles : Profiles) (known configured priced : List Text) (strict_keys : Bool) where
  -- The loop of `validate_catalog` over the profiles.
  unfoldable pub validate_each : Profiles → List Text → Verdict
  unfolding validate_fallback
  validate_each [] warnings = accepted warnings
  validate_each ((key, profile) ∷ rest) warnings =
      let warned = validate_each rest (warnings ++ no_key profile ∷ []) in
      let passed = validate_each rest warnings in
      if not (has profile.provider known)
      then refused (unknown_provider profile.name)
      else (elim (validate_fallback profile profiles) [
        | some refusal ↦ refused refusal
        | none ↦
            if not (has profile.provider configured)
            then if strict_keys then refused (missing_key profile.name) else warned
            else if not (has profile.model priced)
            then refused (missing_price profile.name)
            else passed
      ])

  -- `validate_catalog`
  unfoldable pub validate_catalog : Verdict
  unfolding validate_each
  validate_catalog = if is_empty profiles then refused empty_catalog else validate_each profiles []

-- `class ModelPrice`: prices in a unit of dollars for a million tokens, which are not negative.
pub record ModelPrice : Type 0 where
  pub input_usd_per_million : ℕ
  pub output_usd_per_million : ℕ

-- `class TokenUsage`
pub record TokenUsage : Type 0 where
  pub input_tokens : ℕ
  pub output_tokens : ℕ

-- `calculate_cost_krw`. The cost is counted in the unit in which it is whole: a millionth of the
-- product of the units of the prices and of the rate.
unfoldable pub calculate_cost_krw : ModelPrice → TokenUsage → ℕ → ℕ
calculate_cost_krw price usage usd_krw_rate =
    (usage.input_tokens * price.input_usd_per_million
      + usage.output_tokens * price.output_usd_per_million)
    * usd_krw_rate
