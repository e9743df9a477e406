-- ===== src/Llm/Catalog.antt =====
-- What an accepted catalogue promises.
use mini_company.Prelude.{
  ◌≡◌, inl, inr, Bool, true, false, none, some, List, [], ◌∷◌, ◌++◌, All, Bool-cases, Option-cases,
  arith,
}
use mini_company.Prelude.Text.{Text, text_eq, get}
use mini_company.Llm.Profiles.{
  LlmProfile, Profiles, accepted, has, is_empty, no_key, validate_fallback, validate_each,
  validate_catalog,
}

-- A profile falls back to nothing, or to another profile of the catalogue that falls back to nothing.
abbrev pub FallsBackOnce : Profiles → LlmProfile → Type 0
FallsBackOnce profiles profile = elim profile.fallback [
  | none ↦ Unit
  | some name ↦
      (text_eq name profile.name ≡ false)
      × ((target : LlmProfile) × (get name profiles ≡ some target) × (target.fallback ≡ none))
]

module _ (profiles : Profiles) (known configured priced : List Text) (strict_keys : Bool) where
  -- The provider is registered; it has a key where keys are strict; where it has one, the model has a price.
  pub record IsCallable (entry : Text × LlmProfile) : Type 0 where
    pub registered : has entry.1.provider known ≡ true
    pub falls_back : FallsBackOnce profiles entry.1
    pub keyed : strict_keys ≡ true → has entry.1.provider configured ≡ true
    pub billed : has entry.1.provider configured ≡ true → has entry.1.model priced ≡ true

  fallback_lem :
      (profile : LlmProfile)
      → validate_fallback profile profiles ≡ none
      → FallsBackOnce profiles profile
  unfolding validate_fallback
  fallback_lem profile h = elim (Option-cases profile.fallback) [
    | inl alone ↦ rw alone tt
    | inr (name, named) ↦ elim (Option-cases (get name profiles)) [
      | inl missing ↦ absurd (ground arith)
      | inr (target, found) ↦ rw named (ground arith, (target, found, ground arith))
    ]
  ]

  validate_each_lem :
      (rest : Profiles) (warnings result : List Text)
      → validate_each profiles known configured priced strict_keys rest warnings ≡ accepted result
      → All IsCallable rest
  unfolding validate_each
  validate_each_lem [] warnings result h = tt
  validate_each_lem ((key, profile) ∷ rest) warnings result h =
      elim (Option-cases (validate_fallback profile profiles)) [
        | inr (r, bad) ↦ absurd (ground arith)
        | inl once ↦ elim (Bool-cases (has profile.provider configured)) [
          | inl keyed ↦ (
            record {
              registered = ground arith;
              falls_back = fallback_lem profile once;
              keyed = λ q. keyed;
              billed = λ q. ground arith;
            },
            validate_each_lem rest warnings result (ground arith),
          )
          | inr unkeyed ↦ (
            record {
              registered = ground arith;
              falls_back = fallback_lem profile once;
              keyed = λ q. absurd (ground arith);
              billed = λ q. absurd (ground arith);
            },
            validate_each_lem rest (warnings ++ no_key profile ∷ []) result (ground arith),
          )
        ]
      ]

  -- When `validate_catalog` accepts a catalogue, with whatever warnings, the provider of every
  -- profile is registered, and has a key when keys are strict; a profile whose provider has a key has
  -- a price for its model; and a fallback is another profile of the catalogue without one.
  pub validate_catalog-IsCallable :
      (result : List Text)
      → validate_catalog profiles known configured priced strict_keys ≡ accepted result
      → All IsCallable profiles
  unfolding validate_catalog
  validate_catalog-IsCallable result h = elim (Bool-cases (is_empty profiles)) [
    | inl empty ↦ absurd (ground arith)
    | inr some_ ↦ validate_each_lem profiles [] result (rw some_ at h)
  ]
