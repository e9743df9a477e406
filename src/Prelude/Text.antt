-- ===== src/Prelude/Text.antt =====
-- Python's `str` as the list of its code points, with `strip` and `==`.
use Prim.Native.Nat.{ℕ}
use Prim.Native.Char.{code}
use Prim.Native.String.{String}
use mathlib.Core.Path.{◌≡◌, refl, sym, ◌∙◌}
use mathlib.Core.Logic.{◌↔◌, ◌≢◌, inl, inr}
use mathlib.Core.Bool.{Bool, true, false, ◌&&◌, ◌||◌}
use mathlib.Core.Option.{Option, none, some}
use mathlib.Core.List.{List, [], ◌∷◌, reverse}
use native.Mathlib.Omega.{arith}
use mini_company.Prelude.Tests.{Bool-cases, ◌==◌, leb, ltb, if◌then◌else◌}

abbrev pub Text : Type 0
Text = List ℕ

abbrev pub codes : String → Text
codes String.[] = []
codes (String.◌∷◌ c s) = code c ∷ codes s

-- `str.isspace` on one character.
unfoldable pub is_space : ℕ → Bool
is_space c =
    (leb 9 c && leb c 13)
    || (leb 28 c && leb c 32)
    || c == 133
    || c == 160
    || c == 5760
    || (leb 8192 c && leb c 8202)
    || c == 8232
    || c == 8233
    || c == 8239
    || c == 8287
    || c == 12288

unfoldable pub lstrip : Text → Text
unfolding is_space
lstrip [] = []
lstrip (c ∷ t) = if is_space c then lstrip t else c ∷ t

-- `str.strip()`
unfoldable pub strip : Text → Text
unfolding lstrip
strip t = reverse (lstrip (reverse (lstrip t)))

unfoldable pub text_eq : Text → Text → Bool
text_eq [] [] = true
text_eq [] (d ∷ u) = false
text_eq (c ∷ t) [] = false
text_eq (c ∷ t) (d ∷ u) = if c == d then text_eq t u else false

-- `s <= t`, by code points.
unfoldable pub text_leb : Text → Text → Bool
text_leb [] u = true
text_leb (c ∷ t) [] = false
text_leb (c ∷ t) (d ∷ u) = if c == d then text_leb t u else ltb c d

pub text_eq→eq : (t u : Text) → text_eq t u ≡ true → t ≡ u
unfolding text_eq
text_eq→eq [] [] h = refl
text_eq→eq [] (d ∷ u) h = cc
text_eq→eq (c ∷ t) [] h = cc
text_eq→eq (c ∷ t) (d ∷ u) h = ground (arith, text_eq→eq t u)

pub text_eq_refl : (t : Text) → text_eq t t ≡ true
unfolding text_eq
text_eq_refl [] = refl
text_eq_refl (c ∷ t) = ground (arith, text_eq_refl t)

pub text_eq_iff : (t u : Text) → (text_eq t u ≡ true) ↔ (t ≡ u)
text_eq_iff t u = (text_eq→eq t u, λ e. rw e (text_eq_refl u))

-- `(title or "").strip() or None`
unfoldable pub clean_title : Option Text → Option Text
unfolding strip
clean_title none = none
clean_title (some t) = elim (strip t) [ [] ↦ none | c ∷ u ↦ some (c ∷ u) ]

-- `d.get(name)` on a dict with texts for keys, in insertion order.
unfoldable pub get {ℓ} : {V : Type ℓ} → Text → List (Text × V) → Option V
unfolding text_eq
get name [] = none
get name ((key, v) ∷ d) = let rest = get name d in if text_eq key name then some v else rest

-- `d.setdefault(name, v)`: a new key stands last.
unfoldable pub setdefault {ℓ} : {V : Type ℓ} → Text → V → List (Text × V) → List (Text × V)
unfolding text_eq
setdefault name v [] = (name, v) ∷ []
setdefault name v ((key, u) ∷ d) =
    let rest = setdefault name v d in if text_eq key name then (key, u) ∷ d else (key, u) ∷ rest

-- `d[name] = v`: a key that is there keeps its place.
unfoldable pub assign {ℓ} : {V : Type ℓ} → Text → V → List (Text × V) → List (Text × V)
unfolding text_eq
assign name v [] = (name, v) ∷ []
assign name v ((key, u) ∷ d) =
    let rest = assign name v d in if text_eq key name then (key, v) ∷ d else (key, u) ∷ rest

-- `d.pop(name, None)`
unfoldable pub discard {ℓ} : {V : Type ℓ} → Text → List (Text × V) → List (Text × V)
unfolding text_eq
discard name [] = []
discard name ((key, v) ∷ d) =
    let rest = discard name d in if text_eq key name then rest else (key, v) ∷ rest

pub text_eq-false : (t u : Text) → t ≢ u → text_eq t u ≡ false
text_eq-false t u h = elim (Bool-cases (text_eq t u)) [
  | inl same ↦ absurd (h (text_eq→eq t u same))
  | inr other ↦ other
]

module _ {V : Type 0} where
  pub get-assign : (name : Text) (v : V) (d : List (Text × V)) → get name (assign name v d) ≡ some v
  unfolding get assign
  get-assign name v [] = rw text_eq_refl
  get-assign name v ((key, u) ∷ d) = elim (Bool-cases (text_eq key name)) [
    | inl same ↦ rw (same, same)
    | inr other ↦ rw (other, other, get-assign name v d)
  ]

  pub get-assign_other :
      (name other : Text) (v : V) (d : List (Text × V))
      → name ≢ other
      → get other (assign name v d) ≡ get other d
  unfolding get assign
  get-assign_other name other v [] h = rw (text_eq-false name other h)
  get-assign_other name other v ((key, u) ∷ d) h = elim (Bool-cases (text_eq key name)) [
    | inl same ↦
        let differs = text_eq-false key other (λ e. h (sym (text_eq→eq key name same) ∙ e)) in
        rw (same, differs)
    | inr differs ↦ rw (differs, get-assign_other name other v d h)
  ]

  pub get-discard : (name : Text) (d : List (Text × V)) → get name (discard name d) ≡ none
  unfolding get discard
  get-discard name [] = refl
  get-discard name ((key, u) ∷ d) = elim (Bool-cases (text_eq key name)) [
    | inl same ↦ rw same (get-discard name d)
    | inr differs ↦ rw (differs, differs, get-discard name d)
  ]

  pub get-discard_other :
      (name other : Text) (d : List (Text × V))
      → name ≢ other
      → get other (discard name d) ≡ get other d
  unfolding get discard
  get-discard_other name other [] h = refl
  get-discard_other name other ((key, u) ∷ d) h = elim (Bool-cases (text_eq key name)) [
    | inl same ↦
        let differs = text_eq-false key other (λ e. h (sym (text_eq→eq key name same) ∙ e)) in
        rw (same, differs) (get-discard_other name other d h)
    | inr differs ↦ rw (differs, get-discard_other name other d h)
  ]
