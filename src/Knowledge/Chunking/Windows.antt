-- ===== src/Knowledge/Chunking/Windows.antt =====
-- The chunks of the fixed size.
use mini_company.Prelude.{
  ℕ, zero, suc, ◌-◌, ◌≤◌, ◌<◌, ◌≡◌, refl, sym, ap, ◌∙◌, Bool, List, [], ◌∷◌, ◌++◌, All, length,
  take, drop, ltb, leb, if◌then◌else◌, ◌&&◌, Bool-cases, inl, inr, length-drop, length-take,
  length-take-le, drop-drop, drop-append, drop_all, take-append-drop, arith,
}
use mini_company.Prelude.Text.{Text, strip}
use mini_company.Knowledge.Chunking.Base.{ChunkingOptions, ChunkingInput}
use mini_company.Knowledge.Chunking.Strategies.{windows, chunk_fixed_size}

-- What the chunks after the first add, the overlap of each left out.
unfoldable pub new_text : ℕ → List Text → Text
new_text overlap [] = []
new_text overlap (chunk ∷ chunks) = drop overlap chunk ++ new_text overlap chunks

-- The text that chunks were cut from: the first one, and what each later one adds.
unfoldable pub rejoin : ℕ → List Text → Text
unfolding new_text
rejoin overlap [] = []
rejoin overlap (chunk ∷ chunks) = chunk ++ new_text overlap chunks

module _ (options : ChunkingOptions) (h : options.overlap_chars < options.target_chars) where
  abbrev step : ℕ
  step = options.target_chars - options.overlap_chars

  abbrev is_covered : Text → Bool
  is_covered rest = ltb 0 (length rest) && leb (length rest) options.overlap_chars

  abbrev later : ℕ → Text → List Text
  later fuel rest = if is_covered rest then [] else windows fuel options rest

  size : (text rest : Text) → drop step text ≡ rest → length rest ≡ length text - step
  size text rest e = rw (← e) (length-drop step text)

  -- A text whose rest lies in the overlap fits into the first window.
  fits :
      (text rest : Text)
      → drop step text ≡ rest
      → length rest ≤ options.overlap_chars
      → length text ≤ options.target_chars
  fits text rest e short = omega (arith, size text rest e)

  -- The chunks behind the first window add just what that window leaves.
  later_adds :
      (fuel : ℕ) (text rest : Text)
      → drop step text ≡ rest
      → 0 < length text
      → length text ≤ suc fuel
      → new_text options.overlap_chars (later fuel rest) ≡ drop options.target_chars text
  unfolding windows new_text
  later_adds zero text [] e some_ enough =
      sym (drop_all options.target_chars text (fits text [] e (omega arith)))
  later_adds (suc fuel) text [] e some_ enough =
      sym (drop_all options.target_chars text (fits text [] e (omega arith)))
  later_adds zero text (d ∷ rest) e some_ enough = absurd (omega (arith, size text (d ∷ rest) e))
  later_adds (suc fuel) text (d ∷ rest) e some_ enough = elim (Bool-cases (is_covered (d ∷ rest))) [
    | inl covered ↦
        rw covered
          (sym (drop_all options.target_chars text (fits text (d ∷ rest) e (ground arith))))
    | inr more ↦
        let long : options.overlap_chars < length (d ∷ rest) = ground arith in
        rw more (
          ap (λ t. drop options.overlap_chars (take options.target_chars (d ∷ rest)) ++ t)
            (later_adds fuel (d ∷ rest) (drop step (d ∷ rest)) refl (omega arith)
              (omega (arith, size text (d ∷ rest) e)))
          ∙ sym (
              drop-append options.overlap_chars (take options.target_chars (d ∷ rest))
                (drop options.target_chars (d ∷ rest))
                (omega (arith, length-take options.target_chars (d ∷ rest))))
          ∙ ap (drop options.overlap_chars) (take-append-drop options.target_chars (d ∷ rest))
          ∙ ap (drop options.overlap_chars) (sym e)
          ∙ drop-drop options.overlap_chars step text
          ∙ ap (λ n. drop n text) (omega arith))
  ]

  -- What the windows add to one another is the text that was cut, with nothing lost or doubled.
  rejoin-windows :
      (text : Text) → rejoin options.overlap_chars (windows (length text) options text) ≡ text
  unfolding windows rejoin
  rejoin-windows [] = refl
  rejoin-windows (c ∷ text) =
      ap (λ t. take options.target_chars (c ∷ text) ++ t)
        (later_adds (length text) (c ∷ text) (drop step (c ∷ text)) refl (omega arith)
          (omega arith))
      ∙ take-append-drop options.target_chars (c ∷ text)

  windows_size :
      (fuel : ℕ) (text : Text)
      → All (λ c. length c ≤ options.target_chars) (windows fuel options text)
  unfolding windows
  windows_size zero text = tt
  windows_size (suc fuel) [] = tt
  windows_size (suc fuel) (c ∷ text) = elim (Bool-cases (is_covered (drop step (c ∷ text)))) [
    | inl covered ↦ rw covered (length-take-le options.target_chars (c ∷ text), tt)
    | inr more ↦
        rw more
          (length-take-le options.target_chars (c ∷ text), windows_size fuel (drop step (c ∷ text)))
  ]

-- When the overlap is smaller than the target, the chunks of the fixed size are each at most the
-- target long, and the first chunk followed by what remains of each later one without its overlap
-- is the stripped text: no character is lost or doubled.
pub chunk_fixed_size_lem :
    (source : ChunkingInput) (options : ChunkingOptions)
    → options.overlap_chars < options.target_chars
    → (rejoin options.overlap_chars (chunk_fixed_size source options) ≡ strip source.text)
      × All (λ c. length c ≤ options.target_chars) (chunk_fixed_size source options)
unfolding chunk_fixed_size
chunk_fixed_size_lem source options h = (
  rejoin-windows options h (strip source.text),
  windows_size options h (length (strip source.text)) (strip source.text),
)
