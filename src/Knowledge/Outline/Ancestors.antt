-- ===== src/Knowledge/Outline/Ancestors.antt =====
-- The path of a section is the chain of headings that enclose it.
use mini_company.Prelude.{
  ℕ, ◌≤◌, ◌≡◌, refl, ap, inl, inr, List, [], ◌∷◌, ◌++◌, map, reverse, leb, ltb, if◌then◌else◌,
  Bool-cases, arith,
}
use mini_company.Prelude.Text.{Text, strip}
use mini_company.Knowledge.Chunking.Base.{Section, is_empty}
use mini_company.Knowledge.Outline.{RawHeading, pop_trail, outline_from, build_outline}

abbrev label_of : RawHeading → ℕ × Text
label_of item = (item.level, strip item.heading)

-- The headings that enclose one of a level, among those before it, nearest first: the nearest of a
-- smaller level, and the headings that enclose that one.
unfoldable pub enclosing : ℕ → List RawHeading → List (ℕ × Text)
enclosing level [] = []
enclosing level (item ∷ before) =
    let further = enclosing level before in
    let found = enclosing item.level before in
    if ltb item.level level then (item.level, strip item.heading) ∷ found else further

-- The sections of a row of headings, after others that stand nearest first.
unfoldable pub sections_after : List RawHeading → List RawHeading → List Section
unfolding enclosing
sections_after [] before = []
sections_after (item ∷ headings) before =
    record {
      level = item.level;
      heading = strip item.heading;
      text = strip item.text;
      path = reverse (map (λ (t : ℕ × Text). t.1) (enclosing item.level before));
    }
    ∷ sections_after headings (item ∷ before)

-- The stack after a row of headings.
unfoldable trail_of : List RawHeading → List (ℕ × Text)
trail_of [] = []
trail_of (item ∷ before) = label_of item ∷ pop_trail item.level (trail_of before)

pop-pop :
    (level k : ℕ) (trail : List (ℕ × Text))
    → level ≤ k
    → pop_trail level (pop_trail k trail) ≡ pop_trail level trail
unfolding pop_trail
pop-pop level k [] h = refl
pop-pop level k ((l, x) ∷ trail) h = ground (arith, pop-pop level k trail h)

pop-enclosing :
    (level : ℕ) (before : List RawHeading)
    → pop_trail level (trail_of before) ≡ enclosing level before
unfolding pop_trail trail_of enclosing
pop-enclosing level [] = refl
pop-enclosing level (item ∷ before) = elim (Bool-cases (leb level item.level)) [
  | inl wide ↦
      ground (arith, pop-pop level item.level (trail_of before), pop-enclosing level before)
  | inr near ↦ ground (arith, pop-enclosing item.level before)
]

outline-sections :
    (headings before : List RawHeading)
    → outline_from headings (trail_of before) ≡ sections_after headings before
unfolding outline_from sections_after trail_of
outline-sections [] before = refl
outline-sections (item ∷ headings) before =
    cc (pop-enclosing item.level before, outline-sections headings (item ∷ before))

-- Whatever the headings and their levels, `build_outline` gives one section for each, in order,
-- behind one of level 0 for a preamble that is not blank, and the path of a section is the chain of
-- the headings that enclose it, outermost first: the nearest one before it of a smaller level, the
-- nearest one before that of a still smaller level, and so on.
pub build_outline_lem :
    (headings : List RawHeading) (preamble : Text)
    → build_outline headings preamble
      ≡ (if is_empty (strip preamble)
          then []
          else record { level = 0; heading = []; text = strip preamble; path = [] } ∷ [])
        ++ sections_after headings []
unfolding build_outline trail_of
build_outline_lem headings preamble =
    ap
      (λ sections.
        (if is_empty (strip preamble)
          then []
          else record { level = 0; heading = []; text = strip preamble; path = [] } ∷ [])
        ++ sections)
      (outline-sections headings [])
