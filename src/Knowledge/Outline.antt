-- ===== src/Knowledge/Outline.antt =====
-- backend/src/knowledge/parsing/outline.py: from a row of headings to sections with their paths.
pub mod Ancestors
use mini_company.Prelude.{ℕ, List, [], ◌∷◌, ◌++◌, map, reverse, leb, if◌then◌else◌}
use mini_company.Prelude.Text.{Text, strip}
use mini_company.Knowledge.Chunking.Base.{Section, is_empty}

-- `class RawHeading`
pub record RawHeading : Type 0 where
  pub level : ℕ
  pub heading : Text
  pub text : Text

-- `while trail and trail[-1][0] >= level: trail.pop()`, on the stack with its top first
unfoldable pub pop_trail : ℕ → List (ℕ × Text) → List (ℕ × Text)
pop_trail level [] = []
pop_trail level ((l, label) ∷ trail) =
    let popped = pop_trail level trail in if leb level l then popped else (l, label) ∷ trail

-- The loop of `build_outline` over the headings.
unfoldable pub outline_from : List RawHeading → List (ℕ × Text) → List Section
unfolding pop_trail
outline_from [] trail = []
outline_from (item ∷ headings) trail =
    let kept = pop_trail item.level trail in
    record {
      level = item.level;
      heading = strip item.heading;
      text = strip item.text;
      path = reverse (map (λ (t : ℕ × Text). t.1) kept);
    }
    ∷ outline_from headings ((item.level, strip item.heading) ∷ kept)

-- `build_outline`
unfoldable pub build_outline : List RawHeading → Text → List Section
unfolding outline_from
build_outline headings preamble =
    (if is_empty (strip preamble)
      then []
      else record { level = 0; heading = []; text = strip preamble; path = [] } ∷ [])
    ++ outline_from headings []
