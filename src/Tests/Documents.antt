-- ===== src/Tests/Documents.antt =====
-- Documents cut into chunks.
use mini_company.Prelude.{
  ◌+◌, ◌≤◌, ◌≡◌, refl, true, none, some, is_some, List, [], ◌∷◌, All, length, map, arith,
}
use mini_company.Prelude.Text.{Text, codes, strip, get, text_eq}
use mini_company.Knowledge.Chunking.Base.{
  Section, ChunkingOptions, ChunkingInput, Splitter, split_oversized, merge_with_overlap,
}
use mini_company.Knowledge.Outline.{RawHeading, build_outline}
use mini_company.Knowledge.Outline.Ancestors.{sections_after, build_outline_lem}
use mini_company.Knowledge.Chunking.Strategies.{chunk_fixed_size}
use mini_company.Knowledge.Chunking.Registry.{
  pdf, build_chunker_registry, missing_default_strategies, resolve_chunker, resolve_chunker-is_some,
}
use mini_company.Knowledge.Chunking.Windows.{rejoin, chunk_fixed_size_lem}
use mini_company.Knowledge.Chunking.Blocks.{IsBlock, split_oversized-IsBlock}
use mini_company.Knowledge.Chunking.Merging.{StandsInOne, merge_with_overlap_lem}

abbrev small : ChunkingOptions
small = record { target_chars = 4; overlap_chars = 1 }

abbrev letters : ChunkingInput
letters = record { text = codes " abcdefghij "; outline = [] }

-- A document is one paragraph of one sentence.
abbrev whole : Splitter
whole = record { paragraphs = λ t. t ∷ []; sentences = λ t. t ∷ [] }

chunk_fixed_size_lem_example :
    rejoin 1 (chunk_fixed_size letters small) ≡ strip (codes " abcdefghij ")
chunk_fixed_size_lem_example = (chunk_fixed_size_lem letters small (omega arith)).0

letters_cut : chunk_fixed_size letters small ≡ codes "abcd" ∷ codes "defg" ∷ codes "ghij" ∷ []
unfolding chunk_fixed_size strip
letters_cut = refl

split_oversized-IsBlock_example : All (IsBlock 4) (split_oversized whole (codes " abcdefghij ") 4)
split_oversized-IsBlock_example =
    split_oversized-IsBlock whole (codes " abcdefghij ") 4 (omega arith)

letters_split :
    split_oversized whole (codes " abcdefghij ") 4 ≡ codes "abcd" ∷ codes "efgh" ∷ codes "ij" ∷ []
unfolding split_oversized strip
letters_split = refl

abbrev two_blocks : List Text
two_blocks = codes "abcd" ∷ codes "efgh" ∷ []

merge_with_overlap_lem_example :
    All (λ b. StandsInOne b (merge_with_overlap two_blocks small)) two_blocks
    × All (λ c. length c ≤ 1 + 2 + 4) (merge_with_overlap two_blocks small)
merge_with_overlap_lem_example =
    merge_with_overlap_lem two_blocks small (omega arith, (omega arith, tt))

abbrev headings : List RawHeading
headings =
    record { level = 1; heading = codes "A"; text = [] }
    ∷ record { level = 3; heading = codes "B"; text = codes "b" }
    ∷ record { level = 2; heading = codes "C"; text = codes "c" }
    ∷ []

build_outline_lem_example : build_outline headings [] ≡ sections_after headings []
unfolding strip
build_outline_lem_example = build_outline_lem headings []

paths :
    map (λ (s : Section). s.path) (build_outline headings [])
    ≡ [] ∷ (codes "A" ∷ []) ∷ (codes "A" ∷ []) ∷ []
unfolding build_outline strip
paths = refl

registry_complete : missing_default_strategies (build_chunker_registry whole) ≡ []
unfolding missing_default_strategies build_chunker_registry get text_eq
registry_complete = refl

resolve_chunker-is_some_example :
    (is_some (resolve_chunker (build_chunker_registry whole) pdf none) ≡ true)
    × (is_some (resolve_chunker (build_chunker_registry whole) pdf (some [])) ≡ true)
resolve_chunker-is_some_example =
    resolve_chunker-is_some (build_chunker_registry whole) pdf registry_complete
