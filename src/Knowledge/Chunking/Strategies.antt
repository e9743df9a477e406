-- ===== src/Knowledge/Chunking/Strategies.antt =====
-- backend/src/knowledge/chunking/paragraph.py, fixed_size.py, heading.py and registry.py.
use mini_company.Prelude.{
  ℕ, zero, suc, ◌+◌, ◌-◌, ◌/◌, max, List, [], ◌∷◌, ◌++◌, map, not, ◌&&◌, keep, length, take, drop,
  leb, ltb, if◌then◌else◌,
}
use mini_company.Prelude.Text.{Text, strip, codes}
use mini_company.Knowledge.Chunking.Base.{
  Section, ChunkingOptions, ChunkingInput, Splitter, is_empty, split_oversized, merge_with_overlap,
}

-- `ParagraphChunker.chunk`
unfoldable pub chunk_paragraphs : Splitter → ChunkingInput → ChunkingOptions → List Text
unfolding split_oversized merge_with_overlap
chunk_paragraphs splitter source options =
    let cleaned = strip source.text in
    if is_empty cleaned
    then []
    else merge_with_overlap (split_oversized splitter cleaned options.target_chars) options

-- The loop of `FixedSizeChunker.chunk`, on the text from `start` on. Each round drops a character
-- at least, so the length of the text is enough fuel.
unfoldable pub windows : ℕ → ChunkingOptions → Text → List Text
windows zero options text = []
windows (suc fuel) options [] = []
windows (suc fuel) options (c ∷ text) =
    let rest = drop (options.target_chars - options.overlap_chars) (c ∷ text) in
    let more = windows fuel options rest in
    take options.target_chars (c ∷ text)
    ∷ (if ltb 0 (length rest) && leb (length rest) options.overlap_chars then [] else more)

-- `FixedSizeChunker.chunk`
unfoldable pub chunk_fixed_size : ChunkingInput → ChunkingOptions → List Text
unfolding windows
chunk_fixed_size source options = windows (length (strip source.text)) options (strip source.text)

-- `_PATH_SEPARATOR.join(labels)`
unfoldable pub join_labels : List Text → Text
join_labels [] = []
join_labels (label ∷ []) = label
join_labels (label ∷ other ∷ labels) = label ++ codes " > " ++ join_labels (other ∷ labels)

-- `_render_prefix`
unfoldable pub render_prefix : Section → Text
unfolding join_labels
render_prefix section =
    let labels =
      keep (λ item. not (is_empty (strip item))) (section.path ++ section.heading ∷ []) in
    elim labels [
      | [] ↦ []
      | label ∷ more ↦ codes "[" ++ join_labels (label ∷ more) ++ codes "]" ++ 10 ∷ []
    ]

-- `_minimum_body_budget`
unfoldable pub minimum_body_budget : ChunkingOptions → ℕ
minimum_body_budget options = max (options.overlap_chars + 1) (options.target_chars / 4)

-- The budget of a section's body: `max(target - len(prefix), minimum)`. A difference below zero
-- is below the minimum too.
unfoldable pub body_budget : ChunkingOptions → Text → ℕ
unfolding minimum_body_budget
body_budget options prefix =
    max (options.target_chars - length prefix) (minimum_body_budget options)

-- `_chunk_section`
unfoldable pub chunk_section : Splitter → Section → ChunkingOptions → List Text
unfolding split_oversized merge_with_overlap body_budget
chunk_section splitter section options =
    let prefix = render_prefix section in
    let budget = body_budget options prefix in
    if is_empty (strip section.text)
    then []
    else map (λ block. prefix ++ block)
        (merge_with_overlap (split_oversized splitter (strip section.text) budget)
          (record { target_chars = budget; overlap_chars = options.overlap_chars }))

-- The loop of `HeadingChunker.chunk` over the outline.
unfoldable pub chunk_sections : Splitter → List Section → ChunkingOptions → List Text
unfolding chunk_section
chunk_sections splitter [] options = []
chunk_sections splitter (section ∷ sections) options =
    chunk_section splitter section options ++ chunk_sections splitter sections options

-- `HeadingChunker.chunk`
unfoldable pub chunk_headings : Splitter → ChunkingInput → ChunkingOptions → List Text
unfolding chunk_paragraphs chunk_sections
chunk_headings splitter source options = elim source.outline [
  | [] ↦ chunk_paragraphs splitter source options
  | section ∷ sections ↦ chunk_sections splitter (section ∷ sections) options
]
