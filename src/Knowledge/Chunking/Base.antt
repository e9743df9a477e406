-- ===== src/Knowledge/Chunking/Base.antt =====
-- backend/src/knowledge/chunking/base.py. Splitting by a regular expression is done by Python's
-- `re`, and is a parameter: what is stated holds for every way to split.
use mini_company.Prelude.{
  ℕ, zero, suc, ◌-◌, ◌*◌, ◌/◌, Bool, true, false, Option, none, some, List, [], ◌∷◌, ◌++◌, ◌&&◌,
  length, take, drop, leb, ltb, if◌then◌else◌,
}
use mini_company.Prelude.Text.{Text, strip}

-- `class Section`
pub record Section : Type 0 where
  pub level : ℕ
  pub heading : Text
  pub text : Text
  pub path : List Text

-- `class ChunkingOptions`
pub record ChunkingOptions : Type 0 where
  pub target_chars : ℕ
  pub overlap_chars : ℕ

-- `class ChunkingInput`
pub record ChunkingInput : Type 0 where
  pub text : Text
  pub outline : List Section

-- `int(tokens * CHARS_PER_TOKEN)`
abbrev pub chars_of_tokens : ℕ → ℕ
chars_of_tokens tokens = tokens * 16 / 10

-- `ChunkingOptions.from_tokens`; `none` is its ValueError.
unfoldable pub from_tokens : ℕ → ℕ → Option ChunkingOptions
from_tokens target_tokens overlap_tokens =
    if leb target_tokens 0
    then none
    else if leb target_tokens overlap_tokens
    then none
    else some (record {
      target_chars = chars_of_tokens target_tokens;
      overlap_chars = chars_of_tokens overlap_tokens;
    })

-- `text == ""`
abbrev pub is_empty : Text → Bool
is_empty [] = true
is_empty (c ∷ t) = false

-- `[text[i : i + target] for i in range(0, len(text), target)]`; a piece takes a character at
-- least, so the length of the text is enough fuel.
unfoldable pub slices : ℕ → ℕ → Text → List Text
slices zero target text = []
slices (suc fuel) target [] = []
slices (suc fuel) target (c ∷ text) =
    take target (c ∷ text) ∷ slices fuel target (drop target (c ∷ text))

-- `PARAGRAPH_PATTERN.split` and `SENTENCE_PATTERN.split`
pub record Splitter : Type 0 where
  pub paragraphs : Text → List Text
  pub sentences : Text → List Text

-- The loop of `_split_paragraph` over the sentences.
unfoldable pub split_sentences : ℕ → List Text → List Text → Text → List Text
unfolding slices
split_sentences target [] blocks buffer = if is_empty buffer then blocks else blocks ++ buffer ∷ []
split_sentences target (item ∷ items) blocks buffer =
    let sentence = strip item in
    let candidate = strip (buffer ++ 32 ∷ sentence) in
    let skipped = split_sentences target items blocks buffer in
    let cut =
      split_sentences target items
        ((if is_empty buffer then blocks else blocks ++ buffer ∷ [])
          ++ slices (length sentence) target sentence)
        [] in
    let joined = split_sentences target items blocks candidate in
    let closed = split_sentences target items (blocks ++ buffer ∷ []) sentence in
    if is_empty sentence
    then skipped
    else if ltb target (length sentence)
    then cut
    else if leb (length candidate) target
    then joined
    else closed

-- `_split_paragraph`
unfoldable pub split_paragraph : Splitter → Text → ℕ → List Text
unfolding split_sentences
split_paragraph splitter paragraph target =
    split_sentences target (splitter.sentences paragraph) [] []

-- The loop of `split_oversized` over the paragraphs.
unfoldable pub split_paragraphs : Splitter → ℕ → List Text → List Text
unfolding split_paragraph
split_paragraphs splitter target [] = []
split_paragraphs splitter target (item ∷ items) =
    let paragraph = strip item in
    let rest = split_paragraphs splitter target items in
    if is_empty paragraph
    then rest
    else if leb (length paragraph) target
    then paragraph ∷ rest
    else split_paragraph splitter paragraph target ++ rest

-- `split_oversized`
unfoldable pub split_oversized : Splitter → Text → ℕ → List Text
unfolding split_paragraphs
split_oversized splitter text target = split_paragraphs splitter target (splitter.paragraphs text)

-- `f"{chunk}\n\n{block}"`
abbrev pub join_blocks : Text → Text → Text
join_blocks chunk block = chunk ++ 10 ∷ 10 ∷ block

-- `chunk[-overlap:]` for an overlap above zero
abbrev pub tail_of : ℕ → Text → Text
tail_of overlap chunk = drop (length chunk - overlap) chunk

-- The chunk that a block starts when it does not fit behind the last one.
unfoldable pub next_chunk : ChunkingOptions → Text → Text → Text
next_chunk options last block =
    if ltb 0 options.overlap_chars
      && ltb (length (tail_of options.overlap_chars last)) (length last)
    then join_blocks (tail_of options.overlap_chars last) block
    else block

-- The loop of `merge_with_overlap`, once there is a last chunk.
unfoldable pub merge_onto : ChunkingOptions → Text → List Text → List Text
unfolding next_chunk
merge_onto options last [] = last ∷ []
merge_onto options last (block ∷ blocks) =
    let joined = merge_onto options (join_blocks last block) blocks in
    let apart = last ∷ merge_onto options (next_chunk options last block) blocks in
    if leb (length (join_blocks last block)) options.target_chars then joined else apart

-- `merge_with_overlap`
unfoldable pub merge_with_overlap : List Text → ChunkingOptions → List Text
unfolding merge_onto
merge_with_overlap [] options = []
merge_with_overlap (block ∷ blocks) options = merge_onto options block blocks
