-- ===== src/Knowledge/Chunking/Merging.antt =====
-- The chunks that `merge_with_overlap` makes.
use mini_company.Prelude.{
  ℕ, ◌+◌, ◌-◌, ◌≤◌, ◌≡◌, refl, ap, sym, subst, ◌∙◌, true, false, List, [], ◌∷◌, ◌++◌, All,
  append_assoc, append-nil, length, length-append, length-drop, ltb, leb, ◌&&◌, Bool-cases, inl,
  inr, arith,
}
use mini_company.Prelude.Text.{Text}
use mini_company.Knowledge.Chunking.Base.{
  ChunkingOptions, join_blocks, tail_of, next_chunk, merge_onto, merge_with_overlap,
}

-- A block stands in a chunk, or in a row of chunks.
pub record StandsIn (block chunk : Text) : Type 0 where
  pub before : Text
  pub behind : Text
  pub whole : chunk ≡ before ++ block ++ behind

pub data StandsInOne (block : Text) : List Text → Type 0 where
  here :
      {chunk : Text} {chunks : List Text}
      → StandsIn block chunk
      → StandsInOne block (chunk ∷ chunks)
  there :
      {chunk : Text} {chunks : List Text}
      → StandsInOne block chunks
      → StandsInOne block (chunk ∷ chunks)

StandsIn-join : (b chunk block : Text) → StandsIn b chunk → StandsIn b (join_blocks chunk block)
StandsIn-join b chunk block s = record {
  before = s.before;
  behind = s.behind ++ 10 ∷ 10 ∷ block;
  whole =
      ap (λ t. t ++ 10 ∷ 10 ∷ block) s.whole
      ∙ append_assoc (s.before ++ b) s.behind (10 ∷ 10 ∷ block);
}

StandsIn-last : (chunk block : Text) → StandsIn block (join_blocks chunk block)
StandsIn-last chunk block = record {
  before = chunk ++ 10 ∷ 10 ∷ [];
  behind = [];
  whole = simp (append-nil, append_assoc);
}

StandsIn-self : (block : Text) → StandsIn block block
StandsIn-self block = record { before = []; behind = []; whole = sym (append-nil block) }

module _ (options : ChunkingOptions) where
  StandsIn-next : (last block : Text) → StandsIn block (next_chunk options last block)
  unfolding next_chunk
  StandsIn-next last block =
      elim (Bool-cases (
        ltb 0 options.overlap_chars
        && ltb (length (tail_of options.overlap_chars last)) (length last))) [
          | inl overlaps ↦ rw overlaps (StandsIn-last (tail_of options.overlap_chars last) block)
          | inr apart ↦ rw apart (StandsIn-self block)
        ]

  -- What stands in the last chunk still stands in it when more is joined to it.
  merge_onto-last :
      (b last : Text) (blocks : List Text)
      → StandsIn b last
      → StandsInOne b (merge_onto options last blocks)
  unfolding merge_onto
  merge_onto-last b last [] s = StandsInOne.here s
  merge_onto-last b last (block ∷ blocks) s =
      elim (Bool-cases (leb (length (join_blocks last block)) options.target_chars)) [
        | inl joined ↦
            rw joined
              (merge_onto-last b (join_blocks last block) blocks (StandsIn-join b last block s))
        | inr apart ↦ rw apart (StandsInOne.here s)
      ]

  All-there :
      (chunk : Text) (chunks blocks : List Text)
      → All (λ b. StandsInOne b chunks) blocks
      → All (λ b. StandsInOne b (chunk ∷ chunks)) blocks
  All-there chunk chunks [] h = tt
  All-there chunk chunks (b ∷ blocks) (s, h) =
      (StandsInOne.there s, All-there chunk chunks blocks h)

  joins :
      (last block : Text) (blocks : List Text)
      → leb (length (join_blocks last block)) options.target_chars ≡ true
      → merge_onto options last (block ∷ blocks)
        ≡ merge_onto options (join_blocks last block) blocks
  unfolding merge_onto
  joins last block blocks fits = rw fits refl

  parts :
      (last block : Text) (blocks : List Text)
      → leb (length (join_blocks last block)) options.target_chars ≡ false
      → merge_onto options last (block ∷ blocks)
        ≡ last ∷ merge_onto options (next_chunk options last block) blocks
  unfolding merge_onto
  parts last block blocks long = rw long refl

  StandTogether : List Text → List Text → Type 0
  StandTogether blocks chunks = All (λ b. StandsInOne b chunks) blocks

  merge_onto-blocks :
      (last : Text) (blocks : List Text) → StandTogether blocks (merge_onto options last blocks)
  unfolding StandTogether
  merge_onto-blocks last [] = tt
  merge_onto-blocks last (block ∷ blocks) =
      elim (Bool-cases (leb (length (join_blocks last block)) options.target_chars)) [
        | inl joined ↦
            subst (StandTogether (block ∷ blocks)) (sym (joins last block blocks joined)) (
              merge_onto-last block (join_blocks last block) blocks (StandsIn-last last block),
              merge_onto-blocks (join_blocks last block) blocks,
            )
        | inr apart ↦
            let chunk = next_chunk options last block in
            subst (StandTogether (block ∷ blocks)) (sym (parts last block blocks apart)) (
              StandsInOne.there (merge_onto-last block chunk blocks (StandsIn-next last block)),
              All-there last (merge_onto options chunk blocks) blocks
                  (merge_onto-blocks chunk blocks),
            )
      ]

  -- The most that a chunk can hold: a tail, the gap and a block.
  abbrev pub limit : ℕ
  limit = options.overlap_chars + 2 + options.target_chars

  next_chunk-le :
      (last block : Text)
      → length block ≤ options.target_chars
      → length (next_chunk options last block) ≤ limit
  unfolding next_chunk
  next_chunk-le last block fits = ground (
    arith,
    length-append (tail_of options.overlap_chars last) (10 ∷ 10 ∷ block),
    length-drop (length last - options.overlap_chars) last,
  )

  merge_onto-le :
      (last : Text) (blocks : List Text)
      → length last ≤ limit
      → All (λ b. length b ≤ options.target_chars) blocks
      → All (λ c. length c ≤ limit) (merge_onto options last blocks)
  unfolding merge_onto
  merge_onto-le last [] fits h = (fits, tt)
  merge_onto-le last (block ∷ blocks) fits (short, h) =
      elim (Bool-cases (leb (length (join_blocks last block)) options.target_chars)) [
        | inl joined ↦ rw joined (merge_onto-le (join_blocks last block) blocks (ground arith) h)
        | inr apart ↦ rw apart (
          fits,
          merge_onto-le (next_chunk options last block) blocks (next_chunk-le last block short) h,
        )
      ]

-- When no block is longer than the target, every block that is merged stands whole in one of the
-- chunks, and no chunk is longer than the overlap, two line breaks and the target together.
pub merge_with_overlap_lem :
    (blocks : List Text) (options : ChunkingOptions)
    → All (λ b. length b ≤ options.target_chars) blocks
    → All (λ b. StandsInOne b (merge_with_overlap blocks options)) blocks
      × All
          (λ c. length c ≤ options.overlap_chars + 2 + options.target_chars)
          (merge_with_overlap blocks options)
unfolding merge_with_overlap StandTogether
merge_with_overlap_lem [] options h = (tt, tt)
merge_with_overlap_lem (block ∷ blocks) options (short, h) = (
  (
    merge_onto-last options block block blocks (StandsIn-self block),
    merge_onto-blocks options block blocks,
  ),
  merge_onto-le options block blocks (omega arith) h,
)
