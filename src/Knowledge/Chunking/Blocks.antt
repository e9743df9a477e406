-- ===== src/Knowledge/Chunking/Blocks.antt =====
-- The blocks that `split_oversized` makes.
use mini_company.Prelude.{
  ℕ, zero, suc, ◌≤◌, ◌<◌, ◌≡◌, refl, ap, false, List, [], ◌∷◌, ◌++◌, All, All-append, length,
  length-append, drop, ltb, leb, if◌then◌else◌, reverse, Bool-cases, inl, inr, length-take, arith,
}
use mathlib.Core.List.{reverse-append}
use mini_company.Prelude.Text.{Text, strip, lstrip}
use mini_company.Knowledge.Chunking.Base.{
  Splitter, is_empty, slices, split_sentences, split_paragraph, split_paragraphs, split_oversized,
}

length-lstrip-le : (t : Text) → length (lstrip t) ≤ length t
unfolding lstrip
length-lstrip-le [] = omega arith
length-lstrip-le (c ∷ t) = ground (arith, length-lstrip-le t)

length-reverse : (t : Text) → length (reverse t) ≡ length t
length-reverse [] = refl
length-reverse (c ∷ t) =
    rw (reverse-append (c ∷ []) t)
      (omega (arith, length-append (reverse t) (c ∷ []), length-reverse t))

length-strip-le : (t : Text) → length (strip t) ≤ length t
unfolding strip
length-strip-le t = omega (
  arith,
  length-reverse (lstrip (reverse (lstrip t))),
  length-lstrip-le (reverse (lstrip t)),
  length-reverse (lstrip t),
  length-lstrip-le t,
)

-- A leading blank is stripped.
strip_blank : (t : Text) → strip (32 ∷ t) ≡ strip t
unfolding strip
strip_blank t = refl

-- A block has a character at least, and the target at most.
abbrev pub IsBlock : ℕ → Text → Type 0
IsBlock target block = (0 < length block) × (length block ≤ target)

slices-IsBlock :
    (fuel target : ℕ) (text : Text) → 0 < target → All (IsBlock target) (slices fuel target text)
unfolding slices
slices-IsBlock zero target text h = tt
slices-IsBlock (suc fuel) target [] h = tt
slices-IsBlock (suc fuel) target (c ∷ text) h = (
  (omega (arith, length-take target (c ∷ text)), omega (arith, length-take target (c ∷ text))),
  slices-IsBlock fuel target (drop target (c ∷ text)) h,
)

with_buffer-IsBlock :
    (target : ℕ) (blocks : List Text) (buffer : Text)
    → All (IsBlock target) blocks
    → length buffer ≤ target
    → All (IsBlock target) (if is_empty buffer then blocks else blocks ++ buffer ∷ [])
with_buffer-IsBlock target blocks [] h fits = h
with_buffer-IsBlock target blocks (c ∷ buffer) h fits =
    All-append (IsBlock target) blocks ((c ∷ buffer) ∷ []) h ((omega arith, fits), tt)

nonempty : (t : Text) → is_empty t ≡ false → 0 < length t
nonempty [] h = cc
nonempty (c ∷ t) h = omega arith

-- A buffer that a sentence no longer fits behind holds something.
closed_nonempty :
    (target : ℕ) (buffer sentence : Text)
    → length sentence ≤ target
    → target < length (strip (buffer ++ 32 ∷ sentence))
    → 0 < length buffer
closed_nonempty target [] sentence short long =
    absurd (omega (arith, length-strip-le sentence, ap length (strip_blank sentence)))
closed_nonempty target (c ∷ buffer) sentence short long = omega arith

split_sentences-IsBlock :
    (target : ℕ) (items blocks : List Text) (buffer : Text)
    → 0 < target
    → All (IsBlock target) blocks
    → length buffer ≤ target
    → All (IsBlock target) (split_sentences target items blocks buffer)
unfolding split_sentences
split_sentences-IsBlock target [] blocks buffer t h fits =
    with_buffer-IsBlock target blocks buffer h fits
split_sentences-IsBlock target (item ∷ items) blocks buffer t h fits =
    elim (Bool-cases (is_empty (strip item))) [
      | inl blank ↦ rw blank (split_sentences-IsBlock target items blocks buffer t h fits)
      | inr some_ ↦ rw some_ (elim (Bool-cases (ltb target (length (strip item)))) [
        | inl long ↦ rw long (
            split_sentences-IsBlock target items
              ((if is_empty buffer then blocks else blocks ++ buffer ∷ [])
                ++ slices (length (strip item)) target (strip item))
              [] t
              (All-append (IsBlock target) _ _ (with_buffer-IsBlock target blocks buffer h fits)
                (slices-IsBlock (length (strip item)) target (strip item) t))
              (omega arith))
        | inr short ↦
            rw short (elim (Bool-cases (leb (length (strip (buffer ++ 32 ∷ strip item))) target)) [
              | inl joined ↦ rw joined (
                  split_sentences-IsBlock target items blocks (strip (buffer ++ 32 ∷ strip item)) t
                    h (ground arith))
              | inr closed ↦ rw closed (
                  split_sentences-IsBlock target items (blocks ++ buffer ∷ []) (strip item) t
                    (All-append (IsBlock target) blocks (buffer ∷ []) h (
                      (
                        closed_nonempty target buffer (strip item) (ground arith) (ground arith),
                        fits,
                      ),
                      tt,
                    ))
                    (ground arith))
            ])
      ])
    ]

split_paragraphs-IsBlock :
    (splitter : Splitter) (target : ℕ) (items : List Text)
    → 0 < target
    → All (IsBlock target) (split_paragraphs splitter target items)
unfolding split_paragraphs
split_paragraphs-IsBlock splitter target [] t = tt
split_paragraphs-IsBlock splitter target (item ∷ items) t =
    let rest = split_paragraphs-IsBlock splitter target items t in
    elim (Bool-cases (is_empty (strip item))) [
      | inl blank ↦ rw blank rest
      | inr some_ ↦ rw some_ (elim (Bool-cases (leb (length (strip item)) target)) [
        | inl short ↦ rw short ((nonempty (strip item) some_, ground arith), rest)
        | inr long ↦ rw long (
            All-append (IsBlock target) (split_paragraph splitter (strip item) target) _
              (split_sentences-IsBlock target (splitter.sentences (strip item)) [] [] t tt
                (omega arith))
              rest)
      ])
    ]

-- However paragraphs and sentences are split, for a target of at least one every block that
-- `split_oversized` makes has a character at least, and the target at most.
pub split_oversized-IsBlock :
    (splitter : Splitter) (text : Text) (target : ℕ)
    → 0 < target
    → All (IsBlock target) (split_oversized splitter text target)
unfolding split_oversized
split_oversized-IsBlock splitter text target t =
    split_paragraphs-IsBlock splitter target (splitter.paragraphs text) t
