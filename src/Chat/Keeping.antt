-- ===== src/Chat/Keeping.antt =====
-- Searching and naming sources change nothing, and completing leaves the conversations alone.
use mini_company.Prelude.{
  ℕ, ◌≡◌, refl, inl, inr, Bool, true, false, Option, none, some, List, [], ◌∷◌, map, Bool-cases,
  ◌==◌, if◌then◌else◌, length, arith,
}
use mini_company.Prelude.Text.{Text, strip}
use mini_company.Knowledge.Chunking.Base.{is_empty}
use mini_company.Knowledge.Domain.{SearchHit, SourceType, Row, Vector}
use mini_company.Knowledge.Library.{Library}
use mini_company.Knowledge.Repository.{get_many, get_source}
use mini_company.Knowledge.VectorStore.{
  search_rows, score_documents, score_rows, cosine, is_filtered, hit_of,
}
use mini_company.Knowledge.Search.{
  search_hits, titles_by_doc_id, titles_of, read_ids, distinct_ids, bare_hit,
}
use mini_company.Company.World.{
  Runtime, World, Action, Error, Result-cases, ◌>>=◌, pure, or_raise, invalid_id,
}

-- An action that changes nothing, whatever it returns.
abbrev pub IsStill : {A : Type 0} → Action A → Type 0
IsStill m = (w : World) → m w ≡ ((m w).0, w)

bind-IsStill :
    {A B : Type 0} (m : Action A) (f : A → Action B) (w : World)
    → m w ≡ ((m w).0, w)
    → ((a : A) → f a w ≡ ((f a w).0, w))
    → (m >>= f) w ≡ (((m >>= f) w).0, w)
bind-IsStill m f w still then_still = elim (Result-cases (m w).0) [
  | inr (e, failed) ↦ ground (arith, still, failed)
  | inl (a, made) ↦ ground (arith, still, made, then_still a)
]

if-IsStill :
    {A : Type 0} (b : Bool) (m k : Action A) (w : World)
    → m w ≡ ((m w).0, w)
    → k w ≡ ((k w).0, w)
    → (if b then m else k) w ≡ (((if b then m else k) w).0, w)
if-IsStill true m k w hm hk = hm
if-IsStill false m k w hm hk = hk

or_raise-IsStill : {A : Type 0} (o : Option A) (e : Error) → IsStill (or_raise o e)
or_raise-IsStill none e w = refl
or_raise-IsStill (some a) e w = refl

module _ (similarity : Vector → Vector → ℕ) where
  cosine-IsStill : (left right : Vector) → IsStill (cosine similarity left right)
  unfolding cosine
  cosine-IsStill left right w = elim (Bool-cases (length left == length right)) [
    | inl same ↦ rw same
    | inr differ ↦ rw differ
  ]

  score_rows-IsStill :
      (source_type : Option SourceType) (vector : Vector) (rows : List Row)
      → IsStill (score_rows similarity source_type vector rows)
  unfolding score_rows
  score_rows-IsStill source_type vector [] w = refl
  score_rows-IsStill source_type vector (row ∷ rows) w =
      let rest = score_rows-IsStill source_type vector rows w in
      let others = score_rows similarity source_type vector rows in
      let tail : ℕ → Action (List SearchHit) =
        λ score. others >>= λ hits. pure (hit_of score row ∷ hits) in
      if-IsStill (is_filtered source_type row) others (cosine similarity vector row.vector >>= tail)
        w rest
        (bind-IsStill (cosine similarity vector row.vector) tail w
          (cosine-IsStill vector row.vector w)
          (λ score.
            bind-IsStill others (λ hits. pure (hit_of score row ∷ hits)) w rest (λ hits. refl)))

  score_documents-IsStill :
      (source_type : Option SourceType) (vector : Vector) (documents : List (Text × List Row))
      → IsStill (score_documents similarity source_type vector documents)
  unfolding score_documents
  score_documents-IsStill source_type vector [] w = refl
  score_documents-IsStill source_type vector ((doc_id, rows) ∷ documents) w =
      let scored = score_rows-IsStill source_type vector rows w in
      let rest = score_documents-IsStill source_type vector documents w in
      elim (Result-cases (score_rows similarity source_type vector rows w).0) [
        | inr (e, failed) ↦ ground (arith, scored, failed)
        | inl (hits, made) ↦
            elim (Result-cases (score_documents similarity source_type vector documents w).0) [
              | inr (e, failed) ↦ ground (arith, scored, made, rest, failed)
              | inl (more, found) ↦ ground (arith, scored, made, rest, found)
            ]
      ]

module _ (runtime : Runtime) (library : Library) where
  pub search_hits-IsStill :
      (query : Text) (top_k : Option ℕ) (source_type : Option SourceType)
      → IsStill (search_hits runtime library query top_k source_type)
  unfolding search_hits search_rows
  search_hits-IsStill query top_k source_type w = elim (Bool-cases (is_empty (strip query))) [
    | inl blank ↦ rw blank
    | inr filled ↦ elim (Result-cases (library.embed (query ∷ []))) [
      | inr (e, failed) ↦ rw filled (ground (arith, failed))
      | inl ([], made) ↦ rw filled (ground (arith, made))
      | inl (vector ∷ more, made) ↦
          let scored = score_documents-IsStill library.similarity source_type vector w.rows w in
          elim (Result-cases (score_documents library.similarity source_type vector w.rows w).0) [
            | inr (e, failed) ↦ rw filled (ground (arith, made, scored, failed))
            | inl (hits, found) ↦ rw filled (ground (arith, made, scored, found))
          ]
    ]
  ]

  get_many-IsStill : (ids : List ℕ) → IsStill (get_many ids)
  unfolding get_many get_source
  get_many-IsStill [] w = refl
  get_many-IsStill (i ∷ ids) w =
      let rest = get_many-IsStill ids w in
      elim (Result-cases (get_many ids w).0) [
        | inr (e, failed) ↦ ground (arith, rest, failed)
        | inl (found, made) ↦ ground (arith, rest, made)
      ]

  read_ids-IsStill : (ids : List Text) → IsStill (read_ids runtime library ids)
  unfolding read_ids
  read_ids-IsStill [] w = refl
  read_ids-IsStill (doc_id ∷ ids) w =
      let rest = read_ids-IsStill ids w in
      let others = read_ids runtime library ids in
      let first : Action ℕ = or_raise (runtime.parse_id doc_id) invalid_id in
      let tail : ℕ → Action (List ℕ) = λ i. others >>= λ more. pure (i ∷ more) in
      if-IsStill (is_empty doc_id) others (first >>= tail) w rest (
        bind-IsStill first tail w (or_raise-IsStill (runtime.parse_id doc_id) invalid_id w)
          (λ i. bind-IsStill others (λ more. pure (i ∷ more)) w rest (λ more. refl)))

  pub titles_by_doc_id-IsStill : (ids : List Text) → IsStill (titles_by_doc_id runtime library ids)
  unfolding titles_by_doc_id titles_of
  titles_by_doc_id-IsStill ids w =
      let asked = distinct_ids (map (bare_hit runtime library) ids) in
      let read = read_ids-IsStill asked w in
      elim (Result-cases (read_ids runtime library asked w).0) [
        | inr (e, failed) ↦ ground (arith, read, failed)
        | inl (object_ids, made) ↦
            let many = get_many-IsStill object_ids w in
            elim (Result-cases (get_many object_ids w).0) [
              | inr (e, failed) ↦ ground (arith, read, made, many, failed)
              | inl (found, got) ↦ ground (arith, read, made, many, got)
            ]
      ]
