-- ===== src/Knowledge/Rows.antt =====
-- What `replace_document` makes of the rows.
use mini_company.Prelude.{
  ℕ, suc, ◌≡◌, ◌≢◌, refl, ap, ◌∙◌, Option, none, some, List, [], ◌∷◌, map, length, if◌then◌else◌,
  arith,
}
use mini_company.Prelude.Text.{
  Text, get, assign, discard, get-assign, get-assign_other, get-discard, get-discard_other,
}
use mini_company.Knowledge.Chunking.Registry.{ContentType}
use mini_company.Knowledge.Domain.{SourceType, Chunk, Vector, Row}
use mini_company.Knowledge.VectorStore.{replace_document, delete_document, rows_of, is_nil}
use mini_company.Knowledge.Service.{number_chunks}
use mini_company.Company.World.{World, ok}

abbrev pub or_no_rows : Option (List Row) → List Row
or_no_rows none = []
or_no_rows (some rows) = rows

-- The rows that a search can find of a document.
abbrev pub rows_at : Text → World → List Row
rows_at doc_id w = or_no_rows (get doc_id w.rows)

abbrev pub text_of : Chunk → Text
text_of c = c.text

-- Chunks of one document, numbered without a gap from `n` on.
abbrev pub AreNumbered : Text → ℕ → List Chunk → Type 0
AreNumbered doc_id n [] = Unit
AreNumbered doc_id n (c ∷ chunks) =
    (c.doc_id ≡ doc_id) × (c.chunk_index ≡ n) × AreNumbered doc_id (suc n) chunks

pub number_chunks-AreNumbered :
    (doc_id : Text) (n : ℕ) (texts : List Text)
    → AreNumbered doc_id n (number_chunks doc_id n texts)
unfolding number_chunks
number_chunks-AreNumbered doc_id n [] = tt
number_chunks-AreNumbered doc_id n (text ∷ texts) =
    (refl, refl, number_chunks-AreNumbered doc_id (suc n) texts)

abbrev pub chunk_of : Row → Chunk
chunk_of row = row.chunk

abbrev pub vector_of : Row → Vector
vector_of row = row.vector

module _ (source_type : SourceType) (content_type : ContentType) where
  pub map-rows_of :
      (chunks : List Chunk) (vectors : List Vector)
      → length chunks ≡ length vectors
      → (map chunk_of (rows_of source_type content_type chunks vectors) ≡ chunks)
        × (map vector_of (rows_of source_type content_type chunks vectors) ≡ vectors)
  unfolding rows_of
  map-rows_of [] [] h = (refl, refl)
  map-rows_of [] (v ∷ vectors) h = absurd (omega arith)
  map-rows_of (c ∷ chunks) [] h = absurd (omega arith)
  map-rows_of (c ∷ chunks) (v ∷ vectors) h =
      let (same, same') = map-rows_of chunks vectors (omega arith) in
      (ap (λ cs. c ∷ cs) same, ap (λ vs. v ∷ vs) same')

  -- The rows after `replace_document`.
  unfoldable pub replaced :
      Text → List Chunk → List Vector → List (Text × List Row) → List (Text × List Row)
  replaced doc_id chunks vectors rows =
      if is_nil chunks
      then discard doc_id rows
      else assign doc_id (rows_of source_type content_type chunks vectors) (discard doc_id rows)

  pub replace_document-replaced :
      (doc_id : Text) (chunks : List Chunk) (vectors : List Vector) (w : World)
      → length chunks ≡ length vectors
      → replace_document doc_id chunks vectors source_type content_type w
        ≡ (ok tt, record w { rows = replaced doc_id chunks vectors w.rows })
  unfolding replace_document delete_document replaced
  replace_document-replaced doc_id [] vectors w h = ground arith
  replace_document-replaced doc_id (c ∷ chunks) vectors w h = ground arith

  pub get-replaced :
      (doc_id : Text) (chunks : List Chunk) (vectors : List Vector) (rows : List (Text × List Row))
      → or_no_rows (get doc_id (replaced doc_id chunks vectors rows))
        ≡ rows_of source_type content_type chunks vectors
  unfolding replaced rows_of
  get-replaced doc_id [] vectors rows = rw (get-discard doc_id rows)
  get-replaced doc_id (c ∷ chunks) vectors rows = rw (
      get-assign doc_id (rows_of source_type content_type (c ∷ chunks) vectors)
        (discard doc_id rows))

  pub get-replaced_other :
      (doc_id other : Text) (chunks : List Chunk) (vectors : List Vector)
      (rows : List (Text × List Row))
      → doc_id ≢ other
      → get other (replaced doc_id chunks vectors rows) ≡ get other rows
  unfolding replaced
  get-replaced_other doc_id other [] vectors rows h = get-discard_other doc_id other rows h
  get-replaced_other doc_id other (c ∷ chunks) vectors rows h =
      get-assign_other doc_id other (rows_of source_type content_type (c ∷ chunks) vectors)
        (discard doc_id rows) h
      ∙ get-discard_other doc_id other rows h
