-- ===== src/Knowledge/Indexing.antt =====
-- `_index`: what becomes of the rows and of the document.
use mini_company.Prelude.{
  ℕ, ◌+◌, ◌≡◌, ◌≢◌, inl, inr, refl, ap, sym, ◌∙◌, subst, Option, some, List, map, length, ◌==◌,
  Bool-cases, Option-cases, arith,
}
use mini_company.Prelude.Text.{Text}
use mini_company.Prelude.Dict.{insert}
use mini_company.Knowledge.Chunking.Base.{from_tokens}
use mini_company.Knowledge.Chunking.Registry.{resolve_chunker, strategy_name}
use mini_company.Knowledge.Domain.{SourceDocument, Chunk, Vector}
use mini_company.Knowledge.Repository.{save_source, put_source}
use mini_company.Knowledge.Library.{Library}
use mini_company.Knowledge.Service.{index, chunks_of, choose_strategy, number_chunks}
use mini_company.Company.World.{
  Runtime, World, Result, ok, err, Result-cases, Error, document_not_found, value_error,
}
use mini_company.Knowledge.Rows.{
  or_no_rows, rows_at, text_of, AreNumbered, number_chunks-AreNumbered, chunk_of, vector_of,
  map-rows_of, replaced, replace_document-replaced, get-replaced, get-replaced_other,
}

-- What `_index` writes on a document.
abbrev pub as_indexed : SourceDocument → ℕ → ℕ → Text → SourceDocument
as_indexed document count at strategy = record document {
  chunk_count = count;
  indexed_at = some at;
  chunking_strategy = strategy;
}

module _ (runtime : Runtime) (library : Library) (document : SourceDocument)
    (strategy_override : Option Text) (w : World) where
  -- The strategy that `_index` asks for.
  abbrev pub asked : Option Text
  asked =
      choose_strategy strategy_override document.chunking_strategy
        library.settings.chunking_strategy

  -- The stores after `_index`.
  abbrev pub indexed_world : ℕ → List Chunk → List Vector → World
  indexed_world i chunks vectors = record w {
    documents =
        insert i
          (as_indexed document (length chunks) (runtime.time w.reads)
            (strategy_name document.content_type asked))
          w.documents;
    rows =
        replaced document.source_type document.content_type (runtime.show_id i) chunks vectors
          w.rows;
    reads = w.reads + 1;
  }

  chunks_still :
      (doc_id : Text)
      → chunks_of runtime library document asked doc_id w
        ≡ ((chunks_of runtime library document asked doc_id w).0, w)
  unfolding chunks_of
  chunks_still doc_id =
      elim (Option-cases (resolve_chunker library.settings.chunkers document.content_type asked)) [
        | inl absent ↦ simp absent refl
        | inr (chunker, found) ↦
            elim (Option-cases (
              from_tokens library.settings.chunk_target_tokens
                library.settings.chunk_overlap_tokens)) [
                  | inl absent ↦ simp (found, absent) refl
                  | inr (options, given) ↦ simp (found, given) refl
                ]
      ]

  -- `_index` is through with chunks and their vectors, or it raises and has written nothing.
  pub data IsRun : Result SourceDocument × World → Type 0 where
    raised : (e : Error) → IsRun (err e, w)
    indexed :
        (i : ℕ) (chunks : List Chunk) (vectors : List Vector)
        → document.id ≡ some i
        → chunks_of runtime library document asked (runtime.show_id i) w ≡ (ok chunks, w)
        → library.embed (map text_of chunks) ≡ ok vectors
        → length chunks ≡ length vectors
        → IsRun (
          ok (
              as_indexed document
                (length chunks)
                (runtime.time w.reads)
                (strategy_name document.content_type asked)),
          indexed_world i chunks vectors,
        )

  module _ (i : ℕ) (chunks : List Chunk) (vectors : List Vector) (saved : document.id ≡ some i)
      (cut : chunks_of runtime library document asked (runtime.show_id i) w ≡ (ok chunks, w))
      (embedded : library.embed (map text_of chunks) ≡ ok vectors)
      (same : length chunks ≡ length vectors) where
    index_runs : index runtime library document strategy_override w ≡ (
      ok (
          as_indexed document
            (length chunks)
            (runtime.time w.reads)
            (strategy_name document.content_type asked)),
      indexed_world i chunks vectors,
    )
    unfolding index save_source put_source
    index_runs =
        let stored =
          replace_document-replaced document.source_type document.content_type (runtime.show_id i)
            chunks vectors w same in
        ground (arith, saved, cut, embedded, stored)

  pub index-IsRun : IsRun (index runtime library document strategy_override w)
  unfolding index save_source put_source
  index-IsRun = elim (Option-cases document.id) [
    | inl unsaved ↦ subst IsRun (ground (arith, unsaved)) (raised document_not_found)
    | inr (i, saved) ↦
        let doc_id = runtime.show_id i in
        let cut = chunks_of runtime library document asked doc_id w in
        let still = chunks_still doc_id in
        elim (Result-cases cut.0) [
          | inr (e, refused) ↦ subst IsRun (ground (arith, still, refused)) (raised e)
          | inl (chunks, made) ↦ elim (Result-cases (library.embed (map text_of chunks))) [
            | inr (e, refused) ↦ subst IsRun (ground (arith, still, made, refused)) (raised e)
            | inl (vectors, embedded) ↦ elim (Bool-cases (length chunks == length vectors)) [
              | inr differ ↦
                  subst IsRun (ground (arith, still, made, embedded)) (raised value_error)
              | inl same ↦
                  let cut_ = still ∙ ap (λ r. (r, w)) made in
                  let same_ : length chunks ≡ length vectors = ground (arith, same) in
                  subst IsRun (sym (index_runs i chunks vectors saved cut_ embedded same_))
                    (indexed i chunks vectors saved cut_ embedded same_)
            ]
          ]
        ]
  ]

  -- What the chunker gives is numbered.
  pub cut-AreNumbered :
      (doc_id : Text) (chunks : List Chunk)
      → chunks_of runtime library document asked doc_id w ≡ (ok chunks, w)
      → AreNumbered doc_id 0 chunks
  unfolding chunks_of
  cut-AreNumbered doc_id chunks cut =
      elim (Option-cases (resolve_chunker library.settings.chunkers document.content_type asked)) [
        | inl absent ↦ absurd (ground (arith, absent, cut))
        | inr (chunker, found) ↦
            elim (Option-cases (
              from_tokens library.settings.chunk_target_tokens
                library.settings.chunk_overlap_tokens)) [
                  | inl absent ↦ absurd (ground (arith, found, absent, cut))
                  | inr (options, given) ↦
                      let texts =
                        chunker (record { text = document.raw_text; outline = document.outline })
                          options in
                      let same : number_chunks doc_id 0 texts ≡ chunks =
                        ground (arith, found, given, cut) in
                      subst (AreNumbered doc_id 0) same (number_chunks-AreNumbered doc_id 0 texts)
                ]
      ]

  module _ (i : ℕ) (chunks : List Chunk) (vectors : List Vector) where
    pub rows_at-indexed :
        length chunks ≡ length vectors
        → (map chunk_of (rows_at (runtime.show_id i) (indexed_world i chunks vectors)) ≡ chunks)
          × (map vector_of (rows_at (runtime.show_id i) (indexed_world i chunks vectors)) ≡ vectors)
    rows_at-indexed same =
        let stored =
          get-replaced document.source_type document.content_type (runtime.show_id i) chunks vectors
            w.rows in
        let (cs, vs) = map-rows_of document.source_type document.content_type chunks vectors same in
        (ap (map chunk_of) stored ∙ cs, ap (map vector_of) stored ∙ vs)

    pub rows_at-other :
        (other : Text)
        → runtime.show_id i ≢ other
        → rows_at other (indexed_world i chunks vectors) ≡ rows_at other w
    rows_at-other other h = ap or_no_rows (
        get-replaced_other document.source_type document.content_type (runtime.show_id i) other
          chunks vectors w.rows h)

    -- Where the strategy is known, the options are valid and the embeddings give a vector for each
    -- chunk, `_index` of a document with an id returns it with the number of its chunks, the time
    -- and the name of the strategy, and stores that under its id alone. The rows of the document
    -- are then its chunks, numbered from 0 without a gap, each with its vector, whatever stood
    -- there before, and the rows of the other documents are what they were.
    pub index_lem :
        document.id ≡ some i
        → chunks_of runtime library document asked (runtime.show_id i) w ≡ (ok chunks, w)
        → library.embed (map text_of chunks) ≡ ok vectors
        → length chunks ≡ length vectors
        → let (r, w') = index runtime library document strategy_override w in
          let document' =
            as_indexed document
              (length chunks)
              (runtime.time w.reads)
              (strategy_name document.content_type asked) in
          (r ≡ ok document')
          × (w'.documents ≡ insert i document' w.documents)
          × (map chunk_of (rows_at (runtime.show_id i) w') ≡ chunks)
          × (map vector_of (rows_at (runtime.show_id i) w') ≡ vectors)
          × AreNumbered (runtime.show_id i) 0 chunks
          × ((other : Text) → runtime.show_id i ≢ other → rows_at other w' ≡ rows_at other w)
    index_lem saved cut embedded same =
        let run = index_runs i chunks vectors saved cut embedded same in
        let (cs, vs) = rows_at-indexed same in
        rw run (refl, refl, cs, vs, cut-AreNumbered (runtime.show_id i) chunks cut, rows_at-other)
