-- ===== src/Knowledge/Duplicates.antt =====
-- What becomes of a text that comes in twice.
use mini_company.Prelude.{
  ℕ, ◌≡◌, inl, inr, refl, ap, sym, ◌∙◌, subst, true, false, Option, none, some, List, [], map,
  length, Option-cases, arith,
}
use mini_company.Prelude.Text.{Text, text_eq, text_eq→eq, strip}
use mini_company.Prelude.Dict.{lookup, lookup-insert, find_first-lookup}
use mini_company.Knowledge.Chunking.Base.{is_empty}
use mini_company.Knowledge.Domain.{SourceDocument}
use mini_company.Knowledge.Parsing.{ParsedDocument}
use mini_company.Knowledge.Repository.{find_by_content_hash, save_source, put_source}
use mini_company.Knowledge.Schemas.{document_response, response_of}
use mini_company.Knowledge.Rows.{rows_at, text_of}
use mini_company.Knowledge.Library.{Library}
use mini_company.Knowledge.Service.{add_document, ingest, parse, Material}
use mini_company.Knowledge.Indexing.{IsRun, index-IsRun, raised, indexed, as_indexed, asked}
use mini_company.Knowledge.Chunking.Registry.{strategy_name}
use mini_company.Knowledge.Filing.{IsFiled}
use mini_company.Knowledge.Ingestion.{
  ingest-adds, ingest-skips, ingest-IsFiled, known, saved_source, with_saved, saved_run,
  add_document-world, parse-still, known-none,
}
use mini_company.Company.World.{Runtime, World, Result, Error, ok, err, embedding_failed}

-- The text of a material that can be stored.
abbrev pub IsRead : Runtime → Library → Material → ParsedDocument → World → Type 0
IsRead runtime library material parsed w =
    ((parse runtime library material w).0 ≡ ok parsed) × (is_empty (strip parsed.text) ≡ false)

-- A stored document has the hash.
abbrev pub IsKnown : Text → World → Type 0
IsKnown hash w =
    (i : ℕ) × (d : SourceDocument) × (lookup i w.documents ≡ some d) × (d.content_hash ≡ hash)

module _ (runtime : Runtime) where
  -- An indexed document keeps its hash, and stays stored when indexing raises.
  stored-IsRun :
      (library : Library) (document : SourceDocument) (strategy : Option Text) (w : World) (i : ℕ)
      → lookup i w.documents ≡ some document
      → document.id ≡ some i
      → (r : Result SourceDocument × World) → IsRun runtime library document strategy w r
      → IsKnown document.content_hash r.1
  stored-IsRun library document strategy w i found named _ (raised e) = (i, document, found, refl)
  stored-IsRun library document strategy w i found named _
        (indexed j chunks vectors saved cut embedded same) =
      let d =
        as_indexed document (length chunks) (runtime.time w.reads)
          (strategy_name document.content_type (asked runtime library document strategy w)) in
      (j, d, ground (arith, lookup-insert j j d w.documents), refl)

  module _ (library : Library) (material : Material) (parsed : ParsedDocument) (w : World)
      (read : IsRead runtime library material parsed w) where
    -- A text that is known is skipped.
    skipped :
        IsFiled runtime w
        → IsKnown (library.hash_text parsed.text) w
        → (i : ℕ) × (d : SourceDocument) × (lookup i w.documents ≡ some d)
          × (ingest runtime library material w
              ≡ (ok (record { document = response_of runtime i d; skipped_duplicate = true }), w))
    unfolding ingest find_by_content_hash document_response
    skipped filed (j, e, held, same) =
        elim (Option-cases (known runtime library material parsed w)) [
          | inl new ↦ absurd (known-none runtime library material parsed w new j e held same)
          | inr (d, old) ↦
              let ((i, found), passed) =
                find_first-lookup
                  (λ (d : SourceDocument). text_eq d.content_hash (library.hash_text parsed.text))
                  w.documents d filed.keyed old in
              let named = filed.named i d found in
              (
                i,
                d,
                found,
                ground (arith, read.0, read.1, parse-still runtime library material w, old, named),
              )
        ]

    -- Once `ingest` has read a text, the text is known.
    ingest-IsKnown :
        IsFiled runtime w
        → IsKnown (library.hash_text parsed.text) (ingest runtime library material w).1
    ingest-IsKnown filed = elim (Option-cases (known runtime library material parsed w)) [
      | inr (d, old) ↦
          let ((i, found), passed) =
            find_first-lookup
              (λ (d : SourceDocument). text_eq d.content_hash (library.hash_text parsed.text))
              w.documents d filed.keyed old in
          let same = text_eq→eq d.content_hash (library.hash_text parsed.text) passed in
          subst (IsKnown (library.hash_text parsed.text))
            (sym (ingest-skips runtime library material parsed d w read.0 read.1 old))
            (i, d, found, same)
      | inl new ↦
          let i = runtime.object_id w.drawn in
          let saved = saved_source runtime library material parsed w in
          let after = with_saved runtime library material parsed w in
          subst (IsKnown (library.hash_text parsed.text))
            (sym (
              ap (λ r. r.1) (ingest-adds runtime library material parsed w read.0 read.1 new)
              ∙ add_document-world runtime library material parsed w))
            (stored-IsRun library saved material.chunking_strategy after i
              (ground (arith, lookup-insert i i saved w.documents)) refl
              (saved_run runtime library material parsed w)
              (index-IsRun runtime library saved material.chunking_strategy after))
    ]

  -- Once `ingest` has read a text, every later call that reads a text with the same hash, with
  -- whatever settings and embeddings, returns a stored document, says that it skipped a duplicate
  -- and changes nothing.
  pub ingest-again :
      (library library' : Library) (material material' : Material) (parsed parsed' : ParsedDocument)
      (w : World)
      → IsFiled runtime w
      → IsRead runtime library material parsed w
      → IsRead runtime library' material' parsed' (ingest runtime library material w).1
      → library'.hash_text parsed'.text ≡ library.hash_text parsed.text
      → let w' = (ingest runtime library material w).1 in
        (i : ℕ) × (d : SourceDocument) × (lookup i w'.documents ≡ some d)
        × (ingest runtime library' material' w'
            ≡ (ok (record { document = response_of runtime i d; skipped_duplicate = true }), w'))
  ingest-again library library' material material' parsed parsed' w filed read read' same =
      let w' = (ingest runtime library material w).1 in
      skipped library' material' parsed' w' read' (ingest-IsFiled runtime library material w filed)
        (subst (λ hash. IsKnown hash w') (sym same)
          (ingest-IsKnown library material parsed w read filed))

  -- Without embeddings nothing is indexed.
  outage-IsRun :
      (library : Library) (document : SourceDocument) (strategy : Option Text) (w : World)
      → ((texts : List Text) → library.embed texts ≡ err embedding_failed)
      → (r : Result SourceDocument × World) → IsRun runtime library document strategy w r
      → (e : Error) × (r ≡ (err e, w))
  outage-IsRun library document strategy w outage _ (raised e) = (e, refl)
  outage-IsRun library document strategy w outage _
        (indexed j chunks vectors saved cut embedded same) =
      absurd (ground (arith, outage (map text_of chunks), embedded))

  add_document-raises :
      (library : Library) (material : Material) (parsed : ParsedDocument) (w : World) (e : Error)
      → saved_run runtime library material parsed w
        ≡ (err e, with_saved runtime library material parsed w)
      → add_document runtime library material parsed w
        ≡ (err e, with_saved runtime library material parsed w)
  unfolding add_document save_source put_source
  add_document-raises library material parsed w e failed = ground (arith, failed)

  -- When a text that is new comes in while the embeddings fail, `ingest` raises, but the document
  -- stays stored, without a row in the vector store; and no later `ingest` of a text with the same
  -- hash changes that, although the embeddings may work by then: it is skipped as a duplicate.
  pub ingest-strands :
      (library : Library) (material : Material) (parsed : ParsedDocument) (w : World)
      → IsFiled runtime w
      → IsRead runtime library material parsed w
      → known runtime library material parsed w ≡ none
      → ((texts : List Text) → library.embed texts ≡ err embedding_failed)
      → let (r, w') = ingest runtime library material w in
        let i = runtime.object_id w.drawn in
        ((e : Error) × (r ≡ err e))
        × (lookup i w'.documents ≡ some (saved_source runtime library material parsed w))
        × (rows_at (runtime.show_id i) w' ≡ [])
        × ((library' : Library) (material' : Material) (parsed' : ParsedDocument)
            → IsRead runtime library' material' parsed' w'
            → library'.hash_text parsed'.text ≡ library.hash_text parsed.text
            → (ingest runtime library' material' w').1 ≡ w')
  ingest-strands library material parsed w filed read new outage =
      let saved = saved_source runtime library material parsed w in
      let after = with_saved runtime library material parsed w in
      let run = saved_run runtime library material parsed w in
      let (e, failed) =
        outage-IsRun library saved material.chunking_strategy after outage run
          (index-IsRun runtime library saved material.chunking_strategy after) in
      let raises =
        ingest-adds runtime library material parsed w read.0 read.1 new
        ∙ add_document-raises library material parsed w e failed in
      let i = runtime.object_id w.drawn in
      (
        (e, ap (λ r. r.0) raises),
        ap (λ r. lookup i r.1.documents) raises
            ∙ ground (arith, lookup-insert i i saved w.documents),
        ap (λ r. rows_at (runtime.show_id i) r.1) raises
            ∙ filed.unfiled i (filed.free w.drawn (omega arith)),
        λ library' material' parsed' read' same.
            let (k, d, held, skips) =
              ingest-again library library' material material' parsed parsed' w filed read read'
                same in
            ap (λ r. r.1) skips,
      )
