-- ===== src/Knowledge/Ingestion.antt =====
-- `ingest` and `reindex`, and every sequence of them.
use mini_company.Prelude.{
  ℕ, ◌+◌, ◌≡◌, ◌≢◌, ◌⊎◌, inl, inr, refl, ap, true, false, Option, none, some, List, [], ◌∷◌, ◌==◌,
  Bool-cases, Option-cases, find_first, arith,
}
use mini_company.Prelude.Text.{text_eq, text_eq_refl, strip}
use mini_company.Prelude.Dict.{
  lookup, insert, values, lookup-insert, insert_cases, insert-IsKeyed, find_first-none,
}
use mini_company.Knowledge.Chunking.Base.{is_empty}
use mini_company.Knowledge.Domain.{SourceDocument}
use mini_company.Knowledge.Parsing.{ParsedDocument, Parser, resolve_parser}
use mini_company.Knowledge.Chunking.Registry.{ContentType, content_type_rank}
use mini_company.Knowledge.Metadata.{merge_metadata, resolve_title}
use mini_company.Knowledge.Repository.{save_source, put_source, find_by_content_hash}
use mini_company.Knowledge.Schemas.{document_response}
use mini_company.Knowledge.Library.{Library}
use mini_company.Knowledge.Service.{index, ingest, add_document, parse, Material}
use mini_company.Knowledge.Indexing.{index-IsRun}
use mini_company.Knowledge.Filing.{IsFiled, index-IsFiled}
use mini_company.Company.World.{Runtime, World, Result, ok, err, Result-cases, Error}

resolve_parser-still :
    (parsers : List (ContentType × Parser)) (content_type : ContentType) (w : World)
    → resolve_parser parsers content_type w ≡ ((resolve_parser parsers content_type w).0, w)
unfolding resolve_parser
resolve_parser-still [] content_type w = refl
resolve_parser-still ((key, parser) ∷ parsers) content_type w =
    elim (Bool-cases (content_type_rank key == content_type_rank content_type)) [
      | inl here ↦ rw here
      | inr later ↦ rw later (resolve_parser-still parsers content_type w)
    ]

-- What `ingest` saves before it indexes.
abbrev pub new_source : Library → Material → ParsedDocument → ℕ → Option ℕ → SourceDocument
new_source library material parsed at id =
    let metadata = merge_metadata library.readers parsed.metadata material.metadata_hints in
    record {
      id = id;
      title = resolve_title material.title_hint metadata;
      source_url = material.source_url;
      source_type = material.source_type;
      content_type = material.content_type;
      raw_text = parsed.text;
      outline = parsed.outline;
      chunking_strategy = [];
      metadata = metadata;
      collected_by = material.collected_by;
      task_id = material.task_id;
      collected_at = at;
      content_hash = library.hash_text parsed.text;
      chunk_count = 0;
      indexed_at = none;
    }

module _ (runtime : Runtime) where
  module _ (i : ℕ) (document : SourceDocument) (w : World) where
    -- A document is saved under an id just drawn.
    abbrev pub with_source : World
    with_source = record w {
      documents = insert i document w.documents;
      reads = w.reads + 1;
      drawn = w.drawn + 1;
    }

  added-IsFiled :
      (document : SourceDocument) (w : World)
      → IsFiled runtime w
      → document.id ≡ some (runtime.object_id w.drawn)
      → document.chunk_count ≡ 0
      → ((i : ℕ) (d : SourceDocument)
          → lookup i w.documents ≡ some d
          → d.content_hash ≢ document.content_hash)
      → IsFiled runtime (with_source (runtime.object_id w.drawn) document w)
  added-IsFiled document w sound named count fresh =
      let i = runtime.object_id w.drawn in
      let unused = sound.free w.drawn (omega arith) in
      record {
        keyed = insert-IsKeyed i document w.documents sound.keyed;
        named = λ k d h. elim (insert_cases i k document d w.documents h) [
          | inl (e, same) ↦ ground (arith, named)
          | inr (differs, old) ↦ sound.named k d old
        ];
        free = λ k h.
            let ne : runtime.object_id w.drawn ≢ runtime.object_id k =
              λ e. absurd (omega (arith, runtime.object_id_unique w.drawn k e)) in
            ground (
              arith,
              lookup-insert i (runtime.object_id k) document w.documents,
              sound.free k (omega arith),
            );
        distinct = λ a b d e ha hb h. elim (insert_cases i a document d w.documents ha) [
          | inl (ja, same_a) ↦ elim (insert_cases i b document e w.documents hb) [
            | inl (jb, same_b) ↦ ground arith
            | inr (differs, old) ↦ absurd (fresh b e old (ground arith))
          ]
          | inr (differs, old) ↦ elim (insert_cases i b document e w.documents hb) [
            | inl (jb, same_b) ↦ absurd (fresh a d old (ground arith))
            | inr (differs', old') ↦ sound.distinct a b d e old old' h
          ]
        ];
        counted = λ k d h. elim (insert_cases i k document d w.documents h) [
          | inl (e, same) ↦ ground (arith, sound.unfiled i unused)
          | inr (differs, old) ↦ sound.counted k d old
        ];
        numbered = sound.numbered;
        unfiled =
            λ k absent. sound.unfiled k (ground (arith, lookup-insert i k document w.documents));
      }

  module _ (library : Library) (material : Material) where
    pub parse-still :
        (w : World) → parse runtime library material w ≡ ((parse runtime library material w).0, w)
    unfolding parse
    parse-still w =
        let still = resolve_parser-still library.settings.parsers material.content_type w in
        elim (Result-cases (resolve_parser library.settings.parsers material.content_type w).0) [
          | inl (parser, found) ↦ ground (arith, still, found)
          | inr (e, absent) ↦ ground (arith, still, absent)
        ]

    -- What the documents have of a text.
    abbrev pub known : ParsedDocument → World → Option SourceDocument
    known parsed w =
        find_first (λ (d : SourceDocument). text_eq d.content_hash (library.hash_text parsed.text))
          (values w.documents)

    -- `ingest` gets as far as the text, and adds it when its hash is new.
    pub ingest-adds :
        (parsed : ParsedDocument) (w : World)
        → (parse runtime library material w).0 ≡ ok parsed
        → is_empty (strip parsed.text) ≡ false
        → known parsed w ≡ none
        → ingest runtime library material w ≡ add_document runtime library material parsed w
    unfolding ingest find_by_content_hash
    ingest-adds parsed w made filled new = ground (arith, parse-still w)

    pub ingest-skips :
        (parsed : ParsedDocument) (d : SourceDocument) (w : World)
        → (parse runtime library material w).0 ≡ ok parsed
        → is_empty (strip parsed.text) ≡ false
        → known parsed w ≡ some d
        → (ingest runtime library material w).1 ≡ w
    unfolding ingest find_by_content_hash document_response
    ingest-skips parsed d w made filled old = ground (arith, parse-still w, Option-cases d.id)

    -- The document that `ingest` saves, and the stores that it is indexed on.
    abbrev pub saved_source : ParsedDocument → World → SourceDocument
    saved_source parsed w =
        new_source library material parsed (runtime.time w.reads) (some (runtime.object_id w.drawn))

    abbrev pub with_saved : ParsedDocument → World → World
    with_saved parsed w = with_source (runtime.object_id w.drawn) (saved_source parsed w) w

    abbrev pub saved_run : ParsedDocument → World → Result SourceDocument × World
    saved_run parsed w =
        index runtime library (saved_source parsed w) material.chunking_strategy
          (with_saved parsed w)

    pub add_document-world :
        (parsed : ParsedDocument) (w : World)
        → (add_document runtime library material parsed w).1 ≡ (saved_run parsed w).1
    unfolding add_document save_source put_source document_response
    add_document-world parsed w = elim (Result-cases (saved_run parsed w).0) [
      | inr (e, failed) ↦ ground (arith, failed)
      | inl (d, made) ↦ elim (Option-cases d.id) [
        | inl unsaved ↦ ground (arith, made, unsaved)
        | inr (i, named) ↦ ground (arith, made, named)
      ]
    ]

    -- A document whose hash was not found has another hash than the stored ones.
    pub known-none :
        (parsed : ParsedDocument) (w : World)
        → known parsed w ≡ none
        → (i : ℕ) (d : SourceDocument) → lookup i w.documents ≡ some d
        → d.content_hash ≢ library.hash_text parsed.text
    known-none parsed w new i d found same =
        let hash = library.hash_text parsed.text in
        let differs =
          find_first-none (λ (d : SourceDocument). text_eq d.content_hash hash) w.documents i d new
            found in
        ground (arith, text_eq_refl hash, ap (λ t. text_eq t hash) same, differs)

    pub saved_run-IsFiled :
        (parsed : ParsedDocument) (w : World)
        → IsFiled runtime w
        → known parsed w ≡ none
        → IsFiled runtime (saved_run parsed w).1
    saved_run-IsFiled parsed w sound new =
        let i = runtime.object_id w.drawn in
        let saved = saved_source parsed w in
        let added = added-IsFiled saved w sound refl refl (known-none parsed w new) in
        index-IsFiled runtime library saved material.chunking_strategy (with_saved parsed w) added i
          (ground (arith, lookup-insert i i saved w.documents)) (saved_run parsed w)
          (index-IsRun runtime library saved material.chunking_strategy (with_saved parsed w))

    ingest-refused :
        (w : World)
        → ((e : Error) × ((parse runtime library material w).0 ≡ err e))
          ⊎ ((parsed : ParsedDocument) × ((parse runtime library material w).0 ≡ ok parsed)
              × (is_empty (strip parsed.text) ≡ true))
        → (ingest runtime library material w).1 ≡ w
    unfolding ingest
    ingest-refused w (inl (e, failed)) = ground (arith, parse-still w, failed)
    ingest-refused w (inr (parsed, made, blank)) = ground (arith, parse-still w, made, blank)

    pub ingest-IsFiled :
        (w : World) → IsFiled runtime w → IsFiled runtime (ingest runtime library material w).1
    ingest-IsFiled w sound = elim (Result-cases (parse runtime library material w).0) [
      | inr (e, failed) ↦ rw (ingest-refused w (inl (e, failed))) sound
      | inl (parsed, made) ↦ elim (Bool-cases (is_empty (strip parsed.text))) [
        | inl blank ↦ rw (ingest-refused w (inr (parsed, made, blank))) sound
        | inr filled ↦ elim (Option-cases (known parsed w)) [
          | inr (d, old) ↦ rw (ingest-skips parsed d w made filled old) sound
          | inl new ↦
              rw (ingest-adds parsed w made filled new, add_document-world parsed w)
                (saved_run-IsFiled parsed w sound new)
        ]
      ]
    ]
