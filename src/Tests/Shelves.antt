-- ===== src/Tests/Shelves.antt =====
-- Documents that come in and are found, and what the theorems say of them.
use mini_company.Prelude.{◌≡◌, refl, ap, All, false, none, some, List, [], ◌∷◌, map, length}
use mini_company.Prelude.Text.{Text, codes, strip, get, assign, discard}
use mini_company.Prelude.Dict.{lookup, insert, values}
use mini_company.Knowledge.Chunking.Base.{Splitter, from_tokens, is_empty}
use mini_company.Knowledge.Chunking.Registry.{plain_text, build_chunker_registry, resolve_chunker}
use mini_company.Knowledge.Chunking.Strategies.{chunk_fixed_size, windows}
use mini_company.Knowledge.Domain.{web, SourceDocument, Row, Vector, Chunk, SearchHit}
use mini_company.Knowledge.Parsing.{
  ParsedDocument, no_metadata, parse_plain_text, resolve_parser, clean_text,
}
use mini_company.Knowledge.Library.{Library}
use mini_company.Knowledge.Service.{Material, parse, ingest, index, chunks_of, number_chunks}
use mini_company.Knowledge.Rows.{rows_at, chunk_of}
use mini_company.Knowledge.Filing.{IsFiled}
use mini_company.Knowledge.Runs.{Reach, opens, next, ingests, Reach-IsFiled}
use mini_company.Knowledge.Runs
use mini_company.Knowledge.Duplicates.{ingest-again, ingest-strands}
use mini_company.Knowledge.Retrieval.{search_hits_lem, candidates_in, all_rows}
use mini_company.Knowledge.Ranking.{IsRanking}
use mini_company.Knowledge.Search.{search_hits}
use mini_company.Knowledge.Ingestion.{new_source}
use mini_company.Knowledge.Indexing.{index_lem, asked}
use mini_company.Company.World.{World, Result, ok, err, embedding_failed}
use mini_company.Company.Office.{opening}
use mini_company.Samples.{runtime}

abbrev one : Vector
one = 1 ∷ []

-- Every text has the same vector.
abbrev one_each : List Text → Result (List Vector)
one_each texts = ok (map (λ (t : Text). one) texts)

abbrev unsplit : Splitter
unsplit = record { paragraphs = λ t. t ∷ []; sentences = λ t. t ∷ [] }

abbrev pub library : Library
library = record {
  settings = record {
    parsers = (plain_text, parse_plain_text) ∷ [];
    chunkers = build_chunker_registry unsplit;
    top_k = 2;
    score_threshold = 3;
    chunk_target_tokens = 5;
    chunk_overlap_tokens = 0;
    chunking_strategy = some (codes "fixed_size");
  };
  readers = record { lower = λ t. t; from_isoformat = λ t. none };
  embed = one_each;
  hash_text = λ t. t;
  similarity = λ u v. 5;
  show_score = λ s. s ∷ [];
}

-- The embeddings are down.
abbrev without_embeddings : Library
without_embeddings = record library { embed = λ texts. err embedding_failed }

abbrev note : Material
note = record {
  source_type = web;
  content_type = plain_text;
  collected_by = 0;
  text = some (codes " abcdefghij ");
  bytes = none;
  source_url = none;
  title_hint = none;
  task_id = none;
  metadata_hints = [];
  chunking_strategy = none;
}

abbrev read : ParsedDocument
read = record { text = codes "abcdefghij"; metadata = no_metadata; outline = [] }

shelves : Unit {0}
unfolding ingest index chunks_of number_chunks resolve_parser parse_plain_text clean_text strip
    lookup insert values get assign discard from_tokens resolve_chunker build_chunker_registry
    chunk_fixed_size windows
shelves = tt

note_parsed : (parse runtime library note opening).0 ≡ ok read
unfolding shelves parse
note_parsed = refl

note_filled : is_empty (strip (codes "abcdefghij")) ≡ false
unfolding shelves
note_filled = refl

-- The note is on the shelf.
abbrev pub shelved : World
shelved = (ingest runtime library note opening).1

opening-IsFiled : IsFiled runtime opening
opening-IsFiled = Reach-IsFiled runtime opening opens

Reach-IsFiled_example : IsFiled runtime shelved
Reach-IsFiled_example = Reach-IsFiled runtime shelved (Runs.Reach.next opens (ingests library note))

note_parsed_twice : (parse runtime library note shelved).0 ≡ ok read
unfolding shelves parse
note_parsed_twice = refl

ingest-again_example : (ingest runtime library note shelved).1 ≡ shelved
ingest-again_example =
    ap (λ r. r.1)
      (ingest-again runtime library library note note read read opening opening-IsFiled
        (note_parsed, note_filled) (note_parsed_twice, note_filled) refl).3

note_parsed_in_vain : (parse runtime without_embeddings note opening).0 ≡ ok read
unfolding shelves parse
note_parsed_in_vain = refl

ingest-strands_example :
    rows_at (runtime.show_id 0) (ingest runtime without_embeddings note opening).1 ≡ []
unfolding shelves
ingest-strands_example =
    (ingest-strands runtime without_embeddings note read opening opening-IsFiled
      (note_parsed_in_vain, note_filled) refl (λ texts. refl)).2

two_rows : length (rows_at (runtime.show_id 0) shelved) ≡ 2
unfolding shelves
two_rows = refl

rows_fit : All (λ (row : Row). length one ≡ length row.vector) (all_rows shelved.rows)
unfolding shelves
rows_fit = (refl, (refl, tt))

question_filled : is_empty (strip (codes "what?")) ≡ false
unfolding shelves
question_filled = refl

search_hits_lem_example :
    (hits : List SearchHit) × (search_hits runtime library (codes "what?") (some 1) none shelved
      ≡ (ok hits, shelved))
    × IsRanking 1 3 (candidates_in library.similarity none one (all_rows shelved.rows)) hits
search_hits_lem_example =
    search_hits_lem runtime library (codes "what?") (some 1) none one [] shelved question_filled
      refl rows_fit

-- The note as it is stored before it is indexed.
abbrev stored : SourceDocument
stored = new_source library note read 1000 (some 0)

abbrev pieces : List Chunk
pieces =
    record { doc_id = runtime.show_id 0; chunk_index = 0; text = codes "abcdefgh" }
    ∷ record { doc_id = runtime.show_id 0; chunk_index = 1; text = codes "ij" }
    ∷ []

note_cut :
    chunks_of runtime library stored
      (asked runtime library stored none opening)
      (runtime.show_id 0)
      opening
    ≡ (ok pieces, opening)
unfolding shelves
note_cut = refl

index_lem_example :
    map chunk_of (rows_at (runtime.show_id 0) (index runtime library stored none opening).1)
    ≡ pieces
index_lem_example =
    (index_lem runtime library stored none opening 0 pieces (one ∷ one ∷ []) refl note_cut refl
      refl).2
