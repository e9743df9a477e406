-- ===== src/Knowledge/Chunking/Registry.antt =====
-- backend/src/knowledge/chunking/registry.py: which strategy cuts a document.
use mini_company.Prelude.{
  ℕ, ◌≡◌, true, Option, none, some, List, [], ◌∷◌, ◌++◌, is_some, ◌==◌, if◌then◌else◌, arith,
}
use mini_company.Prelude.Text.{Text, codes, get}
use mini_company.Knowledge.Chunking.Base.{ChunkingInput, ChunkingOptions, Splitter, is_empty}
use mini_company.Knowledge.Chunking.Strategies.{chunk_paragraphs, chunk_fixed_size, chunk_headings}

-- `class ContentType(StrEnum)`
pub data ContentType : Type 0 where
  plain_text html markdown pdf : ContentType

abbrev pub content_type_rank : ContentType → ℕ
content_type_rank plain_text = 0
content_type_rank html = 1
content_type_rank markdown = 2
content_type_rank pdf = 3

-- `class ChunkingStrategy`, and the registry by name
abbrev pub Chunker : Type 0
Chunker = ChunkingInput → ChunkingOptions → List Text

abbrev pub Registry : Type 0
Registry = List (Text × Chunker)

-- `build_chunker_registry`
unfoldable pub build_chunker_registry : Splitter → Registry
build_chunker_registry splitter =
    (codes "paragraph", chunk_paragraphs splitter)
    ∷ (codes "fixed_size", chunk_fixed_size)
    ∷ (codes "heading", chunk_headings splitter)
    ∷ []

-- `DEFAULT_STRATEGY_BY_CONTENT_TYPE`
unfoldable pub default_strategies : List (ContentType × Text)
default_strategies =
    (html, codes "heading")
    ∷ (markdown, codes "heading")
    ∷ (pdf, codes "paragraph")
    ∷ (plain_text, codes "paragraph")
    ∷ []

-- `.get(content_type)` on the defaults
unfoldable pub default_of : ContentType → List (ContentType × Text) → Option Text
default_of content_type [] = none
default_of content_type ((key, name) ∷ defaults) =
    let rest = default_of content_type defaults in
    if content_type_rank key == content_type_rank content_type then some name else rest

-- `FALLBACK_STRATEGY`
abbrev pub fallback_strategy : Text
fallback_strategy = codes "paragraph"

abbrev pub or_fallback : Option Text → Text
or_fallback none = fallback_strategy
or_fallback (some name) = name

-- `override or ...`: an empty text is none.
unfoldable pub strategy_name : ContentType → Option Text → Text
unfolding default_of default_strategies
strategy_name content_type none = or_fallback (default_of content_type default_strategies)
strategy_name content_type (some name) =
    if is_empty name then or_fallback (default_of content_type default_strategies) else name

-- `resolve_chunker`; none is UnsupportedChunkingStrategy.
unfoldable pub resolve_chunker : Registry → ContentType → Option Text → Option Chunker
unfolding strategy_name
resolve_chunker registry content_type override = get (strategy_name content_type override) registry

-- `ContentType(...).value`
abbrev pub content_type_value : ContentType → Text
content_type_value plain_text = codes "PLAIN_TEXT"
content_type_value html = codes "HTML"
content_type_value markdown = codes "MARKDOWN"
content_type_value pdf = codes "PDF"

-- The defaults that are not registered.
unfoldable pub unregistered : Registry → List (ContentType × Text) → List Text
unregistered registry [] = []
unregistered registry ((content_type, name) ∷ defaults) =
    let rest = unregistered registry defaults in
    if is_some (get name registry)
    then rest
    else (content_type_value content_type ++ codes "→" ++ name) ∷ rest

-- The content types without a default.
unfoldable pub without_default : List ContentType → List (ContentType × Text) → List Text
unfolding default_of
without_default [] defaults = []
without_default (content_type ∷ more) defaults =
    let rest = without_default more defaults in
    if is_some (default_of content_type defaults)
    then rest
    else (content_type_value content_type ++ codes "(기본 전략 미지정)") ∷ rest

-- `missing_default_strategies`
unfoldable pub missing_default_strategies : Registry → List Text
unfolding unregistered without_default default_strategies
missing_default_strategies registry =
    unregistered registry default_strategies
    ++ without_default (plain_text ∷ html ∷ markdown ∷ pdf ∷ []) default_strategies
    ++ (if is_some (get fallback_strategy registry)
        then []
        else (codes "폴백 전략 없음: " ++ fallback_strategy) ∷ [])

-- When the check at startup finds no problem in a registry, a document of every content type that
-- names no strategy of its own, or an empty one, has a strategy.
pub resolve_chunker-is_some :
    (registry : Registry) (content_type : ContentType)
    → missing_default_strategies registry ≡ []
    → (is_some (resolve_chunker registry content_type none) ≡ true)
      × (is_some (resolve_chunker registry content_type (some [])) ≡ true)
unfolding missing_default_strategies resolve_chunker default_of default_strategies
resolve_chunker-is_some registry plain_text h = (ground arith, ground arith)
resolve_chunker-is_some registry html h = (ground arith, ground arith)
resolve_chunker-is_some registry markdown h = (ground arith, ground arith)
resolve_chunker-is_some registry pdf h = (ground arith, ground arith)
