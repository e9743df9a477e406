-- ===== src/Knowledge/Parsing.antt =====
-- backend/src/knowledge/parsing/base.py, plain_text.py and registry.py. Lower case and the reading
-- of ISO 8601 are Python's, and parameters.
use mini_company.Prelude.{
  ℕ, Bool, true, false, not, Option, none, some, List, [], ◌∷◌, ◌++◌, ◌||◌, map, keep, ◌==◌,
  if◌then◌else◌,
}
use mini_company.Prelude.Text.{Text, codes, strip}
use mini_company.Knowledge.Chunking.Base.{Section, is_empty}
use mini_company.Knowledge.Chunking.Registry.{ContentType, content_type_rank}
use mini_company.Knowledge.Domain.{DocumentMetadata}
use mini_company.Company.World.{
  Action, Result, ok, err, pure, raise, document_parse_failed, unsupported_content_type,
}

-- `class RawPayload`; its `data` is `bytes` here.
pub record RawPayload : Type 0 where
  pub content_type : ContentType
  pub text : Option Text
  pub bytes : Option (List ℕ)
  pub hints : List (Text × Text)

-- `class ParsedDocument`
pub record ParsedDocument : Type 0 where
  pub text : Text
  pub metadata : DocumentMetadata
  pub outline : List Section

-- `class DocumentParser`
abbrev pub Parser : Type 0
Parser = RawPayload → Result ParsedDocument

-- What `datetime.fromisoformat` reads: an instant, or a wall time without a zone.
pub data ParsedTime : Type 0 where
  aware naive : ℕ → ParsedTime

pub record Readers : Type 0 where
  pub lower : Text → Text
  pub from_isoformat : Text → Option ParsedTime

-- `_UNSAFE_KEY_CHARS.sub("_", ...)`
abbrev pub safe_char : ℕ → ℕ
safe_char c = if c == 46 || c == 36 then 95 else c

-- `normalize_metadata_key`
unfoldable pub normalize_metadata_key : Readers → Text → Text
unfolding strip
normalize_metadata_key readers key = map safe_char (readers.lower (strip key))

-- `text.replace("\r\n", "\n")`
unfoldable pub join_line_ends : Text → Text
join_line_ends [] = []
join_line_ends (c ∷ []) = c ∷ []
join_line_ends (c ∷ d ∷ t) =
    let rest = join_line_ends t in
    let next = join_line_ends (d ∷ t) in
    if c == 13 then (if d == 10 then 10 ∷ rest else c ∷ next) else c ∷ next

-- `.replace("\r", "\n")`
abbrev pub line_end : ℕ → ℕ
line_end c = if c == 13 then 10 else c

-- One of `[ \t\u00a0]`.
abbrev pub is_blank : ℕ → Bool
is_blank c = c == 32 || c == 9 || c == 160

-- `_WHITESPACE.sub(" ", text)`; the flag says that a run of blanks has begun.
unfoldable pub collapse_blanks : Bool → Text → Text
collapse_blanks in_run [] = []
collapse_blanks in_run (c ∷ t) =
    let inside = collapse_blanks true t in
    let outside = collapse_blanks false t in
    if is_blank c then (if in_run then inside else 32 ∷ inside) else c ∷ outside

-- `text.split(separator)`, with what stands before the first separator.
abbrev pub split_char : ℕ → Text → Text × List Text
split_char separator [] = ([], [])
split_char separator (c ∷ t) =
    let (first, rest) = split_char separator t in
    if c == separator then ([], first ∷ rest) else (c ∷ first, rest)

unfoldable pub split_on : ℕ → Text → List Text
split_on separator t = let (first, rest) = split_char separator t in first ∷ rest

-- `"\n".join(lines)`
abbrev pub join_lines : List Text → Text
join_lines [] = []
join_lines (line ∷ []) = line
join_lines (line ∷ next ∷ lines) = line ++ 10 ∷ join_lines (next ∷ lines)

-- `_BLANK_LINES.sub("\n\n", text)`: of a run of line ends two stay at most.
unfoldable pub collapse_lines : ℕ → Text → Text
collapse_lines seen [] = []
collapse_lines seen (c ∷ t) =
    let first = collapse_lines 1 t in
    let second = collapse_lines 2 t in
    let other = collapse_lines 0 t in
    if c == 10
    then (if seen == 0 then 10 ∷ first else if seen == 1 then 10 ∷ second else second)
    else c ∷ other

-- `clean_text`
unfoldable pub clean_text : Text → Text
unfolding join_line_ends collapse_blanks split_on strip collapse_lines
clean_text text =
    let collapsed = collapse_blanks false (map line_end (join_line_ends text)) in
    strip (collapse_lines 0 (join_lines (map strip (split_on 10 collapsed))))

-- `first_present`
unfoldable pub first_present : List (Option Text) → Option Text
unfolding strip
first_present [] = none
first_present (none ∷ values) = first_present values
first_present (some value ∷ values) =
    let rest = first_present values in if is_empty (strip value) then rest else some (strip value)

-- `.replace("Z", "+00:00")`
abbrev pub spell_out : Text → Text
spell_out [] = []
spell_out (c ∷ t) = let rest = spell_out t in if c == 90 then codes "+00:00" ++ rest else c ∷ rest

-- `parsed if parsed.tzinfo is not None else parsed.replace(tzinfo=UTC)`
abbrev pub in_utc : ParsedTime → ℕ
in_utc (aware t) = t
in_utc (naive t) = t

-- `parse_datetime`
unfoldable pub parse_datetime : Readers → Option Text → Option ℕ
unfolding strip
parse_datetime readers none = none
parse_datetime readers (some value) =
    if is_empty (strip value)
    then none
    else (elim (readers.from_isoformat (spell_out (strip value))) [
      | none ↦ none
      | some t ↦ some (in_utc t)
    ])

-- `split_keywords`
unfoldable pub split_keywords : Option Text → List Text
unfolding strip split_on
split_keywords none = []
split_keywords (some value) =
    keep (λ (item : Text). not (is_empty item)) (map strip (split_on 44 value))

abbrev pub no_metadata : DocumentMetadata
no_metadata = record {
  title = none;
  author = none;
  description = none;
  published_at = none;
  language = none;
  keywords = [];
  extra = [];
}

-- `PlainTextParser.parse`
unfoldable pub parse_plain_text : Parser
unfolding clean_text
parse_plain_text payload = elim payload.text [
  | none ↦ err document_parse_failed
  | some text ↦ ok (record { text = clean_text text; metadata = no_metadata; outline = [] })
]

-- `resolve_parser`
unfoldable pub resolve_parser : List (ContentType × Parser) → ContentType → Action Parser
resolve_parser [] content_type = raise unsupported_content_type
resolve_parser ((key, parser) ∷ parsers) content_type =
    let rest = resolve_parser parsers content_type in
    if content_type_rank key == content_type_rank content_type then pure parser else rest
