-- ===== src/Knowledge/Metadata.antt =====
-- `_merge_metadata` and `_resolve_title` of backend/src/knowledge/service.py.
use mini_company.Prelude.{
  ℕ, Bool, not, any, Option, none, some, List, [], ◌∷◌, keep, take, if◌then◌else◌,
}
use mini_company.Prelude.Text.{Text, codes, strip, text_eq, get, assign}
use mini_company.Knowledge.Chunking.Base.{is_empty}
use mini_company.Knowledge.Domain.{DocumentMetadata}
use mini_company.Knowledge.Parsing.{Readers, normalize_metadata_key, parse_datetime, split_keywords}

abbrev pub untitled : Text
untitled = codes "제목 없음"

abbrev pub title_max : ℕ
title_max = 200

-- `_resolve_title`
unfoldable pub first_title : List (Option Text) → Text
unfolding strip
first_title [] = untitled
first_title (none ∷ candidates) = first_title candidates
first_title (some candidate ∷ candidates) =
    let rest = first_title candidates in
    if is_empty (strip candidate) then rest else take title_max (strip candidate)

unfoldable pub resolve_title : Option Text → DocumentMetadata → Text
unfolding first_title
resolve_title hint metadata = first_title (hint ∷ metadata.title ∷ [])

-- `normalized.get(name) or value`
abbrev pub or_value : Option Text → Option Text → Option Text
or_value none value = value
or_value (some text) value = if is_empty text then value else some text

abbrev pub or_keywords : List Text → List Text → List Text
or_keywords [] keywords = keywords
or_keywords (k ∷ given) keywords = k ∷ given

abbrev pub or_time : Option ℕ → Option ℕ → Option ℕ
or_time none time = time
or_time (some t) time = some t

-- `{**extra, **d}`
abbrev pub assign_all : List (Text × Text) → List (Text × Text) → List (Text × Text)
assign_all extra [] = extra
assign_all extra ((key, value) ∷ d) = assign_all (assign key value extra) d

-- `{normalize_metadata_key(key): value for key, value in hints.items()}`, on the entries so far
abbrev pub normalize : Readers → List (Text × Text) → List (Text × Text) → List (Text × Text)
normalize readers done [] = done
normalize readers done ((key, value) ∷ hints) =
    normalize readers (assign (normalize_metadata_key readers key) value done) hints

-- `absorbed`
abbrev pub absorbed : List Text
absorbed =
    codes "title"
    ∷ codes "author"
    ∷ codes "description"
    ∷ codes "published_at"
    ∷ codes "language"
    ∷ codes "keywords"
    ∷ []

abbrev pub is_absorbed : Text × Text → Bool
is_absorbed (key, value) = any (λ name. text_eq name key) absorbed

-- `_merge_metadata`
unfoldable pub merge_metadata : Readers → DocumentMetadata → List (Text × Text) → DocumentMetadata
unfolding parse_datetime split_keywords get
merge_metadata readers parsed [] = parsed
merge_metadata readers parsed (hint ∷ hints) =
    let normalized = normalize readers [] (hint ∷ hints) in
    record {
      title = or_value (get (codes "title") normalized) parsed.title;
      author = or_value (get (codes "author") normalized) parsed.author;
      description = or_value (get (codes "description") normalized) parsed.description;
      published_at =
          or_time (parse_datetime readers (get (codes "published_at") normalized))
            parsed.published_at;
      language = or_value (get (codes "language") normalized) parsed.language;
      keywords = or_keywords (split_keywords (get (codes "keywords") normalized)) parsed.keywords;
      extra =
          assign_all parsed.extra
            (keep (λ (entry : Text × Text). not (is_absorbed entry)) normalized);
    }
