-- ===== src/Aaak/Record.antt =====
-- `_serialise_memory` and `_parse_memory_line` of kemory/compression/aaak.py, with an empty
-- substitution table, which leaves contents as they are. A memory is a dict of fields.
use kemory_community.Prelude.{
  lstrip, rstrip, Text, text, text_eq, starts_with, not, ◌&&◌, Option, none, some, List, [], ◌∷◌,
  length, drop, map, if◌then◌else◌,
}
use kemory_community.Prelude.Dict.{Dict, lookup, insert, str_eq}
use kemory_community.Prelude.Order.{sort}
use kemory_community.Compression.Cache.{text_le}
use kemory_community.Aaak.Value.{unescape_value}
use kemory_community.Aaak.Line.{serialise_fields, find_all}

-- A value: None, a text, a dict or list, or a number or truth value.
pub data Value (Structure Other : Type 0) : Type 0 where
  null : Value Structure Other
  string : Text → Value Structure Other
  structure : Structure → Value Structure Other
  other : Other → Value Structure Other

-- Python's json and str: `dumps` is compact with sorted keys, and `loads` answers `none` where it
-- raises a JSONDecodeError.
pub record JsonCodec : Type 1 where
  pub Structure : Type 0
  pub Other : Type 0
  pub dumps : Structure → Text
  pub str : Other → Text
  pub loads : Text → Option (Value Structure Other)

-- `_ALIAS_TO_FIELD`
abbrev pub alias_to_field : Dict Text Text
alias_to_field =
    (text "id", text "id")
    ∷ (text "ns", text "namespace")
    ∷ (text "t", text "content_type")
    ∷ (text "@", text "created_at")
    ∷ (text "!", text "invalid_at")
    ∷ (text "v", text "valid_at")
    ∷ (text "c", text "content")
    ∷ (text "m", text "metadata")
    ∷ (text "s", text "source_agent")
    ∷ (text "sid", text "session_id")
    ∷ (text "rid", text "round_id")
    ∷ (text "ts", text "tier")
    ∷ (text "vis", text "visibility")
    ∷ []

-- `_FIELD_TO_ALIAS`
abbrev pub field_to_alias : Dict Text Text
field_to_alias = map (λ p. (p.1, p.0)) alias_to_field

module _ (j : JsonCodec) where
  abbrev pub Any : Type 0
  Any = Value j.Structure j.Other

  -- The text that `_escape_value` quotes, `none` for None.
  abbrev pub as_text : Any → Option Text
  as_text Value.null = none
  as_text (Value.string s) = some s
  as_text (Value.structure s) = some (j.dumps s)
  as_text (Value.other o) = some (j.str o)

  abbrev pub with_field :
      Option Text → Option Any → List (Text × Option Text) → List (Text × Option Text)
  with_field none v rest = rest
  with_field (some a) none rest = rest
  with_field (some a) (some v) rest = (a, as_text v) ∷ rest

  -- The loop over the sorted fields: all but "id" and the unknown ones.
  unfoldable pub other_fields : Dict Text Any → List Text → List (Text × Option Text)
  unfolding lookup
  other_fields mem [] = []
  other_fields mem (k ∷ ks) =
      let rest = other_fields mem ks in
      if text_eq k (text "id")
      then rest
      else with_field (lookup k field_to_alias) (lookup k mem) rest

  -- The aliases and values of the line, "id" first.
  unfoldable pub fields_of : Dict Text Any → List (Text × Option Text)
  unfolding other_fields lookup
  fields_of mem =
      with_field (some (text "id")) (lookup (text "id") mem)
        (other_fields mem (sort text_le (map (λ p. p.0) mem)))

  unfoldable pub serialise_memory : Dict Text Any → Text
  unfolding serialise_fields fields_of
  serialise_memory mem = b'M' ∷ serialise_fields (fields_of mem)

  abbrev loaded : Text → Option Any → Any
  loaded s none = Value.string s
  loaded s (some v) = v

  -- A value of the field; a text of the metadata is read as JSON if it is some.
  unfoldable pub decode_value : Text → Option Text → Any
  decode_value field none = Value.null
  decode_value field (some s) =
      if text_eq field (text "metadata") && not (text_eq s [])
      then loaded s (j.loads s)
      else Value.string s

  -- The loop over the tokens. Unknown aliases are passed over, a later token of a field wins.
  unfoldable pub decode_fields : List (Text × Text) → Dict Text Any → Dict Text Any
  unfolding lookup insert decode_value
  decode_fields [] out = out
  decode_fields ((a, raw) ∷ ts) out = elim (lookup a alias_to_field) [
    | none ↦ decode_fields ts out
    | some field ↦ decode_fields ts (insert field (decode_value field (unescape_value raw)) out)
  ]

  -- `none` is the `ValueError` of a line that is no M-line.
  unfoldable pub parse_memory_line : Text → Option (Dict Text Any)
  parse_memory_line line =
      if starts_with line (b'M' ∷ [])
      then (let body = rstrip (lstrip (drop 1 line)) in
          some (decode_fields (find_all (length body) body) []))
      else none
