-- ===== src/Tests/Aaak.antt =====
-- Tests of the line format of memories.
use kemory_community.Prelude.{
  ℕ, is_space, lstrip, rstrip, ◌≡◌, refl, Text, text, text_eq, starts_with, none, some, [], ◌∷◌,
  inl, inr, All, if◌then◌else◌, arith,
}
use kemory_community.Prelude.Dict.{Dict, lookup, insert, str_eq}
use kemory_community.Prelude.Order.{sort, place}
use kemory_community.Compression.Cache.{text_le}
use kemory_community.Aaak.Value.{
  escape, escape_value, unescape_value, needs_quoting, unescape, unescape_char, ends_quoted,
  drop_last,
}
use kemory_community.Aaak.ValueRoundTrip.{read_back, unescape-escape_value}
use kemory_community.Aaak.Line.{
  serialise_fields, is_alias, span, read_bare, read_quoted, read_value, match_token, find_all,
}
use kemory_community.Aaak.Record.{
  Value, JsonCodec, Any, other_fields, fields_of, serialise_memory, decode_value, decode_fields,
  parse_memory_line,
}
use kemory_community.Aaak.Exact.{Kept, known}
use kemory_community.Aaak.Lossless.{parse-serialise_memory}

abbrev tags : Text
tags = text "[\"a\",1]"

-- One list, a number, and a JSON that knows the list's text.
abbrev json : JsonCodec
json = record {
  Structure = Unit;
  Other = ℕ;
  dumps = λ x. tags;
  str = λ n. b'0' ∷ [];
  loads = λ s. if text_eq s tags then some (Value.structure tt) else none;
}

abbrev memory : Dict Text (Any json)
memory =
    (text "metadata", Value.structure tt)
    ∷ (text "content", Value.string (text "see \"x\" = y"))
    ∷ (text "invalid_at", Value.null)
    ∷ (text "org_id", Value.other 7)
    ∷ (text "id", Value.string (text "abc"))
    ∷ []

-- "id" is first, then the fields by their names; the unknown one is left out.
serialised :
    serialise_memory json memory ≡ text "M id=abc c=\"see \\\"x\\\" = y\" !=~ m=\"[\\\"a\\\",1]\""
unfolding serialise_memory fields_of other_fields serialise_fields escape_value needs_quoting escape
    lookup sort place text_le text_eq
serialised = refl

unescape-escape_value_example :
    unescape_value (escape_value (some (text "a\\n b"))) ≡ read_back (some (text "a\\n b"))
unescape-escape_value_example = unescape-escape_value (some (text "a\\n b"))

memory-Kept : All (λ p. Kept json p.0 p.1) memory
unfolding is_space needs_quoting lookup text_eq
memory-Kept = (
  inr (inl refl, (refl, refl, refl, refl)),
  (
    inr (inl refl, (refl, inl refl)),
    (
      inr (tt, tt),
      (
        inl refl,
        (inr (inr (refl, ((λ e. omega arith), (refl, (refl, (refl, tt))))), (refl, inl refl)), tt),
      ),
    ),
  ),
)

parse-serialise_memory_example :
    (out : Dict Text (Any json)) × (parse_memory_line json (serialise_memory json memory)
      ≡ some out)
    × ((g : Text) → lookup g out ≡ known json g memory)
parse-serialise_memory_example = parse-serialise_memory json memory memory-Kept

-- A bare value that begins with "~" is not carried: it reads back as None, and its rest is lost.
tilde_lost :
    parse_memory_line json
      (serialise_memory json ((text "content", Value.string (text "~draft")) ∷ []))
    ≡ some ((text "content", Value.null) ∷ [])
unfolding serialise_memory fields_of other_fields serialise_fields escape_value needs_quoting escape
    lookup insert sort place text_le parse_memory_line starts_with lstrip rstrip is_space text_eq
    find_all match_token span is_alias read_value read_bare decode_fields decode_value
    unescape_value
tilde_lost = refl

-- A token of no field is passed over, a later token of a field wins, and metadata is read as JSON.
tokens_decoded :
    parse_memory_line json (text "M zz=a c=x m=\"[\\\"a\\\",1]\" c=y")
    ≡ some ((text "content", Value.string (text "y")) ∷ (text "metadata", Value.structure tt) ∷ [])
unfolding lookup insert parse_memory_line starts_with lstrip rstrip is_space text_eq find_all
    match_token span is_alias read_value read_bare read_quoted decode_fields decode_value
    unescape_value unescape unescape_char ends_quoted drop_last
tokens_decoded = refl
