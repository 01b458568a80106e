-- ===== src/Digest/SourceIds.antt =====
-- `_unique`, `_ids_from_source_exchange_ids`, `_combined_source_exchange_ids` and `_chunks` of
-- backend/services/session_digest_service.py.
use kemory_community.Prelude.{
  Text, text, text_eq, text_in, starts_with, Bool, not, ◌||◌, Option, none, some, List, [], ◌∷◌,
  ◌++◌, keep, map, if◌then◌else◌, ◌==◌,
}

-- The loop, with the texts seen so far. None and the empty text are passed over.
unfoldable pub unique_from : List Text → List (Option Text) → List Text
unique_from seen [] = []
unique_from seen (none ∷ vs) = unique_from seen vs
unique_from seen (some v ∷ vs) =
    let passed = unique_from seen vs in
    let taken = unique_from (v ∷ seen) vs in
    if text_eq v [] || text_in v seen then passed else v ∷ taken

unfoldable pub unique : List (Option Text) → List Text
unfolding unique_from
unique vs = unique_from [] vs

-- `value.split(":", 1)[1]`, where the value has a colon
unfoldable pub after_colon : Text → Text
after_colon [] = []
after_colon (c ∷ t) = if c == b':' then t else after_colon t

unfoldable pub with_prefix : Text → List Text → List (Option Text)
unfolding starts_with after_colon
with_prefix p [] = []
with_prefix p (v ∷ vs) =
    let rest = with_prefix p vs in if starts_with v p then some (after_colon v) ∷ rest else rest

-- A value starts with one of the two prefixes at most.
unfoldable pub ids_from_source_exchange_ids : List Text → List Text × List Text
unfolding unique with_prefix
ids_from_source_exchange_ids vs =
    (unique (with_prefix (text "memory:") vs), unique (with_prefix (text "turn:") vs))

abbrev pub is_given : Text → Bool
is_given t = not (text_eq t [])

unfoldable pub combined_source_exchange_ids : List Text → List Text → List Text
combined_source_exchange_ids source_memory_ids source_turn_ids =
    map (λ m. text "memory:" ++ m) (keep is_given source_memory_ids)
    ++ map (λ t. text "turn:" ++ t) (keep is_given source_turn_ids)
