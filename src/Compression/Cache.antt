-- ===== src/Compression/Cache.antt =====
-- `compute_cache_key` and `NamespaceCompressionCache` of kemory/compression/cache.py.
use kemory_community.Prelude.{
  ℕ, Text, text, text_eq, Bool, true, false, not, ◌&&◌, ◌||◌, ◌==◌, Option, none, some, List, [],
  ◌∷◌, ◌++◌, length, ltb, if◌then◌else◌,
}
use kemory_community.Prelude.Dict.{Dict, lookup, insert, remove, pair_eq}
use kemory_community.Prelude.Order.{sort}

-- The order of Python's texts.
unfoldable pub text_le : Text → Text → Bool
text_le [] t = true
text_le (c ∷ s) [] = false
text_le (c ∷ s) (d ∷ t) = ltb c d || (c == d && text_le s t)

-- `"|".join(ids)`
unfoldable pub join_bars : List Text → Text
join_bars [] = []
join_bars (i ∷ []) = i
join_bars (i ∷ j ∷ is) = i ++ (b'|' ∷ join_bars (j ∷ is))

-- The text that is hashed.
unfoldable pub key_payload : List Text → Text → Text → Text
key_payload memory_ids mode merge_mode =
    join_bars (sort text_le memory_ids) ++ (text "||" ++ mode ++ text "::" ++ merge_mode)

-- A hash of texts: `hashlib.sha256(…).hexdigest()`.
module _ (sha256_hex : Text → Text) where
  unfoldable pub compute_cache_key : List Text → Text → Text → Text
  compute_cache_key memory_ids mode merge_mode = sha256_hex (key_payload memory_ids mode merge_mode)

-- The payload is the text of its JSON.
pub record CacheEntry : Type 0 where
  pub key : Text
  pub mode : Text
  pub merge_mode : Text
  pub payload : Text
  pub source_count : ℕ

abbrev pub Entries : Type 0
Entries = Dict (Text × Text) CacheEntry

-- The tests of `get` on the entry that was found.
unfoldable pub checked : Text → Text → Text → Option CacheEntry → Option CacheEntry
checked expected_key mode merge_mode none = none
checked expected_key mode merge_mode (some entry) =
    if not (text_eq entry.key expected_key)
    then none
    else if not (text_eq entry.mode mode) || not (text_eq entry.merge_mode merge_mode)
    then none
    else some entry

module _ (sha256_hex : Text → Text) where
  unfoldable pub get : Text → Text → Text → Text → List Text → Entries → Option CacheEntry
  unfolding checked
  get user_id namespace mode merge_mode memory_ids entries =
      checked (compute_cache_key sha256_hex memory_ids mode merge_mode) mode merge_mode
        (lookup (user_id, namespace) entries)

  unfoldable pub new_entry : Text → Text → List Text → Text → CacheEntry
  new_entry mode merge_mode memory_ids payload = record {
    key = compute_cache_key sha256_hex memory_ids mode merge_mode;
    mode = mode;
    merge_mode = merge_mode;
    payload = payload;
    source_count = length memory_ids;
  }

  unfoldable pub put : Text → Text → Text → Text → List Text → Text → Entries → CacheEntry × Entries
  unfolding new_entry
  put user_id namespace mode merge_mode memory_ids payload entries =
      let entry = new_entry mode merge_mode memory_ids payload in
      (entry, insert (user_id, namespace) entry entries)

unfoldable pub invalidate : Text → Text → Entries → Entries
invalidate user_id namespace entries = remove (user_id, namespace) entries

abbrev pub clear : Entries → Entries
clear entries = []
