-- ===== src/Tests/Compression.antt =====
-- Tests of the cache of compressed namespaces.
use kemory_community.Prelude.{
  ◌≡◌, ◌⊎◌, refl, Text, text, text_eq, false, none, some, List, [], ◌∷◌, ◌++◌,
}
use kemory_community.Prelude.Dict.{pair_eq, pair_beq}
use kemory_community.Prelude.Order.{Shuffled, Select, sort, place}
use kemory_community.Compression.Cache.{
  text_le, compute_cache_key, key_payload, join_bars, get, put, invalidate,
}
use kemory_community.Compression.Hits.{get-put}

abbrev hash : Text → Text
hash t = text "#" ++ t

abbrev ids : List Text
ids = text "b" ∷ text "a" ∷ []

abbrev swapped : Shuffled (text "a" ∷ text "b" ∷ []) ids
swapped =
    Shuffled.pick (Select.later (Select.first refl))
      (Shuffled.pick (Select.first refl) Shuffled.none_left)

other_user : pair_beq (text "u", text "n") (text "v", text "n") ≡ false
unfolding text_eq
other_user = refl

get-put_example :
    let (entry, left) = put hash (text "u") (text "n") (text "aaak") [] ids (text "{}") [] in
    (get hash (text "u") (text "n") (text "aaak") [] (text "a" ∷ text "b" ∷ []) left ≡ some entry)
    × (entry.payload ≡ text "{}")
    × (entry.source_count ≡ 2)
    × ((get hash (text "u") (text "n") (text "concepts") (text "auto") ids left ≡ none)
        ⊎ ((get hash (text "u") (text "n") (text "concepts") (text "auto") ids left ≡ some entry)
            × (compute_cache_key hash ids (text "aaak") []
                ≡ compute_cache_key hash ids (text "concepts") (text "auto"))
            × (text "aaak" ≡ text "concepts")
            × ([] ≡ text "auto")))
    × (get hash (text "v") (text "n") (text "concepts") (text "auto") ids left
        ≡ get hash (text "v") (text "n") (text "concepts") (text "auto") ids [])
    × (get hash
          (text "u")
          (text "n")
          (text "concepts")
          (text "auto")
          ids
          (invalidate (text "u") (text "n") left)
        ≡ none)
get-put_example =
    get-put hash (text "u") (text "n") (text "aaak") [] (text "{}") ids (text "a" ∷ text "b" ∷ [])
      [] (text "v") (text "n") (text "concepts") (text "auto") ids swapped other_user

key_of_two : compute_cache_key hash ids (text "m") [] ≡ text "#a|b||m::"
unfolding compute_cache_key key_payload join_bars sort place text_le
key_of_two = refl
