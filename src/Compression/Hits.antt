-- ===== src/Compression/Hits.antt =====
-- What a reader of the cache gets after a write or an invalidation.
use kemory_community.Prelude.{
  ◌≡◌, length, ◌⊎◌, refl, sym, ap, ◌∙◌, Text, text_eq, text_eq_iff, true, false, Option, none, some,
  List, [], ◌∷◌, if◌then◌else◌, arith, Bool-cases, inl, inr,
}
use kemory_community.Prelude.Dict.{
  lookup, insert, pair_eq, pair_beq, pair_beq_iff, lookup-insert, lookup-remove,
}
use kemory_community.Prelude.Order.{Shuffled, sort-invariant}
use kemory_community.Compression.Cache.{
  text_le, key_payload, compute_cache_key, CacheEntry, Entries, checked, get, new_entry, put,
  invalidate,
}

text_le_total : (s t : Text) → text_le s t ≡ false → text_le t s ≡ true
unfolding text_le
text_le_total [] t h = cc h
text_le_total (c ∷ s) [] h = refl
text_le_total (c ∷ s) (d ∷ t) h = ground (arith, text_le_total s t)

text_le_trans : (s t u : Text) → text_le s t ≡ true → text_le t u ≡ true → text_le s u ≡ true
unfolding text_le
text_le_trans [] t u h k = refl
text_le_trans (c ∷ s) [] u h k = cc h
text_le_trans (c ∷ s) (d ∷ t) [] h k = cc k
text_le_trans (c ∷ s) (d ∷ t) (e ∷ u) h k = ground (arith, text_le_trans s t u)

text_le_antisym : (s t : Text) → text_le s t ≡ true → text_le t s ≡ true → s ≡ t
unfolding text_le
text_le_antisym [] [] h k = refl
text_le_antisym [] (d ∷ t) h k = cc k
text_le_antisym (c ∷ s) [] h k = cc h
text_le_antisym (c ∷ s) (d ∷ t) h k = ground (arith, text_le_antisym s t)

module _ (sha256_hex : Text → Text) where
  -- The key does not depend on the order in which the memories are named.
  key-Shuffled :
      (ids jds : List Text) (mode merge_mode : Text)
      → Shuffled ids jds
      → compute_cache_key sha256_hex ids mode merge_mode
        ≡ compute_cache_key sha256_hex jds mode merge_mode
  unfolding compute_cache_key key_payload
  key-Shuffled ids jds mode merge_mode sh =
      rw (sort-invariant text_le text_le_trans text_le_total text_le_antisym sh) refl

  checked-same :
      (k mode merge_mode : Text) (e : CacheEntry)
      → e.key ≡ k
      → e.mode ≡ mode
      → e.merge_mode ≡ merge_mode
      → checked k mode merge_mode (some e) ≡ some e
  unfolding checked
  checked-same k mode merge_mode e p q r =
      ground
        (arith, text_eq_iff e.key k, text_eq_iff e.mode mode, text_eq_iff e.merge_mode merge_mode)

  -- A test passes the stored entry, with the key and the modes that were asked for, or nothing.
  checked-cases :
      (k mode merge_mode : Text) (e : CacheEntry)
      → (checked k mode merge_mode (some e) ≡ none)
        ⊎ ((checked k mode merge_mode (some e) ≡ some e)
            × (e.key ≡ k)
            × (e.mode ≡ mode)
            × (e.merge_mode ≡ merge_mode))
  unfolding checked
  checked-cases k mode merge_mode e = elim (Bool-cases (text_eq e.key k)) [
    | inr f ↦ rw f (inl refl)
    | inl t ↦ elim (Bool-cases (text_eq e.mode mode)) [
      | inr f ↦ rw (t, f) (inl refl)
      | inl u ↦ elim (Bool-cases (text_eq e.merge_mode merge_mode)) [
        | inr f ↦ rw (t, u, f) (inl refl)
        | inl v ↦
            rw (t, u, v)
              (inr (refl, (text_eq_iff _ _).0 t, (text_eq_iff _ _).0 u, (text_eq_iff _ _).0 v))
      ]
    ]
  ]

  -- After a write, a reader of the same namespace with the same modes and the same memories, in any
  -- order, gets the entry that was written, with the payload and the number of memories. A reader of it with any modes and memories gets nothing,
  -- or this entry where modes and keys are the same. A reader of another user's or another
  -- namespace's entry, with any modes and memories, gets what it got before; and after an
  -- invalidation of the namespace every reader of it gets nothing.
  pub get-put :
      (user_id namespace mode merge_mode payload : Text) (ids jds : List Text) (entries : Entries)
      (other other_namespace mode' merge_mode' : Text) (ids' : List Text)
      → Shuffled jds ids
      → pair_beq (user_id, namespace) (other, other_namespace) ≡ false
      → let (entry, left) = put sha256_hex user_id namespace mode merge_mode ids payload entries in
        (get sha256_hex user_id namespace mode merge_mode jds left ≡ some entry)
        × (entry.payload ≡ payload)
        × (entry.source_count ≡ length ids)
        × ((get sha256_hex user_id namespace mode' merge_mode' ids' left ≡ none)
            ⊎ ((get sha256_hex user_id namespace mode' merge_mode' ids' left ≡ some entry)
                × (compute_cache_key sha256_hex ids mode merge_mode
                    ≡ compute_cache_key sha256_hex ids' mode' merge_mode')
                × (mode ≡ mode')
                × (merge_mode ≡ merge_mode')))
        × (get sha256_hex other other_namespace mode' merge_mode' ids' left
            ≡ get sha256_hex other other_namespace mode' merge_mode' ids' entries)
        × (get sha256_hex user_id namespace mode' merge_mode' ids'
              (invalidate user_id namespace left)
            ≡ none)
  unfolding put get invalidate
  get-put user_id namespace mode merge_mode payload ids jds entries other other_namespace mode'
        merge_mode' ids' sh differ =
      let k : Text × Text = (user_id, namespace) in
      let o : Text × Text = (other, other_namespace) in
      let entry = new_entry sha256_hex mode merge_mode ids payload in
      let same = (pair_beq_iff k k).1 refl in
      let read = checked (compute_cache_key sha256_hex jds mode merge_mode) mode merge_mode in
      let read' = checked (compute_cache_key sha256_hex ids' mode' merge_mode') mode' merge_mode' in
      let written =
        lookup-insert k k entry entries
        ∙ ap (λ b. if b then some entry else lookup k entries) same in
      (
        ap read written ∙ hit sh,
        unfold new_entry in refl,
        unfold new_entry in refl,
        any_reader written,
        ap read' (
            lookup-insert k o entry entries
            ∙ ap (λ b. if b then some entry else lookup o entries) differ),
        ap read' (
            lookup-remove k k (insert k entry entries)
            ∙ ap (λ b. if b then none else lookup k (insert k entry entries)) same),
      )
    where
      any_reader :
          {found : Option CacheEntry}
          → found ≡ some (new_entry sha256_hex mode merge_mode ids payload)
          → (checked (compute_cache_key sha256_hex ids' mode' merge_mode') mode' merge_mode' found
              ≡ none)
            ⊎ ((checked
                    (compute_cache_key sha256_hex ids' mode' merge_mode')
                    mode'
                    merge_mode'
                    found
                  ≡ some (new_entry sha256_hex mode merge_mode ids payload))
                × (compute_cache_key sha256_hex ids mode merge_mode
                    ≡ compute_cache_key sha256_hex ids' mode' merge_mode')
                × (mode ≡ mode')
                × (merge_mode ≡ merge_mode'))
      any_reader e =
          unfold new_entry in
          rw e (
            checked-cases (compute_cache_key sha256_hex ids' mode' merge_mode') mode' merge_mode'
              (new_entry sha256_hex mode merge_mode ids payload))

      hit :
          Shuffled jds ids
          → checked
              (compute_cache_key sha256_hex jds mode merge_mode)
              mode
              merge_mode
              (some (new_entry sha256_hex mode merge_mode ids payload))
            ≡ some (new_entry sha256_hex mode merge_mode ids payload)
      hit sh =
          unfold new_entry in
          checked-same (compute_cache_key sha256_hex jds mode merge_mode) mode merge_mode
            (new_entry sha256_hex mode merge_mode ids payload)
            (sym (key-Shuffled jds ids mode merge_mode sh)) refl refl
