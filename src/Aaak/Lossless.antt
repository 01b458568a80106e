-- ===== src/Aaak/Lossless.antt =====
-- `_parse_memory_line` of kemory/compression/aaak.py undoes `_serialise_memory`.
use kemory_community.Prelude.{
  ◌≡◌, refl, sym, ap, ◌∙◌, Text, text, text_eq, text_eq_iff, starts_with, true, false, ◌⊎◌, inl,
  inr, Option, none, some, List, [], ◌∷◌, All, In, In-cons, map, Bool-cases, Option-cases, arith,
}
use kemory_community.Prelude.Dict.{Dict, lookup, insert, str_eq, lookup-insert}
use kemory_community.Prelude.Order.{sort, sort-Shuffled, In-of_Shuffled}
use kemory_community.Compression.Cache.{text_le}
use kemory_community.Aaak.Value.{escape_value}
use kemory_community.Aaak.LineRoundTrip.{Carried}
use kemory_community.Aaak.Strip.{Fields}
use kemory_community.Aaak.Tokens.{tokens_of, find_all-serialise}
use kemory_community.Aaak.Record.{
  JsonCodec, field_to_alias, Any, as_text, other_fields, fields_of, serialise_memory, decode_fields,
  parse_memory_line,
}
use kemory_community.Aaak.Exact.{
  lookup-All, lookup-In, alias-LeadsBack, id_alias, Exact, Kept, known, known_field, unknown_field,
  decode-Exact,
}

module _ (j : JsonCodec) where
  module _ (mem : Dict Text (Any j)) (kept : All (λ p. Kept j p.0 p.1) mem) where
    kept_value :
        (k a : Text) (v : Any j)
        → lookup k field_to_alias ≡ some a
        → lookup k mem ≡ some v
        → Carried (as_text j v) × Exact j k v
    kept_value k a v is_known found = elim (lookup-All (Kept j) k v mem kept found) [
      | inl unknown ↦ cc (sym unknown ∙ is_known)
      | inr fine ↦ fine
    ]

    -- The token of a known field sets it.
    decode-token :
        (k a : Text) (v : Any j) (ts : List (Text × Text)) (out : Dict Text (Any j))
        → lookup k field_to_alias ≡ some a
        → lookup k mem ≡ some v
        → decode_fields j ((a, escape_value (as_text j v)) ∷ ts) out
          ≡ decode_fields j ts (insert k v out)
    unfolding decode_fields
    decode-token k a v ts out is_known found =
        let back = (alias-LeadsBack k a is_known).0 in
        let same = decode-Exact j k v (kept_value k a v is_known found).1 in
        rw (decode_fields, back, same) refl

    abbrev after_others : List Text → Dict Text (Any j) → Dict Text (Any j)
    after_others ks out = decode_fields j (tokens_of (other_fields j mem ks)) out

    -- A key of the loop is passed over, or its value is set.
    others-cases :
        (k : Text) (ks : List Text) (out : Dict Text (Any j))
        → ((after_others (k ∷ ks) out ≡ after_others ks out)
            × ((text_eq k (text "id") ≡ true)
                ⊎ (lookup k field_to_alias ≡ none)
                ⊎ (lookup k mem ≡ none)))
          ⊎ ((v : Any j) × (known j k mem ≡ some v)
              × (after_others (k ∷ ks) out ≡ after_others ks (insert k v out)))
    unfolding other_fields tokens_of
    others-cases k ks out = elim (Bool-cases (text_eq k (text "id"))) [
      | inl t ↦ inl (rw t refl, inl t)
      | inr n ↦ elim (Option-cases (lookup k field_to_alias)) [
        | inl unknown ↦ inl (rw (n, unknown) refl, inr (inl unknown))
        | inr (a, is_known) ↦ elim (Option-cases (lookup k mem)) [
          | inl missing ↦ inl (rw (n, is_known, missing) refl, inr (inr missing))
          | inr (v, found) ↦ inr (
            v,
            known_field j mem k a is_known ∙ found,
            rw (n, is_known, found) (decode-token k a v _ out is_known found),
          )
        ]
      ]
    ]

    set_field :
        (k g : Text) (v : Any j) (out : Dict Text (Any j))
        → known j k mem ≡ some v
        → (text_eq k g ≡ true) ⊎ (lookup g out ≡ known j g mem)
        → lookup g (insert k v out) ≡ known j g mem
    set_field k g v out is_v h = elim (Bool-cases (text_eq k g)) [
      | inl t ↦
          lookup-insert k g v out
          ∙ rw t (sym is_v ∙ ap (λ f. known j f mem) ((text_eq_iff k g).0 t))
      | inr n ↦ elim h [ inl t ↦ cc (sym n ∙ t) | inr same ↦ lookup-insert k g v out ∙ rw n same ]
    ]

    -- A field that is settled stays so.
    others-settled :
        (g : Text) (ks : List Text) (out : Dict Text (Any j))
        → lookup g out ≡ known j g mem
        → lookup g (after_others ks out) ≡ known j g mem
    unfolding other_fields tokens_of decode_fields
    others-settled g [] out h = h
    others-settled g (k ∷ ks) out h = elim (others-cases k ks out) [
      | inl (same, reason) ↦ ap (lookup g) same ∙ others-settled g ks out h
      | inr (v, is_v, same) ↦
          ap (lookup g) same
          ∙ others-settled g ks (insert k v out) (set_field k g v out is_v (inr h))
    ]

    -- A known field of the memory but "id" is settled by the loop over its keys.
    others-found :
        (g a : Text) (v : Any j) (ks : List Text) (out : Dict Text (Any j))
        → text_eq g (text "id") ≡ false
        → lookup g field_to_alias ≡ some a
        → lookup g mem ≡ some v
        → In g ks
        → lookup g (after_others ks out) ≡ known j g mem
    others-found g a v [] out no_id is_known found i = elim i [ ]
    others-found g a v (k ∷ ks) out no_id is_known found i = elim (others-cases k ks out) [
      | inr (w, is_w, same) ↦ elim (In-cons i) [
        | inl e ↦
            ap (lookup g) same
            ∙ others-settled g ks (insert k w out)
                (set_field k g w out is_w (inl ((text_eq_iff k g).1 (sym e))))
        | inr later ↦
            ap (lookup g) same ∙ others-found g a v ks (insert k w out) no_id is_known found later
      ]
      | inl (same, reason) ↦ elim (In-cons i) [
        | inr later ↦ ap (lookup g) same ∙ others-found g a v ks out no_id is_known found later
        | inl e ↦ elim reason [
          | inl t ↦ cc (sym no_id ∙ (ap (λ f. text_eq f (text "id")) e ∙ t))
          | inr (inl unknown) ↦ cc (sym is_known ∙ (ap (λ f. lookup f field_to_alias) e ∙ unknown))
          | inr (inr missing) ↦ cc (sym found ∙ (ap (λ f. lookup f mem) e ∙ missing))
        ]
      ]
    ]

    others-Fields : (ks : List Text) → Fields (other_fields j mem ks)
    unfolding other_fields
    others-Fields [] = tt
    others-Fields (k ∷ ks) = elim (Bool-cases (text_eq k (text "id"))) [
      | inl t ↦ rw t (others-Fields ks)
      | inr n ↦ elim (Option-cases (lookup k field_to_alias)) [
        | inl unknown ↦ rw (n, unknown) (others-Fields ks)
        | inr (a, is_known) ↦ elim (Option-cases (lookup k mem)) [
          | inl missing ↦ rw (n, is_known, missing) (others-Fields ks)
          | inr (v, found) ↦
              rw (n, is_known, found)
                (
                  ((alias-LeadsBack k a is_known).1, (kept_value k a v is_known found).0),
                  others-Fields ks,
                )
        ]
      ]
    ]

    abbrev keys : List Text
    keys = sort text_le (map (λ p. p.0) mem)

    memory-Fields : Fields (fields_of j mem)
    unfolding fields_of
    memory-Fields = elim (Option-cases (lookup (text "id") mem)) [
      | inl missing ↦ rw missing (others-Fields keys)
      | inr (v, found) ↦ rw found (
        (
          (alias-LeadsBack (text "id") (text "id") id_alias).1,
          (kept_value (text "id") (text "id") v id_alias found).0,
        ),
        others-Fields keys,
      )
    ]

    -- The dict in which the loop over the other keys begins.
    abbrev begun : Option (Any j) → Dict Text (Any j)
    begun none = []
    begun (some v) = insert (text "id") v []

    decoded-others :
        decode_fields j (tokens_of (fields_of j mem)) []
        ≡ after_others keys (begun (lookup (text "id") mem))
    unfolding fields_of tokens_of
    decoded-others = elim (Option-cases (lookup (text "id") mem)) [
      | inl missing ↦ rw missing refl
      | inr (v, found) ↦ rw found (decode-token (text "id") (text "id") v _ [] id_alias found)
    ]

    begun_other :
        (g : Text) (o : Option (Any j)) → text_eq g (text "id") ≡ false → lookup g (begun o) ≡ none
    unfolding lookup
    begun_other g none no_id = refl
    begun_other g (some v) no_id =
        lookup-insert (text "id") g v []
        ∙ ground (arith, text_eq_iff g (text "id"), text_eq_iff (text "id") g)

    begun_id : (o : Option (Any j)) → lookup (text "id") (begun o) ≡ o
    unfolding lookup insert text_eq
    begun_id none = refl
    begun_id (some v) = refl

    decoded-known :
        (g : Text) → lookup g (after_others keys (begun (lookup (text "id") mem))) ≡ known j g mem
    decoded-known g = elim (Bool-cases (text_eq g (text "id"))) [
      | inl t ↦
          let is_id = (text_eq_iff g (text "id")).0 t in
          ap (λ f. lookup f (after_others keys (begun (lookup (text "id") mem)))) is_id
          ∙ others-settled (text "id") keys _
              (begun_id _ ∙ sym (known_field j mem (text "id") (text "id") id_alias))
          ∙ sym (ap (λ f. known j f mem) is_id)
      | inr no_id ↦
          let empty = begun_other g (lookup (text "id") mem) no_id in
          elim (Option-cases (lookup g field_to_alias)) [
            | inl unknown ↦ others-settled g keys _ (empty ∙ sym (unknown_field j mem g unknown))
            | inr (a, is_known) ↦ elim (Option-cases (lookup g mem)) [
              | inl missing ↦
                  others-settled g keys _ (empty ∙ sym (known_field j mem g a is_known ∙ missing))
              | inr (v, found) ↦
                  others-found g a v keys _ no_id is_known found
                    (In-of_Shuffled (sort-Shuffled text_le _) (lookup-In g v mem found))
            ]
          ]
    ]

  -- A memory each of whose known fields has a value that the format carries and reads back as itself
  -- parses back from its line to a dict with the same value in each known field and with no other
  -- field: None, a text without "~" at the head of a bare one, which in the metadata is no JSON, and a
  -- dict or list in the metadata that its JSON gives back.
  pub parse-serialise_memory :
      (mem : Dict Text (Any j))
      → All (λ p. Kept j p.0 p.1) mem
      → (out : Dict Text (Any j)) × (parse_memory_line j (serialise_memory j mem) ≡ some out)
        × ((g : Text) → lookup g out ≡ known j g mem)
  unfolding parse_memory_line serialise_memory starts_with
  parse-serialise_memory mem kept = (
    after_others mem kept (keys mem kept) (begun mem kept (lookup (text "id") mem)),
    ap some (
        ap (λ ts. decode_fields j ts [])
          (find_all-serialise (fields_of j mem) (memory-Fields mem kept))
        ∙ decoded-others mem kept),
    decoded-known mem kept,
  )
