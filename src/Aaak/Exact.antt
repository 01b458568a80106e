-- ===== src/Aaak/Exact.antt =====
-- The aliases of kemory/compression/aaak.py, and the values that `_escape_value` and
-- `_parse_memory_line` carry.
use kemory_community.Prelude.{
  ◌≡◌, refl, sym, ap, Text, text, text_eq, text_eq_iff, false, ◌⊎◌, inl, inr, Option, none, some,
  [], ◌∷◌, All, In, here, there, map, Bool-cases, arith,
}
use kemory_community.Prelude.Dict.{Dict, lookup, str_eq}
use kemory_community.Aaak.Value.{tilde, escape_value, unescape_value}
use kemory_community.Aaak.ValueRoundTrip.{unescape-escape_value}
use kemory_community.Aaak.Line.{is_alias}
use kemory_community.Aaak.LineRoundTrip.{IsAlias, Carried}
use kemory_community.Aaak.Record.{
  Value, JsonCodec, alias_to_field, field_to_alias, Any, as_text, decode_value,
}

-- What holds of all entries holds of those that are found.
pub lookup-All :
    {V : Type 0} (P : Text → V → Type 0) (k : Text) (v : V) (d : Dict Text V)
    → All (λ p. P p.0 p.1) d
    → lookup k d ≡ some v
    → P k v
unfolding lookup
lookup-All P k v [] h e = cc e
lookup-All P k v ((i, w) ∷ d) h e = elim (Bool-cases (text_eq i k)) [
  | inr f ↦ lookup-All P k v d h.1 (rw f at e)
  | inl t ↦
      let found : some w ≡ some v = rw t at e in
      let same : w ≡ v = cc found in rw (sym same, sym ((text_eq_iff i k).0 t)) h.0
]

pub lookup-In :
    {V : Type 0} (k : Text) (v : V) (d : Dict Text V)
    → lookup k d ≡ some v
    → In k (map (λ p. p.0) d)
unfolding lookup
lookup-In k v [] e = cc e
lookup-In k v ((i, w) ∷ d) e = elim (Bool-cases (text_eq i k)) [
  | inr f ↦ there (lookup-In k v d (rw f at e))
  | inl t ↦ here (sym ((text_eq_iff i k).0 t))
]

-- The alias of a field is made of alias characters and leads back to the field.
abbrev pub LeadsBack : Text → Text → Type 0
LeadsBack field a = (lookup a alias_to_field ≡ some field) × IsAlias a

aliases : All (λ p. LeadsBack p.0 p.1) field_to_alias
unfolding lookup is_alias text_eq
aliases = (
  (refl, (refl, (refl, tt))),
  (
    (refl, (refl, (refl, tt))),
    (
      (refl, (refl, tt)),
      (
        (refl, (refl, tt)),
        (
          (refl, (refl, tt)),
          (
            (refl, (refl, tt)),
            (
              (refl, (refl, tt)),
              (
                (refl, (refl, tt)),
                (
                  (refl, (refl, tt)),
                  (
                    (refl, (refl, (refl, (refl, tt)))),
                    (
                      (refl, (refl, (refl, (refl, tt)))),
                      ((refl, (refl, (refl, tt))), ((refl, (refl, (refl, (refl, tt)))), tt)),
                    ),
                  ),
                ),
              ),
            ),
          ),
        ),
      ),
    ),
  ),
)

pub alias-LeadsBack : (field a : Text) → lookup field field_to_alias ≡ some a → LeadsBack field a
alias-LeadsBack field a e = lookup-All LeadsBack field a field_to_alias aliases e

pub id_alias : lookup (text "id") field_to_alias ≡ some (text "id")
unfolding lookup text_eq
id_alias = refl

module _ (j : JsonCodec) where
  -- A value that reads back in its field as itself: None; a text other than "~", in the metadata one
  -- that is no JSON; a dict or list in the metadata, where its JSON is read back.
  abbrev pub Exact : Text → Any j → Type 0
  Exact field Value.null = Unit
  Exact field (Value.string s) =
      (text_eq s tilde ≡ false)
      × ((text_eq field (text "metadata") ≡ false) ⊎ (s ≡ []) ⊎ (j.loads s ≡ none))
  Exact field (Value.structure s) =
      (field ≡ text "metadata")
      × (text_eq (j.dumps s) tilde ≡ false)
      × (text_eq (j.dumps s) [] ≡ false)
      × (j.loads (j.dumps s) ≡ some (Value.structure s))
  Exact field (Value.other o) = ⊥

  -- An unknown field, or one whose value the line format carries and reads back as itself.
  abbrev pub Kept : Text → Any j → Type 0
  Kept field v = (lookup field field_to_alias ≡ none) ⊎ (Carried (as_text j v) × Exact field v)

  abbrev pub if_known : Option Text → Option (Any j) → Option (Any j)
  if_known none v = none
  if_known (some a) v = v

  -- What is left of a field: nothing of an unknown one.
  abbrev pub known : Text → Dict Text (Any j) → Option (Any j)
  known field mem = if_known (lookup field field_to_alias) (lookup field mem)

  pub known_field :
      (mem : Dict Text (Any j)) (g a : Text)
      → lookup g field_to_alias ≡ some a
      → known g mem ≡ lookup g mem
  known_field mem g a is_known = ap (λ o. if_known o (lookup g mem)) is_known

  pub unknown_field :
      (mem : Dict Text (Any j)) (g : Text) → lookup g field_to_alias ≡ none → known g mem ≡ none
  unknown_field mem g unknown = ap (λ o. if_known o (lookup g mem)) unknown

  pub decode-Exact :
      (field : Text) (v : Any j)
      → Exact field v
      → decode_value j field (unescape_value (escape_value (as_text j v))) ≡ v
  unfolding decode_value
  decode-Exact field Value.null h = rw (unescape-escape_value none) refl
  decode-Exact field (Value.string s) (plain, inl elsewhere) =
      rw (unescape-escape_value (some s), plain, elsewhere) refl
  decode-Exact field (Value.string s) (plain, inr (inl empty)) =
      rw (unescape-escape_value (some s), plain) (ground (arith, text_eq_iff s [], empty))
  decode-Exact field (Value.string s) (plain, inr (inr no_json)) =
      rw (unescape-escape_value (some s), plain, no_json) ground arith
  decode-Exact field (Value.structure s) (is_meta, plain, full, back) =
      rw (unescape-escape_value (some (j.dumps s)), plain, full, back, is_meta)
        (unfold text_eq in refl)
  decode-Exact field (Value.other o) h = absurd h
