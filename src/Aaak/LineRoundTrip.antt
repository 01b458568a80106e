-- ===== src/Aaak/LineRoundTrip.antt =====
-- What `_TOKEN_RE` of kemory/compression/aaak.py matches at a written field.
use mathlib.Core.List.{append_assoc, append-nil}
use kemory_community.Prelude.{
  is_space, ℕ, ◌≡◌, ◌≢◌, refl, Text, Bool, true, false, not, Option, none, some, List, [], ◌∷◌,
  ◌++◌, arith, All, inl, inr, ◌⊎◌,
}
use kemory_community.Aaak.Value.{backslash, quote, escape, any_special, needs_quoting, escape_value}
use kemory_community.Aaak.ValueRoundTrip.{escape_char, escape-cons, escape-nil}
use kemory_community.Aaak.Line.{
  space, serialise_fields, is_alias, span, read_quoted, read_bare, read_value, match_token,
}

-- A text that is written bare: no blank in it, and no "~" at its head.
abbrev pub IsBare : Text → Type 0
IsBare [] = ⊥
IsBare (c ∷ s) = (c ≢ b'~') × All (λ d. is_space d ≡ false) (c ∷ s)

-- The values that the line format carries: None, a text that gets quotes, and a bare one.
abbrev pub Carried : Option Text → Type 0
Carried none = Unit
Carried (some s) = (needs_quoting s ≡ true) ⊎ ((needs_quoting s ≡ false) × IsBare s)

abbrev pub IsAlias : Text → Type 0
IsAlias [] = ⊥
IsAlias (c ∷ a) = All (λ d. is_alias d ≡ true) (c ∷ a)

-- What stands behind a value in a line.
abbrev Stops : Text → Type 0
Stops [] = Unit
Stops (c ∷ t) = is_space c ≡ true

span-All :
    (p : ℕ → Bool) (a : Text) (c : ℕ) (t : Text)
    → All (λ d. p d ≡ true) a
    → p c ≡ false
    → span p (a ++ c ∷ t) ≡ (a, c ∷ t)
unfolding span
span-All p [] c t h stop = ground arith
span-All p (d ∷ a) c t h stop = ground (arith, span-All p a c t h.1 stop)

span-end : (p : ℕ → Bool) (a : Text) → All (λ d. p d ≡ true) a → span p a ≡ (a, [])
unfolding span
span-end p [] h = refl
span-end p (d ∷ a) h = ground (arith, span-end p a h.1)

quoted-plain :
    (c : ℕ) (s t r : Text)
    → c ≢ quote
    → c ≢ backslash
    → read_quoted s ≡ some (t, r)
    → read_quoted (c ∷ s) ≡ some (c ∷ t, r)
unfolding read_quoted
quoted-plain c [] t r nq nb h = cc
quoted-plain c (d ∷ s) t r nq nb h = ground arith

quoted-pair :
    (d : ℕ) (s t r : Text)
    → d ≢ 10
    → read_quoted s ≡ some (t, r)
    → read_quoted (backslash ∷ d ∷ s) ≡ some (backslash ∷ d ∷ t, r)
unfolding read_quoted
quoted-pair d s t r nl h = ground arith

read_quoted-escape_char :
    (c : ℕ) (s t r : Text)
    → read_quoted s ≡ some (t, r)
    → read_quoted (escape_char c s) ≡ some (escape_char c t, r)
read_quoted-escape_char c s t r h = ground (
  arith,
  quoted-plain c s t r,
  quoted-pair backslash s t r,
  quoted-pair quote s t r,
  quoted-pair b'n' s t r,
  quoted-pair b'r' s t r,
  quoted-pair b't' s t r,
)

escape_char-append : (c : ℕ) (s t : Text) → escape_char c s ++ t ≡ escape_char c (s ++ t)
escape_char-append c s t = ground arith

read_quoted-end : (t : Text) → read_quoted (quote ∷ t) ≡ some (quote ∷ [], t)
unfolding read_quoted
read_quoted-end [] = refl
read_quoted-end (d ∷ t) = refl

read_quoted-escape :
    (s t : Text) → read_quoted (escape s ++ quote ∷ t) ≡ some (escape s ++ quote ∷ [], t)
read_quoted-escape [] t = rw escape-nil (read_quoted-end t)
read_quoted-escape (c ∷ s) t =
    rw
      (
        escape-cons c s,
        escape_char-append c (escape s) (quote ∷ t),
        escape_char-append c (escape s) (quote ∷ []),
      )
      (read_quoted-escape_char c _ _ t (read_quoted-escape s t))

no_blanks : (s : Text) → All (λ d. is_space d ≡ false) s → All (λ d. not (is_space d) ≡ true) s
no_blanks [] h = tt
no_blanks (c ∷ s) h = (rw h.0, no_blanks s h.1)

equals_stops : is_alias b'=' ≡ false
unfolding is_alias
equals_stops = refl

read_bare-append : (s t : Text) → IsBare s → Stops t → read_bare (s ++ t) ≡ some (s, t)
unfolding read_bare
read_bare-append [] t h stop = absurd h
read_bare-append (c ∷ s) [] h stop =
    rw append-nil (ground (arith, span-end (λ d. not (is_space d)) (c ∷ s) (no_blanks (c ∷ s) h.1)))
read_bare-append (c ∷ s) (d ∷ t) h stop =
    ground (arith, span-All (λ e. not (is_space e)) (c ∷ s) d t (no_blanks (c ∷ s) h.1))

unquoted_head : (c : ℕ) (s : Text) → needs_quoting (c ∷ s) ≡ false → c ≢ quote
unfolding needs_quoting any_special
unquoted_head c s h e = ground arith

read_value-bare :
    (s t : Text) → needs_quoting s ≡ false → IsBare s → Stops t → read_value (s ++ t) ≡ some (s, t)
unfolding read_value
read_value-bare [] t b h stop = absurd h
read_value-bare (c ∷ s) t b h stop =
    ground (arith, unquoted_head c s b, read_bare-append (c ∷ s) t h stop)

read_value-escape_value :
    (v : Option Text) (t : Text)
    → Carried v
    → Stops t
    → read_value (escape_value v ++ t) ≡ some (escape_value v, t)
unfolding read_value escape_value
read_value-escape_value none t h stop = unfold read_bare in refl
read_value-escape_value (some s) t (inl q) stop =
    rw q (ground (arith, append_assoc (escape s) (quote ∷ []) t, read_quoted-escape s t))
read_value-escape_value (some s) t (inr (b, bare)) stop = rw b (read_value-bare s t b bare stop)

pub serialise-Stops : (fs : List (Text × Option Text)) → Stops (serialise_fields fs)
unfolding serialise_fields is_space
serialise-Stops [] = tt
serialise-Stops (f ∷ fs) = refl

pub match_token-field :
    (a : Text) (v : Option Text) (t : Text)
    → IsAlias a
    → Carried v
    → Stops t
    → match_token (a ++ (b'=' ∷ escape_value v ++ t)) ≡ some (a, escape_value v, t)
unfolding match_token
match_token-field [] v t ia cv stop = absurd ia
match_token-field (c ∷ a) v t ia cv stop = ground (
  arith,
  span-All is_alias (c ∷ a) b'=' (escape_value v ++ t) ia equals_stops,
  read_value-escape_value v t cv stop,
)

pub match_token-space : (t : Text) → match_token (space ∷ t) ≡ none
unfolding match_token span is_alias
match_token-space t = refl
