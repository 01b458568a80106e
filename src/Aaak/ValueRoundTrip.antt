-- ===== src/Aaak/ValueRoundTrip.antt =====
-- Escaped values read back.
use kemory_community.Prelude.{
  ℕ, ◌≡◌, ◌≢◌, refl, ap, ◌∙◌, Text, text_eq, text_eq_iff, true, false, Option, none, some, [], ◌∷◌,
  ◌++◌, ◌==◌, if◌then◌else◌, arith, Bool-cases, inl, inr,
}
use kemory_community.Aaak.Value.{
  backslash, quote, escape, needs_quoting, tilde, escape_value, unescape_char, unescape,
  ends_quoted, drop_last, unescape_value,
}

-- What the five replacements make of one character.
abbrev pub escape_char : ℕ → Text → Text
escape_char c rest =
    if c == backslash
    then backslash ∷ backslash ∷ rest
    else if c == quote
    then backslash ∷ quote ∷ rest
    else if c == 10
    then backslash ∷ b'n' ∷ rest
    else if c == 13
    then backslash ∷ b'r' ∷ rest
    else if c == 9
    then backslash ∷ b't' ∷ rest
    else c ∷ rest

pub escape-cons : (c : ℕ) (s : Text) → escape (c ∷ s) ≡ escape_char c (escape s)
unfolding escape
escape-cons c s = ground arith

pub escape-nil : escape [] ≡ []
unfolding escape
escape-nil = refl

unescape-plain : (c : ℕ) (s : Text) → c ≢ backslash → unescape (c ∷ s) ≡ c ∷ unescape s
unfolding unescape
unescape-plain c [] h = refl
unescape-plain c (d ∷ s) h = ground arith

unescape-pair : (d : ℕ) (s : Text) → unescape (backslash ∷ d ∷ s) ≡ unescape_char d ∷ unescape s
unfolding unescape
unescape-pair d s = refl

unescape-escape_char : (c : ℕ) (s : Text) → unescape (escape_char c s) ≡ c ∷ unescape s
unfolding unescape_char
unescape-escape_char c s = ground (
  arith,
  unescape-plain c s,
  unescape-pair backslash s,
  unescape-pair quote s,
  unescape-pair b'n' s,
  unescape-pair b'r' s,
  unescape-pair b't' s,
)

-- The loop undoes the five replacements, on every text.
pub unescape-escape : (s : Text) → unescape (escape s) ≡ s
unescape-escape [] = rw escape-nil (unfold unescape in refl)
unescape-escape (c ∷ s) =
    rw (escape-cons c s, unescape-escape_char c (escape s))
      (ap (λ (t : Text). c ∷ t) (unescape-escape s))

drop_last-append : (s : Text) (c : ℕ) → drop_last (s ++ c ∷ []) ≡ s
unfolding drop_last
drop_last-append [] c = refl
drop_last-append (d ∷ []) c = refl
drop_last-append (d ∷ e ∷ s) c = ap (λ (t : Text). d ∷ t) (drop_last-append (e ∷ s) c)

ends_quoted-append : (s : Text) → ends_quoted (s ++ quote ∷ []) ≡ true
unfolding ends_quoted
ends_quoted-append [] = refl
ends_quoted-append (d ∷ []) = refl
ends_quoted-append (d ∷ e ∷ s) = ends_quoted-append (e ∷ s)

unescape-quoted : (s : Text) → unescape_value (quote ∷ s ++ quote ∷ []) ≡ some (unescape s)
unfolding unescape_value text_eq
unescape-quoted s = ground (arith, ends_quoted-append (quote ∷ s), drop_last-append s quote)

unescape-bare :
    (s : Text)
    → needs_quoting s ≡ false
    → unescape_value s ≡ (if text_eq s tilde then none else some s)
unfolding unescape_value needs_quoting
unescape-bare [] h = cc
unescape-bare (c ∷ s) h = ground arith

bare_tilde : needs_quoting tilde ≡ false
unfolding needs_quoting
bare_tilde = refl

quoted-ne-tilde : (s : Text) → needs_quoting s ≡ true → text_eq s tilde ≡ false
quoted-ne-tilde s q = elim (Bool-cases (text_eq s tilde)) [
  | inl e ↦ cc (ap needs_quoting ((text_eq_iff s tilde).0 e), bare_tilde)
  | inr n ↦ n
]

-- What a value is after a round trip: the text "~" is not told apart from None.
abbrev pub read_back : Option Text → Option Text
read_back none = none
read_back (some s) = if text_eq s tilde then none else some s

-- An escaped value reads back as itself, except that the text "~" reads back as None.
pub unescape-escape_value : (v : Option Text) → unescape_value (escape_value v) ≡ read_back v
unfolding escape_value
unescape-escape_value none = unfold unescape_value text_eq in refl
unescape-escape_value (some s) = elim (Bool-cases (needs_quoting s)) [
  | inl q ↦ rw (q, quoted-ne-tilde s q) (unescape-quoted (escape s) ∙ ap some (unescape-escape s))
  | inr b ↦ rw b (unescape-bare s b)
]
