-- ===== src/Aaak/Strip.antt =====
-- `body.strip()` of kemory/compression/aaak.py takes nothing but the first space of a line's fields.
use mathlib.Core.List.{append-nil}
use kemory_community.Prelude.{
  is_space, lstrip, rstrip, ℕ, ◌≤◌, ◌≡◌, refl, ap, ◌∙◌, Text, text_eq, true, false, Option, none,
  some, List, [], ◌∷◌, ◌++◌, arith, All, inl, inr,
}
use kemory_community.Aaak.Value.{quote, escape, escape_value}
use kemory_community.Aaak.Line.{space, serialise_fields, is_alias}
use kemory_community.Aaak.LineRoundTrip.{IsAlias, Carried}

-- A text that does not end in a blank.
abbrev Tight : Text → Type 0
Tight t = (rstrip t ≡ t) × (text_eq t [] ≡ false)

Tight-cons : (c : ℕ) (t : Text) → Tight t → Tight (c ∷ t)
unfolding rstrip text_eq
Tight-cons c t h = ground arith

Tight-append : (s t : Text) → Tight t → Tight (s ++ t)
Tight-append [] t h = h
Tight-append (c ∷ s) t h = Tight-cons c (s ++ t) (Tight-append s t h)

Tight-one : (c : ℕ) → is_space c ≡ false → Tight (c ∷ [])
unfolding rstrip text_eq
Tight-one c h = ground arith

Tight-bare : (c : ℕ) (s : Text) → All (λ d. is_space d ≡ false) (c ∷ s) → Tight (c ∷ s)
Tight-bare c [] h = Tight-one c h.0
Tight-bare c (d ∷ s) h = Tight-cons c (d ∷ s) (Tight-bare d s h.1)

Tight-escape_value : (v : Option Text) → Carried v → Tight (escape_value v)
unfolding escape_value
Tight-escape_value none h = Tight-one b'~' (unfold is_space in refl)
Tight-escape_value (some s) (inl q) =
    rw q (Tight-append (quote ∷ escape s) (quote ∷ []) (Tight-one quote (unfold is_space in refl)))
Tight-escape_value (some []) (inr (b, bare)) = absurd bare
Tight-escape_value (some (c ∷ s)) (inr (b, bare)) = rw b (Tight-bare c s bare.1)

-- The fields of a line that the format carries.
abbrev pub Fields : List (Text × Option Text) → Type 0
Fields fs = All (λ f. IsAlias f.0 × Carried f.1) fs

-- The first field and what follows it, without the space before it.
abbrev pub body_of : Text → Option Text → List (Text × Option Text) → Text
body_of a v fs = a ++ (b'=' ∷ escape_value v ++ serialise_fields fs)

value_tail-Tight :
    (v : Option Text) (fs : List (Text × Option Text))
    → Carried v
    → Fields fs
    → Tight (escape_value v ++ serialise_fields fs)
unfolding serialise_fields
value_tail-Tight v [] cv h = rw append-nil (Tight-escape_value v cv)
value_tail-Tight v ((a, w) ∷ fs) cv h =
    Tight-append (escape_value v) _
      (Tight-cons space _ (Tight-append a _ (Tight-cons b'=' _ (value_tail-Tight w fs h.0.1 h.1))))

alias_range : (c : ℕ) → is_alias c ≡ true → (33 ≤ c) × (c ≤ 122)
unfolding is_alias
alias_range c h = ground arith

printable_not_space : (c : ℕ) → 33 ≤ c → c ≤ 122 → is_space c ≡ false
unfolding is_space
printable_not_space c lo hi = ground arith

lstrip-body : (d : ℕ) (t : Text) → is_space d ≡ false → lstrip (space ∷ d ∷ t) ≡ d ∷ t
unfolding lstrip is_space
lstrip-body d t n = rw n

pub strip-body :
    (a : Text) (v : Option Text) (fs : List (Text × Option Text))
    → IsAlias a
    → Carried v
    → Fields fs
    → rstrip (lstrip (space ∷ body_of a v fs)) ≡ body_of a v fs
strip-body [] v fs ia cv h = absurd ia
strip-body (c ∷ a) v fs ia cv h =
    ap rstrip (lstrip-body c _ (let (lo, hi) = alias_range c ia.0 in printable_not_space c lo hi))
    ∙ (Tight-append (c ∷ a) _ (Tight-cons b'=' _ (value_tail-Tight v fs cv h))).0
