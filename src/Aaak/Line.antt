-- ===== src/Aaak/Line.antt =====
-- The text of the fields of an M-line, and `_TOKEN_RE` of kemory/compression/aaak.py.
use kemory_community.Prelude.{
  is_space, ℕ, zero, suc, Text, Bool, not, ◌&&◌, ◌||◌, Option, none, some, List, [], ◌∷◌, ◌++◌, leb,
  ◌==◌, if◌then◌else◌,
}
use kemory_community.Aaak.Value.{backslash, quote, tilde, escape_value}

abbrev pub space : ℕ
space = 32

-- `" ".join(parts)` behind the "M"
unfoldable pub serialise_fields : List (Text × Option Text) → Text
serialise_fields [] = []
serialise_fields ((alias, v) ∷ fs) = space ∷ alias ++ (b'=' ∷ escape_value v ++ serialise_fields fs)

-- The class `[@!a-z]`.
unfoldable pub is_alias : ℕ → Bool
is_alias c = c == b'@' || c == b'!' || (leb b'a' c && leb c b'z')

-- The longest prefix whose characters pass, and what follows it.
unfoldable pub span : (ℕ → Bool) → Text → Text × Text
span p [] = ([], [])
span p (c ∷ t) = let (a, r) = span p t in if p c then (c ∷ a, r) else ([], c ∷ t)

abbrev pub cons_first : ℕ → Option (Text × Text) → Option (Text × Text)
cons_first c none = none
cons_first c (some (a, r)) = some (c ∷ a, r)

-- `(?:[^"\\]|\\.)*"` behind the opening quote; `.` matches no line feed.
unfoldable pub read_quoted : Text → Option (Text × Text)
read_quoted [] = none
read_quoted (c ∷ []) = if c == quote then some (quote ∷ [], []) else none
read_quoted (c ∷ d ∷ t) =
    let escaped = cons_first c (cons_first d (read_quoted t)) in
    let plain = cons_first c (read_quoted (d ∷ t)) in
    if c == quote
    then some (quote ∷ [], d ∷ t)
    else if c == backslash
    then (if d == 10 then none else escaped)
    else plain

-- `~|\S+`
unfoldable pub read_bare : Text → Option (Text × Text)
read_bare [] = none
read_bare (c ∷ t) =
    if c == b'~'
    then some (tilde, t)
    else if is_space c
    then none
    else some (span (λ d. not (is_space d)) (c ∷ t))

abbrev pub or_bare : Text → Option (Text × Text) → Option (Text × Text)
or_bare t none = read_bare t
or_bare t (some m) = some m

-- The three alternatives for a value, in their order.
unfoldable pub read_value : Text → Option (Text × Text)
read_value [] = none
read_value (c ∷ t) =
    if c == quote then or_bare (c ∷ t) (cons_first quote (read_quoted t)) else read_bare (c ∷ t)

abbrev with_alias : Text → Option (Text × Text) → Option (Text × Text × Text)
with_alias a none = none
with_alias a (some (raw, r)) = some (a, raw, r)

abbrev behind_equals : Text → Text → Option (Text × Text × Text)
behind_equals a [] = none
behind_equals a (c ∷ t) = if c == b'=' then with_alias a (read_value t) else none

abbrev aliased : Text × Text → Option (Text × Text × Text)
aliased ([], r) = none
aliased (c ∷ a, r) = behind_equals (c ∷ a) r

-- A match of `_TOKEN_RE` at the beginning of a text, and what follows it.
unfoldable pub match_token : Text → Option (Text × Text × Text)
match_token t = aliased (span is_alias t)

-- `_TOKEN_RE.findall(t)`, on fuel for the characters of the text.
unfoldable pub find_all : ℕ → Text → List (Text × Text)
find_all zero t = []
find_all (suc f) [] = []
find_all (suc f) (c ∷ t) = elim (match_token (c ∷ t)) [
  | none ↦ find_all f t
  | some (a, raw, r) ↦ (a, raw) ∷ find_all f r
]
