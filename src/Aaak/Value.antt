-- ===== src/Aaak/Value.antt =====
-- `_escape_value` and `_unescape_value` of kemory/compression/aaak.py. A value is `none` for None,
-- and otherwise the text that `str(v)` or `json.dumps(v, …)` has made of it.
use kemory_community.Prelude.{
  ℕ, Text, text_eq, Bool, true, false, ◌&&◌, ◌||◌, Option, none, some, [], ◌∷◌, ◌++◌, ◌==◌,
  if◌then◌else◌,
}

abbrev pub backslash : ℕ
backslash = 92

abbrev pub quote : ℕ
quote = 34

-- `s.replace(c, w)` for a text `c` of one character
unfoldable pub replace : ℕ → Text → Text → Text
replace c w [] = []
replace c w (d ∷ s) = (if d == c then w else d ∷ []) ++ replace c w s

-- The five replacements, in their order.
unfoldable pub escape : Text → Text
unfolding replace
escape s = replace 9 (backslash ∷ b't' ∷ []) (
    replace 13 (backslash ∷ b'r' ∷ []) (
      replace 10 (backslash ∷ b'n' ∷ []) (
        replace quote (backslash ∷ quote ∷ []) (replace backslash (backslash ∷ backslash ∷ []) s))))

abbrev pub is_special : ℕ → Bool
is_special c = c == 32 || c == 9 || c == 10 || c == 13 || c == b'=' || c == quote || c == backslash

unfoldable pub any_special : Text → Bool
any_special [] = false
any_special (c ∷ s) = is_special c || any_special s

-- `s == "" or s.startswith("$") or any(…)`
unfoldable pub needs_quoting : Text → Bool
unfolding any_special
needs_quoting [] = true
needs_quoting (c ∷ s) = c == b'$' || any_special (c ∷ s)

abbrev pub tilde : Text
tilde = b'~' ∷ []

unfoldable pub escape_value : Option Text → Text
escape_value none = tilde
escape_value (some s) = if needs_quoting s then quote ∷ escape s ++ quote ∷ [] else s

-- The character that an escaped one stands for.
unfoldable pub unescape_char : ℕ → ℕ
unescape_char c = if c == b'n' then 10 else if c == b'r' then 13 else if c == b't' then 9 else c

-- The loop over `inner`.
unfoldable pub unescape : Text → Text
unfolding unescape_char
unescape [] = []
unescape (c ∷ []) = c ∷ []
unescape (c ∷ d ∷ s) = if c == backslash then unescape_char d ∷ unescape s else c ∷ unescape (d ∷ s)

-- `t.endswith('"')`
unfoldable pub ends_quoted : Text → Bool
ends_quoted [] = false
ends_quoted (c ∷ []) = c == quote
ends_quoted (c ∷ d ∷ s) = ends_quoted (d ∷ s)

-- `t[:-1]`
unfoldable pub drop_last : Text → Text
drop_last [] = []
drop_last (c ∷ []) = []
drop_last (c ∷ d ∷ s) = c ∷ drop_last (d ∷ s)

abbrev pub drop_first : Text → Text
drop_first [] = []
drop_first (c ∷ s) = s

abbrev pub starts_quoted : Text → Bool
starts_quoted [] = false
starts_quoted (c ∷ s) = c == quote

unfoldable pub unescape_value : Text → Option Text
unescape_value s =
    if text_eq s tilde
    then none
    else if starts_quoted s && ends_quoted s
    then some (unescape (drop_last (drop_first s)))
    else some s
