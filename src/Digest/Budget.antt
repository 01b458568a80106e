-- ===== src/Digest/Budget.antt =====
-- `count_tokens` and `fit_text_to_budget` of backend/services/session_digest_service.py, and that
-- the fitted text keeps the budget.
use kemory_community.Prelude.{
  ℕ, ◌+◌, ◌/◌, ◌≡◌, Text, text, Bool, ◌&&◌, ◌||◌, Option, none, some, List, [], ◌∷◌, ◌++◌, length,
  leb, ltb, lstrip, rstrip, ◌==◌, if◌then◌else◌,
}

-- A tokenizer of the package tiktoken; the empty text has no tokens.
pub record Encoding : Type 0 where
  pub encode_length : Text → ℕ
  pub encode-empty : encode_length [] ≡ 0

-- The count, without a tokenizer a third of the characters, rounded up.
unfoldable pub count_tokens : Option Encoding → Text → ℕ
count_tokens none t = (length t + 2) / 3
count_tokens (some e) t = e.encode_length t

-- The characters that end a line for `str.splitlines`.
unfoldable pub ends_line : ℕ → Bool
ends_line c = (leb 10 c && leb c 13) || (leb 28 c && leb c 30) || c == 133 || c == 8232 || c == 8233

abbrev in_first_line : ℕ → List Text → List Text
in_first_line c [] = (c ∷ []) ∷ []
in_first_line c (l ∷ ls) = (c ∷ l) ∷ ls

unfoldable pub splitlines : Text → List Text
unfolding ends_line
splitlines [] = []
splitlines (c ∷ []) = if ends_line c then [] ∷ [] else (c ∷ []) ∷ []
splitlines (c ∷ d ∷ t) =
    let after_both = splitlines t in
    let after_one = splitlines (d ∷ t) in
    if c == 13 && d == 10
    then [] ∷ after_both
    else if ends_line c
    then [] ∷ after_one
    else in_first_line c after_one

-- `"\n".join(lines)`
unfoldable pub join_lines : List Text → Text
join_lines [] = []
join_lines (l ∷ []) = l
join_lines (l ∷ m ∷ ls) = l ++ (10 ∷ join_lines (m ∷ ls))

abbrev pub strip : Text → Text
strip t = rstrip (lstrip t)

abbrev pub marker : Text
marker = text "[additional semantic digest lines omitted to fit token budget]"

abbrev pub with_marker : List Text → Text
with_marker kept = strip (join_lines (kept ++ marker ∷ []))

-- The loop over the lines.
unfoldable pub keep_lines : Option Encoding → ℕ → List Text → List Text → List Text
keep_lines tokens budget kept [] = kept
keep_lines tokens budget kept (line ∷ lines) =
    let next =
      if leb (count_tokens tokens (with_marker (kept ++ line ∷ []))) budget
      then kept ++ line ∷ []
      else kept in
    keep_lines tokens budget next lines

abbrev pub fitted : List Text → Text
fitted [] = marker
fitted (l ∷ ls) = with_marker (l ∷ ls)

unfoldable pub fit_text_to_budget : Option Encoding → Text → ℕ → Text × ℕ
unfolding keep_lines
fit_text_to_budget tokens t budget =
    let whole = strip t in
    let short = fitted (keep_lines tokens budget [] (splitlines whole)) in
    if leb (count_tokens tokens whole) budget
    then (whole, count_tokens tokens whole)
    else if ltb budget (count_tokens tokens marker)
    then ([], count_tokens tokens [])
    else (short, count_tokens tokens short)
