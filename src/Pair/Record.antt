-- ===== src/Pair/Record.antt =====
-- `PairRecord` and `_generate_code` of backend/services/pair_service.py. Times are in microseconds.
use kemory_community.Prelude.{
  ℕ, zero, suc, ◌+◌, Text, text, Bool, true, false, Option, none, some, [], ◌∷◌, ◌++◌, ltb,
}

pub record PairRecord : Type 0 where
  pub code : Text
  pub user_id : Text
  pub org_id : Text
  pub created_at : ℕ
  pub expires_at : ℕ
  pub purpose : Text
  pub claimed_at : Option ℕ
  pub agent_id : Option Text
  pub agent_name : Option Text
  pub client_name : Option Text

-- Five minutes.
abbrev pub pair_ttl : ℕ
pair_ttl = 300_000_000

abbrev pub code_alphabet : Text
code_alphabet = text "23456789ABCDEFGHJKMNPQRSTUVWXYZ"

abbrev pub is_some {ℓ} : {A : Type ℓ} → Option A → Bool
is_some none = false
is_some (some a) = true

unfoldable pub is_claimed : PairRecord → Bool
is_claimed r = is_some r.claimed_at

unfoldable pub is_expired : PairRecord → ℕ → Bool
is_expired r now = ltb r.expires_at now

-- `secrets.choice(_CODE_ALPHABET)` for a drawn index below the length.
unfoldable pub choice : Text → ℕ → Text
choice [] i = []
choice (c ∷ cs) zero = c ∷ []
choice (c ∷ cs) (suc i) = choice cs i

unfoldable pub pick : ℕ → (ℕ → ℕ) → Text
unfolding choice
pick zero draw = []
pick (suc n) draw = choice code_alphabet (draw n) ++ pick n draw

unfoldable pub generate_code : (ℕ → ℕ) → (ℕ → ℕ) → Text
unfolding pick
generate_code left right = pick 4 left ++ (text "-" ++ pick 4 right)

unfoldable pub fresh_record : Text → Text → Text → Text → ℕ → PairRecord
fresh_record code user_id org_id purpose now = record {
  code = code;
  user_id = user_id;
  org_id = org_id;
  created_at = now;
  expires_at = now + pair_ttl;
  purpose = purpose;
  claimed_at = none;
  agent_id = none;
  agent_name = none;
  client_name = none;
}

-- The assignments of `mark_claimed`.
unfoldable pub claim : PairRecord → Text → Text → Text → ℕ → PairRecord
claim r agent_id agent_name client_name now = record r {
  claimed_at = some now;
  agent_id = some agent_id;
  agent_name = some agent_name;
  client_name = some client_name;
}
