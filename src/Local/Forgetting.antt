-- ===== src/Local/Forgetting.antt =====
-- `forget_decayed` updates the table row by row, by identifier; each episode ends as if it alone
-- had been looked at.
use kemory_community.Prelude.{
  ℕ, ◌≡◌, Text, text_eq, false, ◌&&◌, Option, List, [], ◌∷◌, All, if◌then◌else◌,
}
use kemory_community.Local.Schema.{Env, Episode}
use kemory_community.Local.Episodes.{has_id, is_valid}
use kemory_community.Local.Forget.{demote, score_of, is_decayed, is_candidate}

module _ (env : Env) (now : ℕ) (floor : env.Float) (ttl_days : Option ℕ) where
  -- What becomes of a candidate.
  abbrev pub settled : Episode env → Episode env
  settled e =
      let scored = record e { decay_score = score_of env now floor e } in
      if is_decayed env now floor ttl_days e then demote env (env.isoformat now) scored else scored

  -- What becomes of an episode.
  abbrev pub forgotten : Option Text → Episode env → Episode env
  forgotten org_id e = if is_candidate env org_id e then settled e else e

  -- No identifier stands twice.
  abbrev pub UniqueIds : List (Episode env) → Type 0
  UniqueIds [] = Unit
  UniqueIds (e ∷ es) = All (λ x. text_eq e.id x.id ≡ false) es × UniqueIds es

  -- The two updates for one row, on one episode.
  step : Episode env → Episode env → Episode env
  step row e =
      let scored =
        if has_id row.id e then record e { decay_score = score_of env now floor row } else e in
      if is_decayed env now floor ttl_days row && has_id row.id scored && is_valid scored
      then demote env (env.isoformat now) scored
      else scored

  run : List (Episode env) → Episode env → Episode env
  run [] e = e
  run (row ∷ rows) e = run rows (step row e)
