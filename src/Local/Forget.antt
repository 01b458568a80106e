-- ===== src/Local/Forget.antt =====
-- `_utility_salience`, `_decay_score` and `forget_decayed` of kemory/storage/local.py.
use kemory_community.Prelude.{
  ℕ, ◌+◌, Text, text, text_eq, Bool, false, ◌&&◌, ◌||◌, Option, none, some, List, [], ◌∷◌, keep,
  ltb, if◌then◌else◌,
}
use kemory_community.Local.Schema.{Env, Episode, Backend}
use kemory_community.Local.Episodes.{has_id, is_valid, touches, update_episodes, update_edges}

module _ (env : Env) where
  abbrev pub or_float : Option env.Float → env.Float → env.Float
  or_float none d = d
  or_float (some x) d = x

  unfoldable pub utility_salience : ℕ → env.Float → env.Float
  utility_salience access_count days_since_last_access =
      let recency_factor =
        env.exp (env.mul (env.neg (env.decimal 5 2)) (env.max env.zero days_since_last_access)) in
      if ltb 0 access_count
      then env.min env.one (env.mul (env.log2 (env.of_nat (access_count + 1))) recency_factor)
      else env.zero

  unfoldable pub decay_score : env.Float → env.Float → ℕ → Option env.Float → env.Float
  unfolding utility_salience
  decay_score days_idle floor access_count days_since_last_access =
      let time_decay = env.pow (env.decimal 5 1) (env.div days_idle (env.decimal 30 0)) in
      let salience = utility_salience access_count (or_float days_since_last_access days_idle) in
      let blended =
        env.add (env.mul (env.decimal 6 1) time_decay) (env.mul (env.decimal 4 1) salience) in
      env.max floor (if ltb 0 access_count then blended else time_decay)

  -- `last_accessed_at` where it is neither None nor empty
  abbrev accessed : Episode env → Option Text
  accessed e = elim e.last_accessed_at [
    | none ↦ none
    | some t ↦ if text_eq t [] then none else some t
  ]

  abbrev reference : Episode env → Text
  reference e = elim (accessed e) [ none ↦ e.created_at | some t ↦ t ]

  unfoldable pub days_idle : ℕ → Episode env → env.Float
  days_idle now e = or_float (env.days_since now (reference e)) env.zero

  unfoldable pub days_since_access : ℕ → Episode env → Option env.Float
  days_since_access now e = elim (accessed e) [ none ↦ none | some t ↦ env.days_since now t ]

  unfoldable pub score_of : ℕ → env.Float → Episode env → env.Float
  unfolding decay_score
  score_of now floor e =
      decay_score (days_idle now e) floor e.access_count (days_since_access now e)

  abbrev pub past_ttl : Option ℕ → env.Float → Bool
  past_ttl none idle = false
  past_ttl (some days) idle = env.lt (env.of_nat days) idle

  unfoldable pub is_decayed : ℕ → env.Float → Option ℕ → Episode env → Bool
  is_decayed now floor ttl_days e =
      env.le (score_of now floor e) floor || past_ttl ttl_days (days_idle now e)

  unfoldable pub demote : Text → Episode env → Episode env
  demote at_ e = record e { invalid_at = some at_; tier = text "demoted" }

  -- The body of the loop for one row that the query returned.
  unfoldable pub forget_row : ℕ → env.Float → Option ℕ → Episode env → Backend env → Backend env
  unfolding demote is_decayed
  forget_row now floor ttl_days row db =
      let scored =
        update_episodes (has_id row.id) (λ e. record e { decay_score = score_of now floor row })
          db.episodes in
      if is_decayed now floor ttl_days row
      then record db {
        episodes =
            update_episodes (λ e. has_id row.id e && is_valid e) (demote (env.isoformat now))
              scored;
        edges =
            update_edges (λ ed. touches row.id ed && env.lt env.tenth ed.weight) env.tenth db.edges;
      }
      else record db { episodes = scored }

  unfoldable pub forget_rows :
      ℕ → env.Float → Option ℕ → List (Episode env) → Backend env → ℕ × Backend env
  unfolding forget_row
  forget_rows now floor ttl_days [] db = (0, db)
  forget_rows now floor ttl_days (row ∷ rows) db =
      let (n, left) = forget_rows now floor ttl_days rows (forget_row now floor ttl_days row db) in
      ((if is_decayed now floor ttl_days row then 1 else 0) + n, left)

  unfoldable pub is_candidate : Option Text → Episode env → Bool
  is_candidate none e = is_valid e
  is_candidate (some o) e = is_valid e && text_eq e.org_id o

  -- The number of episodes that were demoted, with what is left.
  unfoldable pub forget_decayed :
      Option Text → env.Float → Option ℕ → ℕ → Backend env → ℕ × Backend env
  unfolding forget_rows is_candidate
  forget_decayed org_id floor ttl_days now db =
      forget_rows now floor ttl_days (keep (is_candidate org_id) db.episodes) db
