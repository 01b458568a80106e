-- ===== src/Local/Episodes.antt =====
-- `add_episode`, `get_episode_by_id`, `invalidate_episode` and `list_episodes` of
-- kemory/storage/local.py.
use kemory_community.Prelude.{
  ℕ, ◌+◌, Text, text, text_eq, Bool, true, false, ◌&&◌, ◌||◌, Option, none, some, List, [], ◌∷◌,
  ◌++◌, ◌>>=◌, keep, take, drop, if◌then◌else◌,
}
use kemory_community.Local.Schema.{Env, Episode, Edge, Backend, Error, Result, ok, err}

-- The arguments of `add_episode` from its dict of metadata. `extra` is its JSON, and `facts` is
-- empty where the dict has no list.
pub record Metadata : Type 0 where
  pub source_agent : Option Text
  pub session_id : Option Text
  pub org_id : Option Text
  pub valid_at : Option Text
  pub extra_json : Text
  pub round_id : Option Text
  pub facts : List Text
  pub temporal_anchor : Option Text

abbrev pub has_id : {env : Env} → Text → Episode env → Bool
has_id id e = text_eq e.id id

abbrev pub is_valid : {env : Env} → Episode env → Bool
is_valid e = elim e.invalid_at [ none ↦ true | some t ↦ false ]

-- `" ".join(facts)` behind a space
unfoldable pub joined : List Text → Text
joined [] = []
joined (f ∷ fs) = text " " ++ f ++ joined fs

abbrev index_vec : Text → Option Text → List (Text × Text) → List (Text × Text)
index_vec ep_id none rows = rows
index_vec ep_id (some bytes) rows = rows ++ (ep_id, bytes) ∷ []

abbrev pub touches : {env : Env} → Text → Edge env → Bool
touches id ed = text_eq ed.source_id id || text_eq ed.target_id id

module _ {env : Env} where
  -- UPDATE episodes … WHERE …
  unfoldable pub update_episodes :
      (Episode env → Bool) → (Episode env → Episode env) → List (Episode env) → List (Episode env)
  update_episodes p f [] = []
  update_episodes p f (e ∷ es) = (if p e then f e else e) ∷ update_episodes p f es

  -- UPDATE edges … WHERE …
  unfoldable pub update_edges : (Edge env → Bool) → env.Float → List (Edge env) → List (Edge env)
  update_edges p w [] = []
  update_edges p w (ed ∷ eds) =
      (if p ed then record ed { weight = w } else ed) ∷ update_edges p w eds

  unfoldable pub fetch_one : Text → List (Episode env) → Option (Episode env)
  fetch_one id [] = none
  fetch_one id (e ∷ es) = if has_id id e then some e else fetch_one id es

  -- UPDATE episodes SET invalid_at = ? WHERE id = ? AND invalid_at IS NULL, and whether a row
  -- was updated
  unfoldable pub any_valid : Text → List (Episode env) → Bool
  any_valid id [] = false
  any_valid id (e ∷ es) = has_id id e && is_valid e || any_valid id es

  unfoldable pub invalidate_episode : Text → Text → Backend env → Bool × Backend env
  invalidate_episode id at_ db = (
    any_valid id db.episodes,
    record db {
      episodes =
          update_episodes (λ e. has_id id e && is_valid e) (λ e. record e { invalid_at = some at_ })
            db.episodes;
    },
  )

  -- The UPDATE of `track_access`.
  unfoldable pub touch : Text → Episode env → Episode env
  touch now_iso e = record e { access_count = e.access_count + 1; last_accessed_at = some now_iso }

  unfoldable pub promote : Episode env → Episode env
  promote e = record e { tier = text "active"; invalid_at = none; decay_score = env.one }

  abbrev pub is_demoted : Episode env → Bool
  is_demoted e = text_eq e.tier (text "demoted")

  -- The row that is returned was read before the counter was raised.
  abbrev track : Text → ℕ → Backend env → Episode env → Option (Episode env) × Backend env
  track id now db e =
      let touched = update_episodes (has_id id) (touch (env.isoformat now)) db.episodes in
      if is_demoted e
      then (
        some (promote e),
        record db {
          episodes = update_episodes (has_id id) promote touched;
          edges = update_edges (λ ed. touches id ed && env.lt ed.weight env.one) env.one db.edges;
        },
      )
      else (some e, record db { episodes = touched })

  abbrev found :
      Text → Bool → ℕ → Backend env → Option (Episode env) → Option (Episode env) × Backend env
  found id track_access now db none = (none, db)
  found id track_access now db (some e) = if track_access then track id now db e else (some e, db)

  unfoldable pub get_episode_by_id :
      Text → Bool → ℕ → Backend env → Option (Episode env) × Backend env
  get_episode_by_id id track_access now db = found id track_access now db (fetch_one id db.episodes)

  unfoldable pub is_listed : Option Text → Option Text → Bool → Episode env → Bool
  is_listed org_id session_id include_invalid e =
      (include_invalid || is_valid e)
      && elim org_id [ none ↦ true | some o ↦ text_eq e.org_id o ]
      && elim session_id [ none ↦ true | some s ↦ text_eq e.session_id s ]

  unfoldable pub list_episodes :
      Option Text → Option Text → ℕ → ℕ → Bool → Backend env → List (Episode env)
  list_episodes org_id session_id limit offset include_invalid db = take limit (
      drop offset (
        env.latest_first (λ e. e.created_at)
          (keep (is_listed org_id session_id include_invalid) db.episodes)))

  abbrev pub new_episode : Text → ℕ → Text → Text → Text → Text → Text → Metadata → Episode env
  new_episode ep_id now content source_agent session_id org_id valid_at m = record {
    id = ep_id;
    content = content;
    source_agent = source_agent;
    session_id = session_id;
    org_id = org_id;
    created_at = env.isoformat now;
    valid_at = valid_at;
    invalid_at = none;
    extra_json = m.extra_json;
    round_id = m.round_id;
    facts = m.facts;
    temporal_anchor = m.temporal_anchor;
    decay_score = env.one;
    last_accessed_at = none;
    access_count = 0;
    tier = text "active";
  }

  -- The rows that `add_episode` inserts.
  unfoldable pub insert_episode : Episode env → Backend env → Backend env
  unfolding joined
  insert_episode e db = record db {
    episodes = db.episodes ++ e ∷ [];
    episodes_fts =
        if db.fts_enabled
        then db.episodes_fts ++ (e.id, e.content ++ joined e.facts) ∷ []
        else db.episodes_fts;
    vec_episodes =
        if db.vec_enabled
        then index_vec e.id (env.embed e.content) db.vec_episodes
        else db.vec_episodes;
  }

  unfoldable pub required : Text → ℕ → Text → Metadata → Option (Episode env)
  required ep_id now content m = do
    a ← m.source_agent
    s ← m.session_id
    o ← m.org_id
    v ← m.valid_at
    some (new_episode ep_id now content a s o v m)

  abbrev added : Backend env → Option (Episode env) → Result Text × Backend env
  added db none = (err Error.missing_metadata, db)
  added db (some e) = (ok e.id, insert_episode e db)

  unfoldable pub add_episode : Text → ℕ → Text → Metadata → Backend env → Result Text × Backend env
  unfolding insert_episode
  add_episode ep_id now content m db = added db (required ep_id now content m)
