-- ===== src/Local/Graph.antt =====
-- `add_edge`, `get_related` and `resolve_conflict` of kemory/storage/local.py.
use kemory_community.Prelude.{
  ℕ, Text, text_eq, text_in, Bool, true, not, ◌&&◌, Option, none, some, List, [], ◌∷◌, ◌++◌, take,
  if◌then◌else◌,
}
use kemory_community.Local.Schema.{
  Env, Episode, Edge, Backend, Error, Result, ok, err, valid_relation_types,
}
use kemory_community.Local.Episodes.{is_valid, invalidate_episode}

abbrev pub known_type : Option Text → Bool
known_type none = true
known_type (some t) = text_in t valid_relation_types

module _ {env : Env} where
  -- The primary key of the table of edges.
  abbrev pub same_edge : Edge env → Edge env → Bool
  same_edge a b =
      text_eq a.source_id b.source_id
      && text_eq a.target_id b.target_id
      && text_eq a.relation_type b.relation_type

  -- INSERT … ON CONFLICT(source_id, target_id, relation_type) DO UPDATE
  unfoldable pub upsert : Edge env → List (Edge env) → List (Edge env)
  upsert x [] = x ∷ []
  upsert x (ed ∷ eds) =
      if same_edge ed x
      then record ed { weight = x.weight; created_at = x.created_at } ∷ eds
      else ed ∷ upsert x eds

  unfoldable pub add_edge :
      Text → Text → Text → env.Float → ℕ → Backend env → Result Unit × Backend env
  unfolding upsert
  add_edge source_id target_id relation_type weight now db =
      if not (text_in relation_type valid_relation_types)
      then (err Error.invalid_relation_type, db)
      else (
        ok tt,
        record db {
          edges =
              upsert
                (record {
                  source_id = source_id;
                  target_id = target_id;
                  relation_type = relation_type;
                  weight = weight;
                  created_at = env.isoformat now;
                })
                db.edges;
        },
      )

  abbrev pub of_type : Option Text → Edge env → Bool
  of_type none ed = true
  of_type (some t) ed = text_eq ed.relation_type t

  -- The rows of the JOIN for one episode, and for all of them.
  unfoldable pub edges_to :
      Text → Option Text → Episode env → List (Edge env) → List (Episode env × Edge env)
  edges_to id relation_type e [] = []
  edges_to id relation_type e (ed ∷ eds) =
      let rest = edges_to id relation_type e eds in
      if text_eq ed.target_id e.id
        && text_eq ed.source_id id
        && is_valid e
        && of_type relation_type ed
      then (e, ed) ∷ rest
      else rest

  unfoldable pub joined_rows :
      Text → Option Text → List (Episode env) → List (Edge env) → List (Episode env × Edge env)
  unfolding edges_to
  joined_rows id relation_type [] eds = []
  joined_rows id relation_type (e ∷ es) eds =
      edges_to id relation_type e eds ++ joined_rows id relation_type es eds

  unfoldable pub get_related :
      Text → Option Text → ℕ → Backend env → Result (List (Episode env × Edge env))
  get_related id relation_type limit db =
      if not (known_type relation_type)
      then err Error.invalid_relation_type
      else ok (
          take limit (
            env.heaviest_first (λ r. r.1.weight)
              (joined_rows id relation_type db.episodes db.edges)))

  unfoldable pub resolve_conflict :
      Text → Text → Text → ℕ → ℕ → Backend env → Result Bool × Backend env
  resolve_conflict source_id target_id resolution now later db =
      if not (text_in resolution valid_relation_types)
      then (err Error.invalid_resolution, db)
      else let linked = (add_edge target_id source_id resolution env.one now db).1 in
        let (was_valid, left) = invalidate_episode source_id (env.isoformat later) linked in
        (ok was_valid, left)
