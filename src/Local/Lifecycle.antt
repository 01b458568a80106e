-- ===== src/Local/Lifecycle.antt =====
-- What every sequence of the backend's operations keeps.
use kemory_community.Prelude.{
  ℕ, ◌≡◌, Text, text_in, Bool, ◌&&◌, Option, some, List, [], ◌∷◌, ◌++◌, keep, Bool-cases,
  Option-cases, inl, inr,
}
use mathlib.Core.Path.{subst}
use kemory_community.Local.Schema.{Env, Episode, Backend, valid_relation_types}
use kemory_community.Local.Episodes.{
  Metadata, has_id, is_valid, is_demoted, update_episodes, touch, promote, fetch_one,
  get_episode_by_id, invalidate_episode, required, new_episode, insert_episode, add_episode,
}
use kemory_community.Local.Graph.{add_edge, resolve_conflict}
use kemory_community.Local.Forget.{
  demote, score_of, is_decayed, forget_row, forget_rows, is_candidate, forget_decayed,
}

module _ {env : Env} where
  -- The calls that change the tables.
  pub data Step : Backend env → Backend env → Type 0 where
    added :
        (db : Backend env) (ep_id content : Text) (now : ℕ) (m : Metadata)
        → Step db (add_episode ep_id now content m db).1
    read :
        (db : Backend env) (id : Text) (track_access : Bool) (now : ℕ)
        → Step db (get_episode_by_id id track_access now db).1
    invalidated : (db : Backend env) (id at_ : Text) → Step db (invalidate_episode id at_ db).1
    linked :
        (db : Backend env) (source_id target_id relation_type : Text) (weight : env.Float) (now : ℕ)
        → Step db (add_edge source_id target_id relation_type weight now db).1
    resolved :
        (db : Backend env) (source_id target_id resolution : Text) (now later : ℕ)
        → Step db (resolve_conflict source_id target_id resolution now later db).1
    forgot :
        (db : Backend env) (org_id : Option Text) (floor : env.Float) (ttl_days : Option ℕ)
        (now : ℕ)
        → Step db (forget_decayed env org_id floor ttl_days now db).1

  pub data Reach (start : Backend env) : Backend env → Type 0 where
    here : Reach start start
    next : {s t : Backend env} → Reach start s → Step s t → Reach start t

  -- A property of the table of episodes that every statement on it keeps.
  pub record IsKept (S : List (Episode env) → Type 0) : Type 0 where
    pub on_touch :
        (p : Episode env → Bool) (t : Text) (es : List (Episode env))
        → S es
        → S (update_episodes p (touch t) es)
    pub on_promote :
        (p : Episode env → Bool) (es : List (Episode env)) → S es → S (update_episodes p promote es)
    pub on_invalidate :
        (p : Episode env → Bool) (t : Text) (es : List (Episode env))
        → S es
        → S (update_episodes p (λ e. record e { invalid_at = some t }) es)
    pub on_score :
        (p : Episode env → Bool) (x : env.Float) (es : List (Episode env))
        → S es
        → S (update_episodes p (λ e. record e { decay_score = x }) es)
    pub on_demote :
        (p : Episode env → Bool) (t : Text) (es : List (Episode env))
        → S es
        → S (update_episodes p (demote env t) es)
    pub on_new :
        (ep_id : Text) (now : ℕ) (content a s o v : Text) (m : Metadata) (es : List (Episode env))
        → S es
        → S (es ++ new_episode ep_id now content a s o v m ∷ [])

  module _ (S : List (Episode env) → Type 0) (k : IsKept S) where
    abbrev Every : Backend env → Type 0
    Every db = S db.episodes

    required_new :
        (ep_id : Text) (now : ℕ) (content : Text) (m : Metadata) (e : Episode env)
        → required ep_id now content m ≡ some e
        → (es : List (Episode env)) → S es
        → S (es ++ e ∷ [])
    unfolding required
    required_new ep_id now content m e h es held = elim (Option-cases m.source_agent) [
      | inl q ↦ cc (rw q at h)
      | inr (a, q) ↦ elim (Option-cases m.session_id) [
        | inl q2 ↦ cc (rw (q, q2) at h)
        | inr (s, q2) ↦ elim (Option-cases m.org_id) [
          | inl q3 ↦ cc (rw (q, q2, q3) at h)
          | inr (o, q3) ↦ elim (Option-cases m.valid_at) [
            | inl q4 ↦ cc (rw (q, q2, q3, q4) at h)
            | inr (v, q4) ↦
                moved (new_episode ep_id now content a s o v m) (rw (q, q2, q3, q4) at h)
                  (k.on_new ep_id now content a s o v m es held)
          ]
        ]
      ]
    ]
      where
        moved : (x : Episode env) → some x ≡ some e → S (es ++ x ∷ []) → S (es ++ e ∷ [])
        moved x q p = subst (λ y. S (es ++ y ∷ [])) (cc q) p

    Every-add :
        (db : Backend env) (ep_id content : Text) (now : ℕ) (m : Metadata)
        → Every db
        → Every (add_episode ep_id now content m db).1
    unfolding add_episode insert_episode
    Every-add db ep_id content now m a =
        elim (Option-cases (required {env = env} ep_id now content m)) [
          | inl e ↦ rw e a
          | inr (x, e) ↦ rw e (required_new ep_id now content m x e db.episodes a)
        ]

    Every-read :
        (db : Backend env) (id : Text) (track_access : Bool) (now : ℕ)
        → Every db
        → Every (get_episode_by_id id track_access now db).1
    unfolding get_episode_by_id
    Every-read db id track_access now a = elim (Option-cases (fetch_one id db.episodes)) [
      | inl e ↦ rw e a
      | inr (x, e) ↦ elim (Bool-cases track_access) [
        | inr f ↦ rw (e, f) a
        | inl t ↦
            let touched = k.on_touch (has_id id) (env.isoformat now) db.episodes a in
            elim (Bool-cases (is_demoted x)) [
              | inl d ↦ rw (e, t, d) (k.on_promote (has_id id) _ touched)
              | inr d ↦ rw (e, t, d) touched
            ]
      ]
    ]

    Every-invalidate :
        (db : Backend env) (id at_ : Text) → Every db → Every (invalidate_episode id at_ db).1
    unfolding invalidate_episode
    Every-invalidate db id at_ a =
        k.on_invalidate (λ e. has_id id e && is_valid e) at_ db.episodes a

    Every-link :
        (db : Backend env) (source_id target_id relation_type : Text) (weight : env.Float) (now : ℕ)
        → Every db
        → Every (add_edge source_id target_id relation_type weight now db).1
    unfolding add_edge
    Every-link db source_id target_id relation_type weight now a =
        elim (Bool-cases (text_in relation_type valid_relation_types)) [
          | inl t ↦ rw t a
          | inr f ↦ rw f a
        ]

    Every-resolve :
        (db : Backend env) (source_id target_id resolution : Text) (now later : ℕ)
        → Every db
        → Every (resolve_conflict source_id target_id resolution now later db).1
    unfolding resolve_conflict
    Every-resolve db source_id target_id resolution now later a =
        elim (Bool-cases (text_in resolution valid_relation_types)) [
          | inl t ↦ rw t (
              Every-invalidate (add_edge target_id source_id resolution env.one now db).1 source_id
                (env.isoformat later) (Every-link db target_id source_id resolution env.one now a))
          | inr f ↦ rw f a
        ]

    Every-forget_row :
        (db : Backend env) (now : ℕ) (floor : env.Float) (ttl_days : Option ℕ) (row : Episode env)
        → Every db
        → Every (forget_row env now floor ttl_days row db)
    unfolding forget_row
    Every-forget_row db now floor ttl_days row a =
        let scored = k.on_score (has_id row.id) (score_of env now floor row) db.episodes a in
        elim (Bool-cases (is_decayed env now floor ttl_days row)) [
          | inl t ↦
              rw t (k.on_demote (λ e. has_id row.id e && is_valid e) (env.isoformat now) _ scored)
          | inr f ↦ rw f scored
        ]

    Every-forget_rows :
        (db : Backend env) (now : ℕ) (floor : env.Float) (ttl_days : Option ℕ)
        (rows : List (Episode env))
        → Every db
        → Every (forget_rows env now floor ttl_days rows db).1
    unfolding forget_rows
    Every-forget_rows db now floor ttl_days [] a = a
    Every-forget_rows db now floor ttl_days (row ∷ rows) a =
        Every-forget_rows (forget_row env now floor ttl_days row db) now floor ttl_days rows
          (Every-forget_row db now floor ttl_days row a)

    Step-Every : {s t : Backend env} → Step s t → Every s → Every t
    unfolding forget_decayed
    Step-Every (added db ep_id content now m) a = Every-add db ep_id content now m a
    Step-Every (read db id track_access now) a = Every-read db id track_access now a
    Step-Every (invalidated db id at_) a = Every-invalidate db id at_ a
    Step-Every (linked db s t r w now) a = Every-link db s t r w now a
    Step-Every (resolved db s t r now later) a = Every-resolve db s t r now later a
    Step-Every (forgot db org_id floor ttl_days now) a =
        Every-forget_rows db now floor ttl_days (keep (is_candidate env org_id) db.episodes) a

    pub Reach-Every : {s t : Backend env} → Reach s t → Every s → Every t
    Reach-Every here a = a
    Reach-Every (next r st) a = Step-Every st (Reach-Every r a)
