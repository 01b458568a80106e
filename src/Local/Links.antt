-- ===== src/Local/Links.antt =====
-- Which episodes are reached over edges, and what invalidation and resolution do to them.
use kemory_community.Prelude.{
  ℕ, ◌≡◌, ◌≢◌, ◌≤◌, refl, sym, ap, ◌∙◌, Text, text_eq, text_eq_iff, text_in, true, false, ◌&&◌,
  Option, some, List, [], ◌∷◌, All, In, here, there, In-cons, In-of_append, In-of_take, take,
  length, length-take, Bool-cases, inl, inr, arith,
}
use kemory_community.Prelude.Order.{All-In, In-Shuffled}
use kemory_community.Local.Schema.{Env, Episode, Edge, Backend, ok, valid_relation_types}
use kemory_community.Local.Episodes.{
  has_id, is_valid, update_episodes, any_valid, invalidate_episode,
}
use kemory_community.Local.Graph.{
  known_type, edges_to, joined_rows, get_related, resolve_conflict, of_type,
}

module _ {env : Env} where
  -- The edge `r.1` leads from `id` to the valid episode `r.0`.
  abbrev pub Leads : Text → List (Edge env) → Episode env × Edge env → Type 0
  Leads id eds r =
      (is_valid r.0 ≡ true) × In r.1 eds × (r.1.source_id ≡ id) × (r.1.target_id ≡ r.0.id)

  edge_facts :
      (id : Text) (relation_type : Option Text) (e : Episode env) (ed : Edge env)
      → (text_eq ed.target_id e.id
          && text_eq ed.source_id id
          && is_valid e
          && of_type relation_type ed)
        ≡ true
      → (ed.target_id ≡ e.id) × (ed.source_id ≡ id) × (is_valid e ≡ true)
  edge_facts id relation_type e ed h =
      ground (arith, text_eq_iff ed.target_id e.id, text_eq_iff ed.source_id id)

  edges_to-Leads :
      (id : Text) (relation_type : Option Text) (e : Episode env) (eds : List (Edge env))
      (r : Episode env × Edge env)
      → In r (edges_to id relation_type e eds)
      → (r.0 ≡ e) × Leads id eds r
  unfolding edges_to
  edges_to-Leads id relation_type e [] r m = elim m [ ]
  edges_to-Leads id relation_type e (ed ∷ eds) r m =
      elim (Bool-cases (
        text_eq ed.target_id e.id
        && text_eq ed.source_id id
        && is_valid e
        && of_type relation_type ed)) [
          | inl t ↦ elim (In-cons (rw t at m)) [
            | inl q ↦
                let (target, source, valid) = edge_facts id relation_type e ed t in
                (
                  ap (λ z. z.0) q,
                  (
                    ap (λ z. is_valid z.0) q ∙ valid,
                    here (ap (λ z. z.1) q),
                    ap (λ z. z.1.source_id) q ∙ source,
                    ap (λ z. z.1.target_id) q ∙ target ∙ sym (ap (λ z. z.0.id) q),
                  ),
                )
            | inr n ↦
                let (same, (valid, inside, from, to)) = edges_to-Leads id relation_type e eds r n in
                (same, (valid, there inside, from, to))
          ]
          | inr f ↦
              let (same, (valid, inside, from, to)) =
                edges_to-Leads id relation_type e eds r (rw f at m) in
              (same, (valid, there inside, from, to))
        ]

  joined-Leads :
      (id : Text) (relation_type : Option Text) (es : List (Episode env)) (eds : List (Edge env))
      (r : Episode env × Edge env)
      → In r (joined_rows id relation_type es eds)
      → In r.0 es × Leads id eds r
  unfolding joined_rows
  joined-Leads id relation_type [] eds r m = elim m [ ]
  joined-Leads id relation_type (e ∷ es) eds r m =
      elim (In-of_append (edges_to id relation_type e eds) _ m) [
        | inl n ↦
            let (same, leads) = edges_to-Leads id relation_type e eds r n in (here same, leads)
        | inr n ↦
            let (inside, leads) = joined-Leads id relation_type es eds r n in (there inside, leads)
      ]

  -- Every episode that `get_related` returns is stored and valid, and a stored edge leads to it from
  -- the given one; there are at most as many rows as the limit.
  pub related_valid :
      (id : Text) (relation_type : Option Text) (limit : ℕ) (db : Backend env)
      (rows : List (Episode env × Edge env))
      → get_related id relation_type limit db ≡ ok rows
      → ((r : Episode env × Edge env) → In r rows → In r.0 db.episodes × Leads id db.edges r)
        × (length rows ≤ limit)
  unfolding get_related
  related_valid id relation_type limit db rows h = elim (Bool-cases (known_type relation_type)) [
    | inr f ↦ cc (rw f at h)
    | inl t ↦ page (unwrap (rw t at h))
  ]
    where
      unwrap :
          ok (
              take limit (
                env.heaviest_first
                  (λ r. r.1.weight)
                  (joined_rows id relation_type db.episodes db.edges)))
            ≡ ok rows
          → take limit (
              env.heaviest_first
                (λ r. r.1.weight)
                (joined_rows id relation_type db.episodes db.edges))
            ≡ rows
      unwrap e = cc e

      page :
          take limit (
              env.heaviest_first
                (λ r. r.1.weight)
                (joined_rows id relation_type db.episodes db.edges))
            ≡ rows
          → ((r : Episode env × Edge env) → In r rows → In r.0 db.episodes × Leads id db.edges r)
            × (length rows ≤ limit)
      page e = (
        λ r m. joined-Leads id relation_type db.episodes db.edges r (
            In-Shuffled (env.heaviest_first-Shuffled (λ s. s.1.weight) _)
              (In-of_take limit _ (rw (sym e) at m))),
        rw (sym e) (length-take limit _),
      )

  none_valid :
      (id at_ : Text) (es : List (Episode env))
      → All
          (λ e. (has_id id e && is_valid e) ≡ false)
          (update_episodes
            (λ e. has_id id e && is_valid e)
            (λ e. record e { invalid_at = some at_ })
            es)
  unfolding update_episodes
  none_valid id at_ [] = tt
  none_valid id at_ (e ∷ es) = elim (Bool-cases (has_id id e && is_valid e)) [
    | inl t ↦ rw t (ground arith, none_valid id at_ es)
    | inr f ↦ rw f (f, none_valid id at_ es)
  ]

  nothing_to_do :
      (id at_ : Text) (es : List (Episode env))
      → All (λ e. (has_id id e && is_valid e) ≡ false) es
      → (any_valid id es ≡ false)
        × (update_episodes
              (λ e. has_id id e && is_valid e)
              (λ e. record e { invalid_at = some at_ })
              es
            ≡ es)
  unfolding update_episodes any_valid
  nothing_to_do id at_ [] a = (refl, refl)
  nothing_to_do id at_ (e ∷ es) a =
      let rest = nothing_to_do id at_ es a.1 in (rw (a.0, rest.0) refl, rw (a.0, rest.1) refl)

  -- A second invalidation of an episode answers False and changes nothing: the first time stays.
  pub invalidate_once :
      (id first second : Text) (db : Backend env)
      → let left = (invalidate_episode id first db).1 in
        ((invalidate_episode id second left).0 ≡ false)
        × ((invalidate_episode id second left).1.episodes ≡ left.episodes)
  unfolding invalidate_episode
  invalidate_once id first second db = nothing_to_do id second _ (none_valid id first db.episodes)

  resolved_invalid :
      (source_id target_id resolution : Text) (now later : ℕ) (db : Backend env)
      → text_in resolution valid_relation_types ≡ true
      → All
          (λ e. (has_id source_id e && is_valid e) ≡ false)
          (resolve_conflict source_id target_id resolution now later db).1.episodes
  unfolding resolve_conflict invalidate_episode
  resolved_invalid source_id target_id resolution now later db h =
      rw h (none_valid source_id (env.isoformat later) _)

  -- After a conflict is resolved with a known relation, the source is not among the related
  -- episodes of any episode, the target of the resolution included.
  pub resolve_hides :
      (source_id target_id resolution id : Text) (relation_type : Option Text) (now later limit : ℕ)
      (db : Backend env) (rows : List (Episode env × Edge env))
      → text_in resolution valid_relation_types ≡ true
      → get_related id relation_type limit
          (resolve_conflict source_id target_id resolution now later db).1
        ≡ ok rows
      → (r : Episode env × Edge env) → In r rows
      → r.0.id ≢ source_id
  resolve_hides source_id target_id resolution id relation_type now later limit db rows h e r m
        same =
      let (inside, leads) = (related_valid id relation_type limit _ rows e).0 r m in
      let invalid =
        All-In (λ x. (has_id source_id x && is_valid x) ≡ false) _
          (resolved_invalid source_id target_id resolution now later db h) inside in
      absurd (ground (arith, text_eq_iff r.0.id source_id, leads.0))
