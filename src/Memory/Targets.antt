-- ===== src/Memory/Targets.antt =====
-- The namespaces that the matcher can lead a memory to.
use kemory_community.Prelude.{
  ℕ, ◌≡◌, refl, sym, ◌⊎◌, inl, inr, Text, text_eq, true, not, Option, none, some, List, [], ◌∷◌,
  map, All, In, here, there, In-of_keep, In-cons, Bool-cases, Option-cases, arith,
}
use kemory_community.Prelude.Dict.{Dict, lookup, insert, str_eq}
use kemory_community.Prelude.Order.{All-In, In-Shuffled, sort-Shuffled}
use kemory_community.Memory.Schema.{
  Env, Memory, NamespacePolicy, AiChat, Scope, Db, NamespaceCandidate,
}
use kemory_community.Memory.Tenancy.{is_active, is_readable}
use kemory_community.Memory.Matcher.{
  group_by, belongs, memory_namespaces, chat_namespaces, seen_policies, set_descriptions,
  set_default, set_defaults, existing_namespaces, best_score, ranks, normalize,
}
use kemory_community.Memory.Resolve.{
  find_normalized, create_anew, by_scores, resolve_among, resolve_namespace,
}

All-from : {A : Type 0} (P : A → Type 0) (xs : List A) → ((x : A) → In x xs → P x) → All P xs
All-from P [] h = tt
All-from P (x ∷ xs) h = (h x (here refl), All-from P xs (λ y i. h y (there i)))

In-group_by : (t : Text) (ts : List Text) → In t (group_by ts) → In t ts
unfolding group_by
In-group_by t [] i = i
In-group_by t (u ∷ ts) i = elim (In-cons i) [
  | inl e ↦ here e
  | inr k ↦ there (In-group_by t ts (In-of_keep (λ v. not (text_eq u v)) (group_by ts) k).0)
]

In-of_map :
    {A B : Type 0} (f : A → B) (b : B) (xs : List A)
    → In b (map f xs)
    → (a : A) × In a xs × (f a ≡ b)
In-of_map f b [] i = elim i [ ]
In-of_map f b (x ∷ xs) i = elim (In-cons i) [
  | inl e ↦ (x, here refl, sym e)
  | inr k ↦ let (a, j, e) = In-of_map f b xs k in (a, there j, e)
]

module _ (P : Text → Type 0) where
  abbrev Keys : Dict Text (Option Text) → Type 0
  Keys d = All (λ p. P p.0) d

  insert-Keys :
      (k : Text) (v : Option Text) (d : Dict Text (Option Text))
      → P k
      → Keys d
      → Keys (insert k v d)
  unfolding insert
  insert-Keys k v [] p h = (p, tt)
  insert-Keys k v ((j, w) ∷ d) p h = elim (Bool-cases (text_eq j k)) [
    | inl e ↦ rw (insert, e) h
    | inr f ↦ rw (insert, f) (h.0, insert-Keys k v d p h.1)
  ]

  default-Keys : (k : Text) (d : Dict Text (Option Text)) → P k → Keys d → Keys (set_default k d)
  unfolding set_default
  default-Keys k d p h = elim (Option-cases (lookup k d)) [
    | inl e ↦ rw (set_default, e) (insert-Keys k none d p h)
    | inr (v, e) ↦ rw (set_default, e) h
  ]

  defaults-Keys :
      (ks : List Text) (d : Dict Text (Option Text)) → All P ks → Keys d → Keys (set_defaults ks d)
  unfolding set_defaults
  defaults-Keys [] d ps h = h
  defaults-Keys (k ∷ ks) d ps h = defaults-Keys ks (set_default k d) ps.1 (default-Keys k d ps.0 h)

  descriptions-Keys :
      {env : Env} (ps : List (NamespacePolicy env)) (d : Dict Text (Option Text))
      → All (λ p. P p.namespace) ps
      → Keys d
      → Keys (set_descriptions ps d)
  unfolding set_descriptions
  descriptions-Keys [] d qs h = h
  descriptions-Keys (p ∷ ps) d qs h =
      descriptions-Keys ps _ qs.1 (insert-Keys p.namespace p.description d qs.0 h)

  find-Keys :
      (env : Env) (n ns : Text) (d : Dict Text (Option Text))
      → Keys d
      → find_normalized env n d ≡ some ns
      → P ns
  unfolding find_normalized
  find-Keys env n ns [] h e = cc e
  find-Keys env n ns ((j, w) ∷ d) h e = elim (Bool-cases (text_eq (normalize env j) n)) [
    | inl t ↦
        let hit : some j ≡ some ns = rw (find_normalized, t) at e in
        let same : j ≡ ns = cc hit in rw (sym same) h.0
    | inr f ↦ find-Keys env n ns d h.1 (rw (find_normalized, f) at e)
  ]

  best-Keys :
      (env : Env) (requested : Text) (desc : Option Text) (d : Dict Text (Option Text))
      → Keys d
      → All (λ c. P c.namespace) (best_score env requested desc d)
  unfolding best_score
  best-Keys env requested desc d h =
      All-from (λ c. P c.namespace) _
        (λ c i.
          let (p, j, e) = In-of_map _ c d (In-Shuffled (sort-Shuffled ranks _) i) in
          rw (sym e) (All-In (λ q. P q.0) d h j))

  scores-Keys :
      (env : Env) (requested : Text) (cs : List (NamespaceCandidate env))
      → All (λ c. P c.namespace) cs
      → let resolution = by_scores requested cs in
        (resolution.namespace ≡ requested) ⊎ P resolution.namespace
  unfolding by_scores create_anew
  scores-Keys env requested [] h = inl refl
  scores-Keys env requested (top ∷ rest) h =
      elim (Bool-cases (env.le env.auto_redirect_threshold top.similarity)) [
        | inl t ↦ rw (by_scores, t) (inr h.0)
        | inr f ↦ elim (Bool-cases (env.le env.suggest_threshold top.similarity)) [
          | inl t ↦ rw (by_scores, f, t) (inl refl)
          | inr g ↦ rw (by_scores, f, g) (inl refl)
        ]
      ]

  -- The chosen namespace is the one that was asked for, or an existing one.
  among-Keys :
      (env : Env) (requested : Text) (desc : Option Text) (d : Dict Text (Option Text))
      → Keys d
      → let resolution = resolve_among {env = env} requested desc d in
        (resolution.namespace ≡ requested) ⊎ P resolution.namespace
  unfolding resolve_among
  among-Keys env requested desc d h =
      elim (Option-cases (find_normalized env (normalize env requested) d)) [
        | inr (ns, e) ↦
            rw (resolve_among, e) (inr (find-Keys env (normalize env requested) ns d h e))
        | inl e ↦
            rw (resolve_among, e) (scores-Keys env requested _ (best-Keys env requested desc d h))
      ]

module _ {env : Env} (user_id : ℕ) (scope : Scope) (db : Db env) where
  -- A namespace of the user's active memories or chats that the request reads, or of a policy that the
  -- user or nobody created.
  abbrev pub HasNamespace : Text → Type 0
  HasNamespace ns =
      ((m : Memory env) × In m db.memories
        × (m.user_id ≡ user_id)
        × (is_active m.invalid_at ≡ true)
        × (is_readable scope m ≡ true)
        × (m.namespace ≡ ns))
      ⊎ ((c : AiChat) × In c db.chats
          × (c.user_id ≡ user_id)
          × (is_active c.invalid_at ≡ true)
          × (c.namespace ≡ ns))
      ⊎ ((p : NamespacePolicy env) × In p db.policies
          × (belongs user_id p.created_by ≡ true)
          × (p.namespace ≡ ns))

  memories_owned : All HasNamespace (memory_namespaces user_id scope db)
  unfolding memory_namespaces
  memories_owned = All-from HasNamespace _ (λ ns i.
      let (m, j, e) =
        In-of_map (λ (m : Memory env). m.namespace) ns _
          (In-group_by ns _ (In-Shuffled (env.scan-Shuffled Text _) i)) in
      let (k, t) = In-of_keep _ db.memories j in
      inl (m, k, ground arith, ground arith, ground arith, e))

  chats_owned : All HasNamespace (chat_namespaces user_id scope db)
  unfolding chat_namespaces
  chats_owned = All-from HasNamespace _ (λ ns i.
      let (c, j, e) =
        In-of_map (λ (c : AiChat). c.namespace) ns _
          (In-group_by ns _ (In-Shuffled (env.scan-Shuffled Text _) i)) in
      let (k, t) = In-of_keep _ db.chats j in inr (inl (c, k, ground arith, ground arith, e)))

  policies_owned :
      All (λ (p : NamespacePolicy env). HasNamespace p.namespace) (seen_policies user_id db)
  unfolding seen_policies
  policies_owned =
      All-from (λ (p : NamespacePolicy env). HasNamespace p.namespace) _
        (λ p i.
          let (k, t) =
            In-of_keep _ db.policies (In-Shuffled (env.scan-Shuffled (NamespacePolicy env) _) i) in
          inr (inr (p, k, t, refl)))

  -- The matcher keeps the namespace that was asked for, or leads to one that the user has: never to
  -- one that only other users' memories, chats or policies name.
  pub resolve_owned :
      (requested : Text) (description : Option Text)
      → let resolution = resolve_namespace user_id requested description scope db in
        (resolution.namespace ≡ requested) ⊎ HasNamespace resolution.namespace
  unfolding resolve_namespace existing_namespaces
  resolve_owned requested description = among-Keys HasNamespace env requested description _ (
      defaults-Keys HasNamespace _ _ chats_owned (
        defaults-Keys HasNamespace _ _ memories_owned
          (descriptions-Keys HasNamespace _ _ policies_owned tt)))
