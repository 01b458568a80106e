-- ===== src/Memory/Resolve.antt =====
-- `resolve_namespace` and `apply_resolution` of backend/services/namespace_matcher.py.
use kemory_community.Prelude.{
  ℕ, ◌-◌, Text, text_eq, lstrip, rstrip, has_infix, Bool, not, ◌&&◌, ◌||◌, Option, none, some, List,
  [], ◌∷◌, ◌++◌, keep, length, take, drop, if◌then◌else◌,
}
use kemory_community.Prelude.Dict.{Dict}
use kemory_community.Memory.Schema.{Env, NamespacePolicy, Scope, Db, NamespaceCandidate}
use kemory_community.Memory.Matcher.{normalize, existing_namespaces, best_score}

pub data ResolutionAction : Type 0 where
  reuse auto_redirect suggest create_new : ResolutionAction

pub record NamespaceResolution (env : Env) : Type 0 where
  pub action : ResolutionAction
  pub namespace : Text
  pub candidates : List (NamespaceCandidate env)
  pub normalized_requested : Text

-- The loop that looks for the same name after normalization.
unfoldable pub find_normalized : Env → Text → Dict Text (Option Text) → Option Text
find_normalized env normalized [] = none
find_normalized env normalized ((ns, desc) ∷ rest) =
    if text_eq (normalize env ns) normalized then some ns else find_normalized env normalized rest

unfoldable pub create_anew : {env : Env} → Text → NamespaceResolution env
create_anew {env = env} requested = record {
  action = create_new;
  namespace = requested;
  candidates = [];
  normalized_requested = normalize env requested;
}

-- What the scored candidates decide.
unfoldable pub by_scores :
    {env : Env} → Text → List (NamespaceCandidate env) → NamespaceResolution env
unfolding create_anew
by_scores requested [] = create_anew requested
by_scores {env = env} requested (top ∷ rest) =
    if env.le env.auto_redirect_threshold top.similarity
    then record {
      action = auto_redirect;
      namespace = top.namespace;
      candidates = take 5 (top ∷ rest);
      normalized_requested = normalize env requested;
    }
    else if env.le env.suggest_threshold top.similarity
    then record {
      action = suggest;
      namespace = requested;
      candidates = take 5 (keep (λ c. env.le env.suggest_threshold c.similarity) (top ∷ rest));
      normalized_requested = normalize env requested;
    }
    else create_anew requested

unfoldable pub resolve_among :
    {env : Env} → Text → Option Text → Dict Text (Option Text) → NamespaceResolution env
unfolding find_normalized create_anew by_scores
resolve_among {env = env} requested description existing =
    elim (find_normalized env (normalize env requested) existing) [
      | some ns ↦ record {
        action = reuse;
        namespace = ns;
        candidates = record { namespace = ns; similarity = env.one } ∷ [];
        normalized_requested = normalize env requested;
      }
      | none ↦ by_scores requested (best_score env requested description existing)
    ]

unfoldable pub resolve_namespace :
    {env : Env} → ℕ → Text → Option Text → Scope → Db env → NamespaceResolution env
unfolding resolve_among
resolve_namespace user_id requested description scope db =
    resolve_among requested description (existing_namespaces user_id scope db)

abbrev or_empty : Option Text → Text
or_empty none = []
or_empty (some t) = t

-- Whether the new description is missing in the policy's.
abbrev is_new : Text → Option Text → Bool
is_new description old =
    not (text_eq description [])
    && (text_eq (or_empty old) [] || not (has_infix (or_empty old) description))

unfoldable pub merge_description : Option Text → Option Text → Option Text
unfolding has_infix lstrip rstrip
merge_description none old = old
merge_description (some description) old =
    let base = lstrip (rstrip (or_empty old)) in
    if is_new description old
    then some (take 500 ((if text_eq base [] then [] else base ++ 10 ∷ []) ++ description))
    else old

abbrev top_similarity : {env : Env} → List (NamespaceCandidate env) → Option env.Float
top_similarity [] = none
top_similarity {env = env} (top ∷ rest) = some (env.round3 top.similarity)

-- `related[-20:]`
abbrev last_twenty : {A : Type 0} → List A → List A
last_twenty xs = drop (length xs - 20) xs

unfoldable pub note_redirect :
    {env : Env}
    → NamespaceResolution env
    → Option Text
    → ℕ
    → NamespacePolicy env
    → NamespacePolicy env
unfolding merge_description
note_redirect resolution description now policy = record policy {
  description = merge_description description policy.description;
  related_namespaces = last_twenty (
      policy.related_namespaces
      ++ record {
        namespace = resolution.normalized_requested;
        similarity = top_similarity resolution.candidates;
        detected_at = now;
      }
        ∷ []);
}

-- The policy of a namespace, which is unique.
unfoldable pub update_policy :
    {env : Env}
    → Text
    → (NamespacePolicy env → NamespacePolicy env)
    → List (NamespacePolicy env)
    → List (NamespacePolicy env)
update_policy ns f [] = []
update_policy ns f (p ∷ ps) = if text_eq p.namespace ns then f p ∷ ps else p ∷ update_policy ns f ps

unfoldable pub apply_resolution :
    {env : Env} → NamespaceResolution env → Option Text → ℕ → Db env → Db env
unfolding note_redirect update_policy
apply_resolution resolution description now db = elim resolution.action [
  | auto_redirect ↦ record db {
    policies =
        update_policy resolution.namespace (note_redirect resolution description now) db.policies;
  }
  | _ ↦ db
]
