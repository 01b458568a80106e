-- ===== src/Memory/Matcher.antt =====
-- backend/services/namespace_matcher.py: which namespace a memory is written to.
use kemory_community.Prelude.{
  ℕ, suc, ◌*◌, Text, text_eq, lstrip, rstrip, Bool, true, false, not, ◌&&◌, ◌||◌, Option, none,
  some, List, [], ◌∷◌, ◌++◌, map, keep, length, drop, ◌==◌, ltb, leb, if◌then◌else◌,
}
use kemory_community.Prelude.Dict.{Dict, lookup, insert, str_eq}
use kemory_community.Prelude.Order.{sort}
use kemory_community.Memory.Schema.{
  Env, Memory, NamespacePolicy, AiChat, Scope, Db, NamespaceCandidate,
}
use kemory_community.Memory.Tenancy.{is_active, is_readable_chat, select_memories}

-- The characters that `[^a-z0-9:_]+` leaves.
abbrev is_kept : ℕ → Bool
is_kept c = (leb b'a' c && leb c b'z') || (leb b'0' c && leb c b'9') || c == b':' || c == b'_'

unfoldable pub normalize : Env → Text → Text
normalize env ns = keep is_kept (env.to_lower (lstrip (rstrip ns)))

unfoldable pub prefix_len : Text → Text → ℕ
prefix_len [] b = 0
prefix_len (c ∷ a) [] = 0
prefix_len (c ∷ a) (d ∷ b) = if c == d then suc (prefix_len a b) else 0

abbrev pub any_digit : Env → Text → Bool
any_digit env [] = false
any_digit env (c ∷ t) = env.is_digit c || any_digit env t

abbrev min : ℕ → ℕ → ℕ
min a b = if ltb b a then b else a

unfoldable pub is_indexed_sibling_pair : Env → Text → Text → Bool
unfolding prefix_len
is_indexed_sibling_pair env a b =
    let n = prefix_len a b in
    not (text_eq a [])
    && not (text_eq b [])
    && leb 6 n
    && leb (min (length a) (length b)) (2 * n)
    && ltb n (length a)
    && ltb n (length b)
    && any_digit env (drop n a ++ drop n b)

unfoldable pub fuzzy_ratio : (env : Env) → Text → Text → env.Float
unfolding prefix_len is_indexed_sibling_pair
fuzzy_ratio env a b =
    if is_indexed_sibling_pair env a b
    then env.sequence_ratio (drop (prefix_len a b) a) (drop (prefix_len a b) b)
    else env.sequence_ratio a b

abbrev sum_products : (env : Env) → env.Float → List env.Float → List env.Float → env.Float
sum_products env total [] ys = total
sum_products env total (x ∷ xs) [] = total
sum_products env total (x ∷ xs) (y ∷ ys) = sum_products env (env.add total (env.mul x y)) xs ys

-- sum(x * y for x, y in zip(xs, ys, strict=False))
unfoldable pub dot : (env : Env) → List env.Float → List env.Float → env.Float
dot env xs ys = sum_products env env.zero xs ys

unfoldable pub cosine : (env : Env) → List env.Float → List env.Float → env.Float
unfolding dot
cosine env a b =
    let norm_a = env.sqrt (dot env a a) in
    let norm_b = env.sqrt (dot env b b) in
    if env.equal norm_a env.zero || env.equal norm_b env.zero
    then env.zero
    else env.div (dot env a b) (env.mul norm_a norm_b)

-- GROUP BY: each name once.
unfoldable pub group_by : List Text → List Text
group_by [] = []
group_by (t ∷ ts) = t ∷ keep (λ u. not (text_eq t u)) (group_by ts)

abbrev pub belongs : ℕ → Option ℕ → Bool
belongs user_id none = true
belongs user_id (some u) = u == user_id

-- The namespaces of the user's active memories and chats, and the policies that the user may see.
unfoldable pub memory_namespaces : {env : Env} → ℕ → Scope → Db env → List Text
unfolding group_by
memory_namespaces {env = env} user_id scope db = env.scan Text (
    group_by (
      map (λ (m : Memory env). m.namespace)
        (select_memories scope (λ m. m.user_id == user_id && is_active m.invalid_at) db)))

unfoldable pub chat_namespaces : {env : Env} → ℕ → Scope → Db env → List Text
unfolding group_by
chat_namespaces {env = env} user_id scope db = env.scan Text (
    group_by (
      map (λ (c : AiChat). c.namespace)
        (keep (λ c. c.user_id == user_id && is_active c.invalid_at && is_readable_chat scope c)
          db.chats)))

unfoldable pub seen_policies : {env : Env} → ℕ → Db env → List (NamespacePolicy env)
seen_policies {env = env} user_id db =
    env.scan (NamespacePolicy env) (keep (λ p. belongs user_id p.created_by) db.policies)

unfoldable pub set_descriptions :
    {env : Env} → List (NamespacePolicy env) → Dict Text (Option Text) → Dict Text (Option Text)
unfolding insert
set_descriptions [] d = d
set_descriptions (p ∷ ps) d = set_descriptions ps (insert p.namespace p.description d)

-- `desc_by_ns.setdefault(ns, None)`
unfoldable pub set_default : Text → Dict Text (Option Text) → Dict Text (Option Text)
unfolding lookup insert
set_default ns d = elim (lookup ns d) [ none ↦ insert ns none d | some v ↦ d ]

unfoldable pub set_defaults : List Text → Dict Text (Option Text) → Dict Text (Option Text)
set_defaults [] d = d
set_defaults (ns ∷ rest) d = set_defaults rest (set_default ns d)

unfoldable pub existing_namespaces : {env : Env} → ℕ → Scope → Db env → Dict Text (Option Text)
unfolding memory_namespaces chat_namespaces seen_policies set_descriptions set_defaults
existing_namespaces user_id scope db = set_defaults (chat_namespaces user_id scope db) (
    set_defaults (memory_namespaces user_id scope db)
      (set_descriptions (seen_policies user_id db) []))

abbrev or_empty : Option Text → Text
or_empty none = []
or_empty (some t) = t

-- f"{name} {description or ''}".strip()
unfoldable pub described : Text → Option Text → Text
described ns desc = lstrip (rstrip (ns ++ b' ' ∷ or_empty desc))

unfoldable pub semantic_score :
    (env : Env) → Option (List env.Float) → Text → Option Text → env.Float
unfolding cosine described
semantic_score env none ns desc = env.zero
semantic_score env (some req_vec) ns desc = elim (env.encode (described ns desc)) [
  | none ↦ env.zero
  | some ex_vec ↦ cosine env req_vec ex_vec
]

unfoldable pub score : (env : Env) → Text → Option (List env.Float) → Text → Option Text → env.Float
unfolding normalize is_indexed_sibling_pair fuzzy_ratio semantic_score
score env requested req_vec ns desc =
    let a = normalize env requested in
    let b = normalize env ns in
    let fuzzy = fuzzy_ratio env a b in
    let semantic =
      if is_indexed_sibling_pair env a b then env.zero else semantic_score env req_vec ns desc in
    if env.le env.auto_redirect_threshold semantic
    then if env.lt fuzzy semantic then semantic else fuzzy
    else fuzzy

-- `sort(key=similarity, reverse=True)` puts `a` before a later `b` where `b` is not greater.
abbrev pub ranks : {env : Env} → NamespaceCandidate env → NamespaceCandidate env → Bool
ranks {env = env} a b = not (env.lt a.similarity b.similarity)

unfoldable pub best_score :
    (env : Env) → Text → Option Text → Dict Text (Option Text) → List (NamespaceCandidate env)
unfolding described score sort
best_score env requested requested_desc existing =
    let req_vec = env.encode (described requested requested_desc) in
    sort ranks (
      map (λ p. record { namespace = p.0; similarity = score env requested req_vec p.0 p.1 })
        existing)
