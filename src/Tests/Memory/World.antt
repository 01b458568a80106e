-- ===== src/Tests/Memory/World.antt =====
-- A small world for the memory service: natural numbers for floats, in hundredths, an encoder that
-- raises, and a hash that tells one text from all others.
use kemory_community.Prelude.{
  ℕ, ◌+◌, ◌*◌, ◌≡◌, ◌≢◌, refl, ap, Text, text, text_eq, true, false, Option, none, some, List, [],
  ◌∷◌, All, length, leb, ltb, ◌==◌, if◌then◌else◌, Bool-cases, inl, inr, arith,
}
use kemory_community.Prelude.Order.{Shuffled-refl, sort, sort-Shuffled}
use kemory_community.Gatekeeper.Schema.{PermissionRule}
use kemory_community.Audit.Schema.{is_hex}
use kemory_community.Memory.Schema.{Env, Memory, MemoryCreate, Db, Scope, Settings, Call}

abbrev ones : Text
ones = text "1111111111111111111111111111111111111111111111111111111111111111"

abbrev twos : Text
twos = text "2222222222222222222222222222222222222222222222222222222222222222"

abbrev pub tea_hash : Text → Text
tea_hash t = if text_eq t (text "tea") then ones else twos

pub tea_hash-length : (t : Text) → length (tea_hash t) ≡ 64
tea_hash-length t = elim (Bool-cases (text_eq t (text "tea"))) [
  | inl e ↦ rw e refl
  | inr f ↦ rw f refl
]

ones-digits : All (λ c. is_hex c ≡ true) ones
ones-digits = ground arith

twos-digits : All (λ c. is_hex c ≡ true) twos
twos-digits = ground arith

pub tea_hash-digits : (t : Text) → All (λ c. is_hex c ≡ true) (tea_hash t)
tea_hash-digits t = elim (Bool-cases (text_eq t (text "tea"))) [
  | inl e ↦ rw e ones-digits
  | inr f ↦ rw f twos-digits
]

abbrev pub name_of : ℕ → Text
name_of n = b'#' ∷ n ∷ []

abbrev read_name : Text → Option ℕ
read_name (c ∷ n ∷ []) = some n
read_name t = none

pub not_empty : (n : ℕ) → name_of n ≢ []
not_empty n e = omega (arith, ap length e)

pub not_four : (n : ℕ) (t : Text) → length t ≡ 4 → name_of n ≢ t
not_four n t h e = omega (arith, ap length e, h)

abbrev pub env : Env
env = record {
  Float = ℕ;
  zero = 0;
  one = 100;
  auto_redirect_threshold = 90;
  suggest_threshold = 85;
  lt = ltb;
  le = leb;
  add = λ a b. a + b;
  mul = λ a b. a * b;
  div = λ a b. a;
  sqrt = λ a. a;
  equal = λ a b. a == b;
  round3 = λ a. a;
  encode = λ t. none;
  sequence_ratio = λ a b. if text_eq a b then 100 else if length a == length b then 87 else 10;
  to_lower = λ t. t;
  is_digit = λ c. leb b'0' c;
  nfc = λ t. t;
  Vectors = ℕ;
  search = λ v ns user org q limit. none;
  upsert = λ id ns user org e meta v. none;
  scan = λ A rows. rows;
  scan-Shuffled = λ A rows. Shuffled-refl rows;
  order_by = λ A key rows. sort (λ a b. leb (key a) (key b)) rows;
  order_by-Shuffled = λ A key rows. sort-Shuffled (λ a b. leb (key a) (key b)) rows;
  order_by_desc = λ A key rows. sort (λ a b. leb (key b) (key a)) rows;
  order_by_desc-Shuffled = λ A key rows. sort-Shuffled (λ a b. leb (key b) (key a)) rows;
  gate = record kemory_community.Tests.Gatekeeper.env { parse_uuid = read_name };
  log = record kemory_community.Tests.Audit.env {
    sha256_hex = tea_hash;
    length-sha256_hex = tea_hash-length;
    sha256_hex-digits = tea_hash-digits;
  };
  str_uuid = name_of;
  parse-str_uuid = λ n. refl;
  str_uuid-nonempty = not_empty;
  str_uuid-None = λ n. not_four n (text "None") refl;
  str_uuid-none = λ n. not_four n (text "none") refl;
}

-- A row of user 7 with the content "tea" in the namespace "home".
abbrev pub tea : Memory env
tea = record {
  memory_id = 1;
  user_id = 7;
  org_id = text "org";
  namespace = text "home";
  namespace_tag = none;
  content = text "tea";
  content_type = text "text";
  content_hash = ones;
  meta = text "{}";
  source_agent_id = some 5;
  source_type = text "agent";
  enrichment_status = text "pending";
  version = 1;
  ttl_seconds = none;
  expires_at = none;
  invalid_at = none;
  session_id = none;
  round_id = none;
  valid_at = none;
  occurred_at = none;
  decay_score = 100;
  visibility = text "user-private";
  team_id = none;
  embedding = none;
  embedding_model = none;
  access_count = 0;
  last_accessed_at = none;
  created_at = 10;
  updated_at = 10;
}

abbrev pub allow : PermissionRule
allow = record {
  rule_id = 3;
  user_id = 7;
  org_id = text "org";
  agent_id = none;
  scope = text "memory:*";
  action = text "allow";
  priority = 10;
  namespace_filter = none;
  conditions = none;
  is_active = true;
  updated_at = 0;
}

abbrev pub world : List (Memory env) → Db env
world rows = record {
  vault = record { rules = allow ∷ []; consents = []; agents = [] };
  audit = [];
  memories = rows;
  events = [];
  policies = [];
  chats = [];
  vectors = 0;
  tasks = [];
}

abbrev pub in_org : Text → Scope
in_org org = record { org_id = org; user_id = 7; team_ids = []; is_bypassed = false }

abbrev pub defaults : Settings env
defaults = record {
  dedup_exact_enabled = true;
  dedup_semantic_enabled = true;
  dedup_semantic_threshold = 92;
  dedup_semantic_max_candidates = 50;
  tenant_legacy_sentinel = text "legacy";
}

abbrev pub call : Call
call = record {
  user_id = 7;
  agent_id = 5;
  now = 1_000;
  memory_id = 2;
  event_id = 20;
  audit_id = 30;
  consent_id = 40;
  skip_gatekeeper = false;
}

abbrev pub ask_tea : MemoryCreate
ask_tea = record {
  namespace = text "home";
  namespace_tag = none;
  content = text " tea ";
  content_type = text "text";
  metadata = none;
  ttl_seconds = some 60;
  session_id = none;
  round_id = none;
  valid_at = none;
  occurred_at = none;
  visibility = text "user-private";
  team_id = none;
  namespace_description = none;
  allow_duplicate = true;
}
