-- ===== src/Tests/Local.antt =====
-- Tests of the local storage backend.
use kemory_community.Prelude.{
  ℕ, ◌+◌, ◌-◌, ◌*◌, ◌/◌, ◌≡◌, ◌≢◌, refl, text, text_eq, text_in, true, false, none, some, List, [],
  ◌∷◌, All, In, length, ltb, leb, ◌==◌, if◌then◌else◌, arith,
}
use kemory_community.Prelude.Order.{Shuffled-refl}
use kemory_community.Local.Schema.{Env, Episode, Edge, Backend, ok, valid_relation_types}
use kemory_community.Local.Episodes.{is_demoted, update_episodes, invalidate_episode}
use kemory_community.Local.Graph.{
  edges_to, joined_rows, get_related, upsert, add_edge, resolve_conflict,
}
use kemory_community.Local.Forget.{forget_decayed}
use kemory_community.Local.Lifecycle.{Step, Reach}
use kemory_community.Local.Survival.{IsSound, Survives, Reach-IsSound, Reach-Survives}
use kemory_community.Local.Links.{resolve_hides}

never_below : (x : ℕ) → ltb x x ≡ false
never_below x = ground arith

-- Thousandths in place of floats, with a decay that falls by one each time, and a time that is the length of its text.
abbrev env : Env
env = record {
  Float = ℕ;
  zero = 0;
  one = 1000;
  tenth = 100;
  lt = ltb;
  le = leb;
  max = λ a b. if ltb a b then b else a;
  of_nat = λ n. n;
  min = λ a b. if ltb a b then a else b;
  add = λ a b. a + b;
  mul = λ a b. a * b / 1000;
  div = λ a b. a * 1000 / b;
  neg = λ a. 0;
  pow = λ a b. 1000 - b;
  exp = λ a. 1000;
  log2 = λ a. a;
  decimal = λ n k. if k == 0 then n * 1000 else if k == 1 then n * 100 else n * 10;
  days_since = λ now t. some (now - length t);
  isoformat = λ n. n ∷ [];
  embed = λ t. none;
  latest_first = λ key rows. rows;
  latest_first-Shuffled = λ key rows. Shuffled-refl rows;
  heaviest_first = λ key rows. rows;
  heaviest_first-Shuffled = λ key rows. Shuffled-refl rows;
  lt_irrefl = never_below;
}

abbrev first : Episode env
first = record {
  id = text "a";
  content = text "tea";
  source_agent = text "g";
  session_id = text "s";
  org_id = text "o";
  created_at = text "2";
  valid_at = text "2";
  invalid_at = none;
  extra_json = text "{}";
  round_id = none;
  facts = [];
  temporal_anchor = none;
  decay_score = 1000;
  last_accessed_at = none;
  access_count = 0;
  tier = text "active";
}

abbrev second : Episode env
second = record first { id = text "b" }

abbrev asleep : Episode env
asleep = record first { invalid_at = some (text "9"); tier = text "demoted" }

abbrev link : Edge env
link = record {
  source_id = text "a";
  target_id = text "b";
  relation_type = text "related";
  weight = 100;
  created_at = text "2";
}

abbrev stored : List (Episode env) → Backend env
stored es = record {
  episodes = es;
  edges = link ∷ [];
  episodes_fts = [];
  vec_episodes = [];
  fts_enabled = true;
  vec_enabled = false;
}

abbrev two : Backend env
two = stored (first ∷ second ∷ [])

abbrev walk :
    Reach two
      (forget_decayed env none 350 none 900 (invalidate_episode (text "a") (text "9") two).1).1
walk =
    Reach.next (Reach.next Reach.here (Step.invalidated two (text "a") (text "9")))
      (Step.forgot (invalidate_episode (text "a") (text "9") two).1 none 350 none 900)

two-IsSound : All IsSound two.episodes
unfolding text_eq
two-IsSound = (refl, (refl, tt))

Reach-IsSound_example :
    All IsSound
      (forget_decayed env none 350 none 900
        (invalidate_episode (text "a") (text "9") two).1).1.episodes
Reach-IsSound_example = Reach-IsSound walk two-IsSound

Reach-Survives_example :
    Survives first
      (forget_decayed env none 350 none 900
        (invalidate_episode (text "a") (text "9") two).1).1.episodes
Reach-Survives_example = Reach-Survives first walk (In.here refl)

abbrev rows : List (Episode env × Edge env)
rows = (second, link) ∷ []

related : get_related (text "a") none 5 two ≡ ok rows
unfolding get_related joined_rows edges_to text_eq
related = refl

known : text_in (text "supersedes") valid_relation_types ≡ true
unfolding text_in text_eq
known = refl

-- The target stays related to the first one, over the edge that was there.
after_resolution :
    get_related
      (text "a")
      none
      5
      (resolve_conflict (text "a") (text "b") (text "supersedes") 3 4 two).1
    ≡ ok rows
unfolding get_related joined_rows edges_to resolve_conflict add_edge upsert invalidate_episode
    update_episodes text_in text_eq
after_resolution = refl

resolve_hides_example : second.id ≢ text "a"
resolve_hides_example =
    resolve_hides (text "a") (text "b") (text "supersedes") (text "a") none 3 4 5 two rows known
      after_resolution (second, link) (In.here refl)

asleep_demoted : is_demoted asleep ≡ true
unfolding text_eq
asleep_demoted = refl

-- The edge of a resolution leads from the target to the source, which is invalid: neither of the
-- two is related to the other by it.
resolution_unseen :
    get_related
      (text "b")
      (some (text "supersedes"))
      5
      (resolve_conflict (text "a") (text "b") (text "supersedes") 3 4 two).1
    ≡ ok []
unfolding get_related joined_rows edges_to resolve_conflict add_edge upsert invalidate_episode
    update_episodes text_in text_eq
resolution_unseen = refl
