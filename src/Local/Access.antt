-- ===== src/Local/Access.antt =====
-- What a tracked read does to the episode, to its edges and to everything else.
use kemory_community.Prelude.{
  ◌+◌, ◌≡◌, Text, text, text_eq, not, keep, none, if◌then◌else◌, Bool, false, ◌&&◌, ◌||◌, some,
  List, All,
}
use kemory_community.Local.Schema.{Env, Episode, Edge}

module _ {env : Env} where
  -- The row after a tracked read: the access is counted, and a demoted row is active and valid again
  -- with the full score.
  abbrev pub accessed : Text → Episode env → Episode env
  accessed now_iso x =
      if text_eq x.tier (text "demoted")
      then record x {
        tier = text "active";
        invalid_at = none;
        decay_score = env.one;
        access_count = x.access_count + 1;
        last_accessed_at = some now_iso;
      }
      else record x { access_count = x.access_count + 1; last_accessed_at = some now_iso }

  abbrev meets : Text → Edge env → Bool
  meets id ed = text_eq ed.source_id id || text_eq ed.target_id id

  -- No edge at the episode weighs less than one, and the others are as they were.
  abbrev pub Restored : Text → List (Edge env) → List (Edge env) → Type 0
  Restored id before eds =
      All (λ ed. (meets id ed && env.lt ed.weight env.one) ≡ false) eds
      × (keep (λ ed. not (meets id ed)) eds ≡ keep (λ ed. not (meets id ed)) before)
