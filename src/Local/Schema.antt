-- ===== src/Local/Schema.antt =====
-- The tables of kemory/storage/local.py. The statements that the backend runs are taken to succeed,
-- and a fresh identifier is an argument of the call that draws it.
use kemory_community.Prelude.Order.{Shuffled}
use kemory_community.Prelude.{ℕ, ◌≡◌, false, Text, Bool, Option, List, [], ◌∷◌, text}

-- Python's floats, of which the model only knows the operations that the backend calls (`zero`,
-- `one` and `tenth` are its literals 0.0, 1.0 and 0.1, `decimal n k` is n / 10^k), and its clock: `days_since now t` is (now - datetime.fromisoformat(t)) in days, `none` where it raises.
pub record Env : Type 1 where
  pub Float : Type 0
  pub zero : Float
  pub one : Float
  pub tenth : Float
  pub decimal : ℕ → ℕ → Float
  pub lt : Float → Float → Bool
  pub le : Float → Float → Bool
  pub max : Float → Float → Float
  pub of_nat : ℕ → Float
  pub min : Float → Float → Float
  pub add : Float → Float → Float
  pub mul : Float → Float → Float
  pub div : Float → Float → Float
  pub neg : Float → Float
  pub pow : Float → Float → Float
  pub exp : Float → Float
  pub log2 : Float → Float
  pub days_since : ℕ → Text → Option Float
  pub isoformat : ℕ → Text
  pub embed : Text → Option Text
  pub latest_first : {A : Type 0} → (A → Text) → List A → List A
  pub latest_first-Shuffled :
      {A : Type 0} (key : A → Text) (rows : List A) → Shuffled (latest_first key rows) rows
  pub heaviest_first : {A : Type 0} → (A → Float) → List A → List A
  pub heaviest_first-Shuffled :
      {A : Type 0} (key : A → Float) (rows : List A) → Shuffled (heaviest_first key rows) rows
  pub lt_irrefl : (x : Float) → lt x x ≡ false

pub record Episode (env : Env) : Type 0 where
  pub id : Text
  pub content : Text
  pub source_agent : Text
  pub session_id : Text
  pub org_id : Text
  pub created_at : Text
  pub valid_at : Text
  pub invalid_at : Option Text
  pub extra_json : Text
  pub round_id : Option Text
  pub facts : List Text
  pub temporal_anchor : Option Text
  pub decay_score : env.Float
  pub last_accessed_at : Option Text
  pub access_count : ℕ
  pub tier : Text

pub record Edge (env : Env) : Type 0 where
  pub source_id : Text
  pub target_id : Text
  pub relation_type : Text
  pub weight : env.Float
  pub created_at : Text

-- The tables, the two indexes, and which of the indexes are enabled.
pub record Backend (env : Env) : Type 0 where
  pub episodes : List (Episode env)
  pub edges : List (Edge env)
  pub episodes_fts : List (Text × Text)
  pub vec_episodes : List (Text × Text)
  pub fts_enabled : Bool
  pub vec_enabled : Bool

abbrev pub valid_relation_types : List Text
valid_relation_types =
    text "related" ∷ text "contradicts" ∷ text "elaborates" ∷ text "supersedes" ∷ []

-- The `ValueError`s of the backend.
pub data Error : Type 0 where
  missing_metadata invalid_relation_type invalid_resolution : Error

pub data Result (A : Type 0) : Type 0 where
  ok : A → Result A
  err : Error → Result A
