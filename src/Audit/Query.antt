-- ===== src/Audit/Query.antt =====
-- `query_audit_logs` of backend/services/audit_service.py.
use kemory_community.Prelude.{
  ℕ, Text, text_eq, Bool, true, false, ◌&&◌, ◌||◌, Option, none, some, List, [], ◌∷◌, keep, take,
  drop, length, leb, ◌==◌, ◌++◌, ◌>>=◌, text, if◌then◌else◌,
}
use kemory_community.Audit.Schema.{AuditLog, Env}

pub record AuditQueryRequest : Type 0 where
  pub agent_id : Option Text
  pub action : Option Text
  pub resource_type : Option Text
  pub outcome : Option Text
  pub start_time : Option Text
  pub end_time : Option Text
  pub limit : ℕ
  pub offset : ℕ

pub record AuditQueryResponse : Type 0 where
  pub items : List AuditLog
  pub total : ℕ
  pub limit : ℕ
  pub offset : ℕ

-- A filter that is None or empty is not applied; a parser that raises ends the call (`none`).
abbrev pub parsed : {A : Type 0} → (Text → Option A) → Option Text → Option (Option A)
parsed parse none = some none
parsed parse (some []) = some none
parsed parse (some (c ∷ s)) = elim (parse (c ∷ s)) [ none ↦ none | some a ↦ some (some a) ]

-- `t.replace("Z", "+00:00")`
unfoldable pub with_offset : Text → Text
with_offset [] = []
with_offset (c ∷ t) = (if c == b'Z' then text "+00:00" else c ∷ []) ++ with_offset t

abbrev pub equals : Option Text → Text → Bool
equals none t = true
equals (some []) t = true
equals (some (c ∷ s)) t = text_eq t (c ∷ s)

abbrev pub is_agent : Option ℕ → Option ℕ → Bool
is_agent none a = true
is_agent (some x) none = false
is_agent (some x) (some a) = a == x

abbrev pub not_before : Option ℕ → ℕ → Bool
not_before none t = true
not_before (some start) t = leb start t

abbrev pub not_after : Option ℕ → ℕ → Bool
not_after none t = true
not_after (some end_) t = leb t end_

-- The WHERE of the query.
unfoldable pub is_selected :
    AuditQueryRequest → ℕ → Bool → Option ℕ → Option ℕ → Option ℕ → AuditLog → Bool
is_selected request user_id admin_view agent start end_ log =
    (admin_view || log.user_id == user_id)
    && is_agent agent log.agent_id
    && equals request.action log.action
    && equals request.resource_type log.resource_type
    && equals request.outcome log.outcome
    && not_before start log.created_at
    && not_after end_ log.created_at

unfoldable pub page : Env → AuditQueryRequest → List AuditLog → AuditQueryResponse
page env request selected = record {
  items = take request.limit (drop request.offset (env.latest_first selected));
  total = length selected;
  limit = request.limit;
  offset = request.offset;
}

unfoldable pub query_audit_logs :
    Env → AuditQueryRequest → ℕ → Bool → List AuditLog → Option AuditQueryResponse
unfolding page
query_audit_logs env request requesting_user_id admin_view rows = do
  agent ← parsed env.parse_uuid request.agent_id
  start ← parsed (λ t. env.fromisoformat (with_offset t)) request.start_time
  end_ ← parsed (λ t. env.fromisoformat (with_offset t)) request.end_time
  some (
      page env request
        (keep (is_selected request requesting_user_id admin_view agent start end_) rows))
