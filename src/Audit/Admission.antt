-- ===== src/Audit/Admission.antt =====
-- What the checks before a write and the queries promise.
use kemory_community.Prelude.{
  ℕ, ◌+◌, ◌≤◌, ◌≡◌, ◌↔◌, Text, text, text_eq, Bool, true, false, ◌&&◌, Option, none, some, List, [],
  ◌∷◌, keep, length, length-append, keep-append, ◌==◌, inl, inr, In, In-of_take, In-of_drop,
  In-of_keep, length-take, drop, Option-cases, if◌then◌else◌, arith,
}
use kemory_community.Prelude.Order.{In-Shuffled}
use kemory_community.Audit.Schema.{AuditLog, AuditEvent, TenantScope, Env}
use kemory_community.Audit.Log.{new_row, log_audit_event}
use kemory_community.Audit.Query.{
  AuditQueryRequest, AuditQueryResponse, parsed, is_selected, page, with_offset, query_audit_logs,
}
use kemory_community.Audit.Limits.{
  rate_limits, by_agent, in_window, check_rate_limit, validate_write, content_errors,
  metadata_errors, rate_errors,
}

window_later :
    (u a : ℕ) (action : Text) (w now then_ : ℕ) (rows : List AuditLog)
    → now ≤ then_
    → length (keep (in_window u a action w then_) rows)
      ≤ length (keep (in_window u a action w now) rows)
unfolding in_window
window_later u a action w now then_ [] le = omega arith
window_later u a action w now then_ (r ∷ rows) le =
    ground (arith, window_later u a action w now then_ rows le)

-- The event is of this user, agent and action.
abbrev counts : ℕ → ℕ → Text → AuditEvent → Bool
counts u a action e = e.user_id == u && by_agent a e.agent_id && text_eq e.action action

-- Logs in which each event of the agent and the action was logged only after a check at the same
-- time that did not find the agent limited. The number is the time of the last event.
pub data Guarded (env : Env) (u a : ℕ) (action : Text) : ℕ → List AuditLog → Type 0 where
  nothing : Guarded env u a action 0 []
  admitted :
      {last : ℕ} {rows : List AuditLog} (e : AuditEvent) (scope : TenantScope)
      (new_id now later : ℕ)
      → Guarded env u a action last rows
      → last ≤ now
      → (check_rate_limit u a action now later rows).is_limited ≡ false
      → Guarded env u a action now (log_audit_event env e scope new_id now rows).1
  uncounted :
      {last : ℕ} {rows : List AuditLog} (e : AuditEvent) (scope : TenantScope) (new_id now : ℕ)
      → Guarded env u a action last rows
      → last ≤ now
      → counts u a action e ≡ false
      → Guarded env u a action now (log_audit_event env e scope new_id now rows).1

count-log :
    (env : Env) (u a : ℕ) (action : Text) (w at_ : ℕ) (e : AuditEvent) (scope : TenantScope)
    (new_id now : ℕ) (rows : List AuditLog)
    → length (keep (in_window u a action w at_) (log_audit_event env e scope new_id now rows).1)
      ≤ length (keep (in_window u a action w at_) rows) + (if counts u a action e then 1 else 0)
unfolding log_audit_event in_window new_row
count-log env u a action w at_ e scope new_id now rows =
    let row = new_row env e scope new_id now rows in
    ground (
      arith,
      keep-append (in_window u a action w at_) rows (row ∷ []),
      length-append (keep (in_window u a action w at_) rows)
          (keep (in_window u a action w at_) (row ∷ [])),
    )

-- If every event of an agent's action was logged only after a check that found the agent not
-- limited, then at every later time the requests in the window are at most the limit.
pub Guarded-count :
    (env : Env) (u a : ℕ) (action : Text) (last now later : ℕ) (rows : List AuditLog)
    → Guarded env u a action last rows
    → last ≤ now
    → (check_rate_limit u a action now later rows).current_count
      ≤ (check_rate_limit u a action now later rows).max_requests
unfolding check_rate_limit
Guarded-count env u a action last now later rows nothing le = ground arith
Guarded-count env u a action last now later rows
      (admitted {rows = before} e scope new_id at_ l' g le' free) le =
    let w = (rate_limits action).window_seconds in
    ground (
      arith,
      count-log env u a action w now e scope new_id at_ before,
      window_later u a action w at_ now before le,
    )
Guarded-count env u a action last now later rows
      (uncounted {last = l} {rows = before} e scope new_id at_ g le' other) le =
    let w = (rate_limits action).window_seconds in
    ground (
      arith,
      count-log env u a action w now e scope new_id at_ before,
      Guarded-count env u a action l now later before g (omega arith),
    )

abbrev pub Within : ℕ → Option ℕ → Type 0
Within n none = Unit
Within n (some m) = m ≤ n

-- A write is valid exactly when the content and the metadata, if any, are not above their limits
-- and the agent's writes in the window are below theirs.
pub validate_write_iff :
    (env : Env) (content_size : ℕ) (metadata_size : Option ℕ) (u a now then_ later : ℕ)
    (rows : List AuditLog)
    → ((validate_write env content_size metadata_size u a now then_ later rows).is_valid ≡ true) ↔ (
        (content_size ≤ 100_000)
        × Within 10_000 metadata_size
        × ((check_rate_limit u a (text "memory:write") then_ later rows).is_limited ≡ false))
unfolding validate_write content_errors metadata_errors rate_errors
validate_write_iff env content_size none u a now then_ later rows = ground arith
validate_write_iff env content_size (some m) u a now then_ later rows = ground arith

-- A query that answers returns a page of the rows that its filters select.
query_page :
    (env : Env) (request : AuditQueryRequest) (u : ℕ) (admin : Bool) (rows : List AuditLog)
    (response : AuditQueryResponse)
    → query_audit_logs env request u admin rows ≡ some response
    → (agent : Option ℕ) × (start : Option ℕ) × (end_ : Option ℕ) × (response
        ≡ page env request (keep (is_selected request u admin agent start end_) rows))
unfolding query_audit_logs
query_page env request u admin rows response h =
    elim (Option-cases (parsed env.parse_uuid request.agent_id)) [
      | inl e ↦ cc (rw e at h)
      | inr (agent, e) ↦
          elim (Option-cases (parsed (λ t. env.fromisoformat (with_offset t)) request.start_time)) [
            | inl e2 ↦ cc (rw (e, e2) at h)
            | inr (start, e2) ↦
                elim (Option-cases
                  (parsed (λ t. env.fromisoformat (with_offset t)) request.end_time)) [
                    | inl e3 ↦ cc (rw (e, e2, e3) at h)
                    | inr (end_, e3) ↦ (agent, start, end_, cc (rw (e, e2, e3) at h))
                  ]
          ]
    ]

-- Every item that a query without the admin's view returns is a row of the user who asks, and the
-- answer has at most as many items as the limit.
pub query_own :
    (env : Env) (request : AuditQueryRequest) (u : ℕ) (rows : List AuditLog)
    (response : AuditQueryResponse)
    → query_audit_logs env request u false rows ≡ some response
    → ((r : AuditLog) → In r response.items → In r rows × (r.user_id ≡ u))
      × (length response.items ≤ request.limit)
unfolding page is_selected
query_own env request u rows response h =
    let (agent, start, end_, e) = query_page env request u false rows response h in
    let selected = keep (is_selected request u false agent start end_) rows in
    (
      λ r m.
          let back = In-Shuffled (env.latest_first-Shuffled selected) (
            In-of_drop request.offset (env.latest_first selected)
              (In-of_take request.limit _ (rw e at m))) in
          let (inside, test) =
            In-of_keep (is_selected request u false agent start end_) rows back in
          (inside, ground arith),
      rw e (length-take request.limit (drop request.offset (env.latest_first selected))),
    )
