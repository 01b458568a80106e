-- ===== src/Pair/Memory.antt =====
-- The functions of backend/services/pair_service.py over the dict `_memory_store`, which they use
-- where Redis is absent. Nothing waits between the test and the write of `mark_claimed` there, so
-- each call is one step. The clock is read as one time, `now`, in a call.
use kemory_community.Prelude.{ℕ, Text, not, ◌||◌, Option, none, some, keep, ltb, if◌then◌else◌}
use kemory_community.Prelude.Dict.{Dict, lookup, insert, remove, str_eq}
use kemory_community.Pair.Record.{PairRecord, is_claimed, is_expired, fresh_record, claim}

abbrev pub Store : Type 0
Store = Dict Text PairRecord

-- `_purge_memory_expired`
unfoldable pub purge : ℕ → Store → Store
purge now store = keep (λ p. not (ltb (p.1).expires_at now)) store

-- `_save`
unfoldable pub save : PairRecord → Store → Store
unfolding insert
save r store = insert r.code r store

-- `_load`
unfoldable pub load : Text → ℕ → Store → Option PairRecord × Store
unfolding purge lookup
load code now store = let left = purge now store in (lookup code left, left)

unfoldable pub start_pair : Text → Text → Text → Text → ℕ → Store → PairRecord × Store
unfolding save fresh_record
start_pair code user_id org_id purpose now store =
    let r = fresh_record code user_id org_id purpose now in (r, save r store)

abbrev pub unless_expired : ℕ → Option PairRecord → Option PairRecord
unless_expired now none = none
unless_expired now (some r) = if is_expired r now then none else some r

unfoldable pub get_pair : Text → ℕ → Store → Option PairRecord × Store
get_pair code now store =
    let (found, left) = load code now store in (unless_expired now found, left)

abbrev pub claim_found :
    Text → Text → Text → ℕ → Option PairRecord → Store → Option PairRecord × Store
claim_found agent_id agent_name client_name now none store = (none, store)
claim_found agent_id agent_name client_name now (some r) store =
    if is_expired r now || is_claimed r
    then (none, store)
    else let r' = claim r agent_id agent_name client_name now in (some r', save r' store)

unfoldable pub mark_claimed : Text → Text → Text → Text → ℕ → Store → Option PairRecord × Store
mark_claimed code agent_id agent_name client_name now store =
    let (found, left) = load code now store in
    claim_found agent_id agent_name client_name now found left

unfoldable pub delete_pair : Text → Store → Store
unfolding remove
delete_pair code store = remove code store
