-- ===== src/Tests/Pair.antt =====
-- Tests of the pair codes.
use kemory_community.Prelude.{
  ℕ, ◌+◌, ◌*◌, ◌<◌, ◌≡◌, refl, Text, text, text_eq, text_eq_iff, none, some, [], ◌∷◌, ltb,
  if◌then◌else◌, arith,
}
use kemory_community.Prelude.Dict.{lookup, str_eq}
use kemory_community.Pair.Record.{
  PairRecord, is_claimed, is_expired, claim, pair_ttl, generate_code,
}
use kemory_community.Pair.Memory.{Store, start_pair, get_pair, mark_claimed, load}
use kemory_community.Pair.Claims.{IsCoherent, Reach, next, Step, claim_once, pair_lifetime}
use kemory_community.Pair.Race.{Redis, ttl_of, begin_claim, end_claim}

code_of_draws : generate_code (λ i. i) (λ i. i + 27) ≡ text "5432-ZYXW"
unfolding generate_code
code_of_draws = refl

abbrev code : Text
code = text "AB"

abbrev r : PairRecord
r = record {
  code = code;
  user_id = text "u";
  org_id = text "o";
  created_at = 0;
  expires_at = 300_000_000;
  purpose = [];
  claimed_at = none;
  agent_id = none;
  agent_name = none;
  client_name = none;
}

abbrev one : Store
one = (code, r) ∷ []

one-IsCoherent : IsCoherent one
unfolding lookup
one-IsCoherent = record { keyed = λ c x e. ground (arith, text_eq_iff code c); unique = (refl, tt) }

abbrev claimed_r : PairRecord
claimed_r = record r {
  claimed_at = some 5;
  agent_id = some code;
  agent_name = some code;
  client_name = some code;
}

mark_one : (mark_claimed code code code code 5 one).0 ≡ some claimed_r
unfolding mark_claimed load lookup is_expired is_claimed claim text_eq
mark_one = refl

claim_once_example :
    (mark_claimed code [] [] [] 9 (get_pair code 7 (mark_claimed code code code code 5 one).1).1).0
    ≡ none
claim_once_example =
    claim_once code code code code [] [] [] 5 9 one claimed_r one-IsCoherent mark_one
      (next Reach.here (Step.got (mark_claimed code code code code 5 one).1 code 7))

pair_lifetime_example :
    let (p, t) = start_pair code [] [] [] 0 one in
    ((get_pair code 9 t).0 ≡ (if ltb (0 + pair_ttl) 9 then none else some p))
    × ((mark_claimed code [] [] [] 9 t).0
        ≡ (if ltb (0 + pair_ttl) 9 then none else some (claim p [] [] [] 9)))
pair_lifetime_example = pair_lifetime code [] [] [] [] [] [] 0 9 one one-IsCoherent

slot-get-set :
    (k : Text) (x : PairRecord) (ttl now later : ℕ)
    → later < now + ttl * 1_000_000
    → (if text_eq k k then (if ltb later (now + ttl * 1_000_000) then some x else none) else none)
      ≡ some x
slot-get-set k x ttl now later soon = ground (arith, text_eq_iff k k)

-- A database that remembers one record, and when it ends.
abbrev one_slot : Redis
one_slot = record {
  Db = Text × PairRecord × ℕ;
  get = λ k now db. if text_eq db.0 k then (if ltb now db.2 then some db.1 else none) else none;
  set = λ k x ttl now db. (k, x, now + ttl * 1_000_000);
  get-set = λ k x ttl now later db soon. slot-get-set k x ttl now later soon;
}

abbrev slot : Text × PairRecord × ℕ
slot = (code, r, 300_000_000)

-- Two clients that both read before either writes both get a claimed record, and the second writer's
-- stands.
both_claim :
    (begin_claim one_slot code 3 slot ≡ some r)
    × (begin_claim one_slot code 4 slot ≡ some r)
    × (let (first, db₁) = end_claim one_slot r (text "x") [] [] 5 slot in
        let (second, db₂) = end_claim one_slot r (text "y") [] [] 6 db₁ in
        (first.agent_id ≡ some (text "x"))
        × (second.agent_id ≡ some (text "y"))
        × (one_slot.get r.code 7 db₂ ≡ some second))
unfolding begin_claim end_claim ttl_of is_expired is_claimed claim text_eq
both_claim = (refl, refl, (refl, refl, refl))

-- A client that reads after the other's write is refused.
second_refused : begin_claim one_slot code 7 (end_claim one_slot r (text "x") [] [] 5 slot).1 ≡ none
unfolding begin_claim end_claim ttl_of is_expired is_claimed claim text_eq
second_refused = refl
