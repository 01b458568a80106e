-- ===== src/Audit/Tamper.antt =====
-- What the hash chain binds, and what it does not.
use kemory_community.Prelude.{
  ℕ, ◌+◌, ◌≡◌, ◌≢◌, refl, sym, ◌∙◌, Text, text, text_decide, true, false, List, [], ◌∷◌, ◌++◌, All,
  map, length, length-map, ◌==◌, inl, inr, ◌⊎◌, arith,
}
use kemory_community.Audit.Schema.{AuditLog, Env, is_hex}
use kemory_community.Audit.Log.{or_else, payload, compute_hash_chain}
use kemory_community.Audit.Verify.{expected_hash, check_row, check_rows, report}
use kemory_community.Audit.Chain.{Linked, last_hash, check_rows-Linked}

-- Two texts with the same SHA-256.
abbrev pub Collision : Env → Type 0
Collision env = (s : Text) × (t : Text) × (s ≢ t) × (env.sha256_hex s ≡ env.sha256_hex t)

-- What a row's hash covers, next to the hash before it.
abbrev pub signed : Env → AuditLog → Text
signed env r =
    r.action ++ b':' ∷ (or_else r.resource_id (text "none") ++ b':' ∷ env.isoformat r.created_at)

abbrev NoColon : Text → Type 0
NoColon p = All (λ c. (c == b':') ≡ false) p

hex-NoColon : (s : Text) → All (λ c. is_hex c ≡ true) s → NoColon s
hex-NoColon [] h = tt
hex-NoColon (c ∷ s) h = (ground (arith, h.0), hex-NoColon s h.1)

split_colon :
    (p q x y : Text) → NoColon p → NoColon q → p ++ b':' ∷ x ≡ q ++ b':' ∷ y → (p ≡ q) × (x ≡ y)
split_colon [] [] x y hp hq e = (refl, cc e)
split_colon [] (d ∷ q) x y hp hq e = ground (arith, e, hq.0)
split_colon (c ∷ p) [] x y hp hq e = ground (arith, e, hp.0)
split_colon (c ∷ p) (d ∷ q) x y hp hq e =
    let rest = split_colon p q x y hp.1 hq.1 (cc e) in (cc (e, rest.0), rest.1)

expected-NoColon : (env : Env) (p h : Text) (r : AuditLog) → h ≡ expected_hash env p r → NoColon h
unfolding expected_hash compute_hash_chain
expected-NoColon env p h r e = rw e (hex-NoColon _ (env.sha256_hex-digits _))

same_row :
    (env : Env) (p q : Text) (r s : AuditLog)
    → NoColon p
    → NoColon q
    → expected_hash env p r ≡ expected_hash env q s
    → Collision env ⊎ ((p ≡ q) × (signed env r ≡ signed env s))
unfolding expected_hash compute_hash_chain payload
same_row env p q r s hp hq e =
    elim (text_decide (p ++ b':' ∷ signed env r) (q ++ b':' ∷ signed env s)) [
      | inl t ↦ inr (split_colon p q (signed env r) (signed env s) hp hq t)
      | inr differ ↦ inl (_, _, differ, e)
    ]

same_rows :
    (env : Env) (p q : Text) (rs ss : List AuditLog)
    → NoColon p
    → NoColon q
    → length rs ≡ length ss
    → Linked env p rs
    → Linked env q ss
    → last_hash p rs ≡ last_hash q ss
    → Collision env ⊎ ((p ≡ q) × (map (signed env) rs ≡ map (signed env) ss))
same_rows env p q [] [] hp hq n l m e = inr (e, refl)
same_rows env p q [] (s ∷ ss) hp hq n l m e = absurd (omega arith)
same_rows env p q (r ∷ rs) [] hp hq n l m e = absurd (omega arith)
same_rows env p q (r ∷ rs) (s ∷ ss) hp hq n l m e =
    elim (same_rows env r.hash_chain s.hash_chain rs ss (expected-NoColon env p r.hash_chain r l.0)
      (expected-NoColon env q s.hash_chain s m.0) (omega arith) l.1 m.1 e) [
        | inl c ↦ inl c
        | inr (h, rest) ↦ elim (same_row env p q r s hp hq (sym l.0 ∙ h ∙ m.0)) [
          | inl c ↦ inl c
          | inr (prev, text_) ↦ inr (prev, rw (text_, rest) refl)
        ]
      ]

genesis-NoColon : NoColon (text "GENESIS")
genesis-NoColon = ground arith

-- Of two histories with as many rows that both verify without an error, and whose last rows have
-- the same hash, either each row's joined text action:resource:time is the same in both, or two
-- different texts with the same SHA-256 are known. Where actions or resources have colons, rows with
-- different parts can have the same joined text.
pub history_bound :
    (env : Env) (rs ss : List AuditLog)
    → length rs ≡ length ss
    → check_rows env (text "GENESIS") 0 rs ≡ []
    → check_rows env (text "GENESIS") 0 ss ≡ []
    → last_hash (text "GENESIS") rs ≡ last_hash (text "GENESIS") ss
    → Collision env ⊎ (map (signed env) rs ≡ map (signed env) ss)
history_bound env rs ss n cr cs e =
    elim (same_rows env (text "GENESIS") (text "GENESIS") rs ss genesis-NoColon genesis-NoColon n
      ((check_rows-Linked env (text "GENESIS") 0 rs).0 cr)
      ((check_rows-Linked env (text "GENESIS") 0 ss).0 cs) e) [
        | inl c ↦ inl c
        | inr (start, same) ↦ inr same
      ]

-- `f` keeps what the verification reads.
pub record IsUnsigned (f : AuditLog → AuditLog) : Type 0 where
  pub same_id : (r : AuditLog) → (f r).audit_id ≡ r.audit_id
  pub same_action : (r : AuditLog) → (f r).action ≡ r.action
  pub same_resource :
      (r : AuditLog) → or_else (f r).resource_id (text "none") ≡ or_else r.resource_id (text "none")
  pub same_time : (r : AuditLog) → (f r).created_at ≡ r.created_at
  pub same_hash : (r : AuditLog) → (f r).hash_chain ≡ r.hash_chain

same_errors :
    (env : Env) (f : AuditLog → AuditLog) (p : Text) (i : ℕ) (rs : List AuditLog)
    → IsUnsigned f
    → check_rows env p i (map f rs) ≡ check_rows env p i rs
unfolding check_rows check_row expected_hash
same_errors env f p i [] h = refl
same_errors env f p i (r ∷ rs) h = rw (
  h.same_id r,
  h.same_action r,
  h.same_resource r,
  h.same_time r,
  h.same_hash r,
  same_errors env f r.hash_chain (i + 1) rs h,
)

-- A change of the rows that keeps their identifiers, actions, times, hashes and resources, where no
-- resource is as good as the text none, leaves the verification's report as it is: the outcome, the
-- agent, the details, the namespace, the address and the tenant of a row are not protected.
pub tamper_unnoticed :
    (env : Env) (f : AuditLog → AuditLog) (rs : List AuditLog)
    → IsUnsigned f
    → report env (map f rs) ≡ report env rs
unfolding report
tamper_unnoticed env f [] h = refl
tamper_unnoticed env f (r ∷ rs) h =
    rw (same_errors env f (text "GENESIS") 0 (r ∷ rs) h, length-map f rs) refl
