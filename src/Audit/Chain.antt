-- ===== src/Audit/Chain.antt =====
-- Linked rows, and the hash that `log_audit_event` of backend/services/audit_service.py starts from.
use kemory_community.Prelude.{
  ℕ, zero, suc, ◌+◌, ◌<◌, ◌≡◌, refl, sym, ap, ◌∙◌, ◌↔◌, Text, text, text_eq_iff, true, false,
  Option, none, some, List, [], ◌∷◌, ◌++◌, All, In, here, there, In-cons, take, length, leb→le, inl,
  inr, ◌⊎◌, arith,
}
use kemory_community.Prelude.Order.{
  Sorted, Strict, Shuffled, none_left, pick, In-Shuffled, In-of_Shuffled, All-In,
}
use kemory_community.Audit.Schema.{AuditLog, Env, older, newer}
use kemory_community.Audit.Log.{or_else, compute_hash_chain, first_hash, owned, previous_hash}
use kemory_community.Audit.Verify.{expected_hash, check_row, check_rows}

-- Every row's hash continues that of the row before it.
abbrev pub Linked : Env → Text → List AuditLog → Type 0
Linked env p [] = Unit
Linked env p (r ∷ rs) = (r.hash_chain ≡ expected_hash env p r) × Linked env r.hash_chain rs

abbrev pub last_hash : Text → List AuditLog → Text
last_hash p [] = p
last_hash p (r ∷ rs) = last_hash r.hash_chain rs

abbrev pub last_row : List AuditLog → Option AuditLog
last_row [] = none
last_row (r ∷ []) = some r
last_row (r ∷ s ∷ rs) = last_row (s ∷ rs)

pub check_rows-Linked :
    (env : Env) (p : Text) (i : ℕ) (rs : List AuditLog)
    → (check_rows env p i rs ≡ []) ↔ Linked env p rs
unfolding check_rows check_row
check_rows-Linked env p i [] = (λ _. tt, λ _. refl)
check_rows-Linked env p i (r ∷ rs) = ground (
  arith,
  text_eq_iff r.hash_chain (expected_hash env p r),
  check_rows-Linked env r.hash_chain (i + 1) rs,
)

pub Linked-append :
    (env : Env) (p : Text) (rs : List AuditLog) (r : AuditLog)
    → Linked env p rs
    → r.hash_chain ≡ expected_hash env (last_hash p rs) r
    → Linked env p (rs ++ r ∷ [])
Linked-append env p [] r h e = (e, tt)
Linked-append env p (x ∷ rs) r h e = (h.0, Linked-append env x.hash_chain rs r h.1 e)

pub Linked-take :
    (env : Env) (p : Text) (n : ℕ) (rs : List AuditLog) → Linked env p rs → Linked env p (take n rs)
Linked-take env p zero rs h = tt
Linked-take env p (suc n) [] h = tt
Linked-take env p (suc n) (r ∷ rs) h = (h.0, Linked-take env r.hash_chain n rs h.1)

pub Strict-append :
    (rs : List AuditLog) (r : AuditLog)
    → Strict older rs
    → All (λ s. s.created_at < r.created_at) rs
    → Strict older (rs ++ r ∷ [])
Strict-append [] r h a = (tt, tt)
Strict-append (x ∷ rs) r h a = (all_before rs h.0, Strict-append rs r h.1 a.1)
  where
    all_before :
        (ys : List AuditLog)
        → All (λ y. older y x ≡ false) ys
        → All (λ y. older y x ≡ false) (ys ++ r ∷ [])
    all_before [] b = (ground arith, tt)
    all_before (y ∷ ys) b = (b.0, all_before ys b.1)

In-last_row : (rs : List AuditLog) (l : AuditLog) → last_row rs ≡ some l → In l rs
In-last_row [] l e = cc e
In-last_row (r ∷ []) l e = here (cc e)
In-last_row (r ∷ s ∷ rs) l e = there (In-last_row (s ∷ rs) l e)

-- In a log with increasing times every row is the last one or older than it.
before_last :
    (rs : List AuditLog) (l y : AuditLog)
    → Strict older rs
    → last_row rs ≡ some l
    → In y rs
    → (y ≡ l) ⊎ (y.created_at < l.created_at)
before_last [] l y h e m = elim m [ ]
before_last (r ∷ []) l y h e m = elim (In-cons m) [ inl p ↦ inl (cc (p, e)) | inr n ↦ elim n [ ] ]
before_last (r ∷ s ∷ rs) l y h e m = elim (In-cons m) [
  | inl p ↦
      let above = All-In (λ z. older z r ≡ false) (s ∷ rs) h.0 (In-last_row (s ∷ rs) l e) in
      inr (rw p (ground arith))
  | inr n ↦ before_last (s ∷ rs) l y h.1 e n
]

last_row-owned : (rs : List AuditLog) → (rs ≡ []) ⊎ ((l : AuditLog) × (last_row rs ≡ some l))
last_row-owned [] = inl refl
last_row-owned (r ∷ []) = inr (r, refl)
last_row-owned (r ∷ s ∷ rs) = elim (last_row-owned (s ∷ rs)) [ inl e ↦ cc e | inr h ↦ inr h ]

-- The newest row that the database returns first is the last one.
first_is_last :
    {ys rs : List AuditLog} (l : AuditLog)
    → Shuffled ys rs
    → Sorted newer ys
    → Strict older rs
    → last_row rs ≡ some l
    → first_hash ys ≡ some l.hash_chain
first_is_last {ys = []} {rs = rs} l sh so st e = elim (In-of_Shuffled sh (In-last_row rs l e)) [ ]
first_is_last {ys = y ∷ ys} {rs = rs} l sh so st e =
    elim (In-cons (In-of_Shuffled sh (In-last_row rs l e))) [
      | inl p ↦ ap (λ z. some z.hash_chain) (sym p)
      | inr n ↦ elim (before_last rs l y st e (In-Shuffled sh (here refl))) [
        | inl p ↦ ap (λ z. some z.hash_chain) p
        | inr lt ↦ absurd (
            let le = leb→le l.created_at y.created_at (All-In (λ z. newer y z ≡ true) ys so.0 n) in
            omega arith)
      ]
    ]

or_else-hash : (env : Env) (h t y : Text) → h ≡ env.sha256_hex t → or_else (some h) y ≡ h
unfolding or_else
or_else-hash env h t y e = full h (ap length e ∙ env.length-sha256_hex t)
  where
    full : (s : Text) → length s ≡ 64 → or_else (some s) y ≡ s
    full [] n = cc n
    full (c ∷ s) n = refl

last_hash-row :
    (env : Env) (p : Text) (rs : List AuditLog) (l : AuditLog)
    → Linked env p rs
    → last_row rs ≡ some l
    → (last_hash p rs ≡ l.hash_chain)
      × (or_else (some l.hash_chain) (text "GENESIS") ≡ l.hash_chain)
unfolding expected_hash compute_hash_chain
last_hash-row env p [] l h e = cc e
last_hash-row env p (r ∷ []) l h e =
    let same = or_else-hash env r.hash_chain _ (text "GENESIS") h.0 in (cc e, cc (e, same))
last_hash-row env p (r ∷ s ∷ rs) l h e = last_hash-row env r.hash_chain (s ∷ rs) l h.1 e

empty_shuffled : {ys rs : List AuditLog} → Shuffled ys rs → rs ≡ [] → ys ≡ []
empty_shuffled none_left e = refl
empty_shuffled (pick s h) e = cc e

-- The log of one user: its rows are linked, and each is older than the next.
abbrev pub Chained : Env → ℕ → List AuditLog → Type 0
Chained env user_id rows =
    Linked env (text "GENESIS") (owned user_id rows) × Strict older (owned user_id rows)

pub previous_hash-last :
    (env : Env) (user_id : ℕ) (rows : List AuditLog)
    → Chained env user_id rows
    → previous_hash env user_id rows ≡ last_hash (text "GENESIS") (owned user_id rows)
unfolding previous_hash
previous_hash-last env user_id rows (linked, strict) = elim (last_row-owned (owned user_id rows)) [
  | inl e ↦ none_owned (owned user_id rows) e
  | inr (l, e) ↦
      let (same, full) = last_hash-row env (text "GENESIS") (owned user_id rows) l linked e in
      ap (λ o. or_else o (text "GENESIS"))
        (first_is_last l (env.latest_first-Shuffled (owned user_id rows))
          (env.latest_first-Sorted (owned user_id rows)) strict e)
      ∙ full
      ∙ sym same
]
  where
    none_owned :
        (rs : List AuditLog)
        → rs ≡ []
        → or_else (first_hash (env.latest_first rs)) (text "GENESIS")
          ≡ last_hash (text "GENESIS") rs
    none_owned rs e = rw (empty_shuffled (env.latest_first-Shuffled rs) e, e, or_else) refl
