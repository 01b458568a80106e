-- ===== src/Pair/Claims.antt =====
-- What the in-memory pair store promises: a code is claimed once, and lives for five minutes.
use kemory_community.Prelude.{
  ℕ, ◌+◌, ◌≤◌, ◌≡◌, ◌≢◌, refl, ap, Text, text_eq_iff, true, false, not, ◌||◌, none, some, ltb,
  if◌then◌else◌, ◌⊎◌, inl, inr, Bool-cases, Option-cases, arith,
}
use kemory_community.Prelude.Dict.{
  lookup, insert, remove, str_eq, Unique, Unique-insert, Unique-keep, lookup-insert, lookup-remove,
  lookup-keep, passes,
}
use kemory_community.Pair.Record.{PairRecord, is_claimed, is_expired, fresh_record, claim, pair_ttl}
use kemory_community.Pair.Memory.{
  Store, purge, save, load, start_pair, get_pair, mark_claimed, delete_pair,
}

-- A record stands under its own code, and no code stands twice.
pub record IsCoherent (s : Store) : Type 0 where
  pub keyed : (c : Text) (r : PairRecord) → lookup c s ≡ some r → r.code ≡ c
  pub unique : Unique s

-- Nobody can claim the code any more.
abbrev pub Spent : Text → Store → Type 0
Spent c s = (r : PairRecord) → lookup c s ≡ some r → is_claimed r ≡ true

lookup-purge :
    (c : Text) (now : ℕ) (s : Store)
    → Unique s
    → lookup c (purge now s) ≡ passes (λ p. not (ltb (p.1).expires_at now)) c (lookup c s)
unfolding purge
lookup-purge c now s u = lookup-keep (λ p. not (ltb (p.1).expires_at now)) c s u

of_purged :
    (c : Text) (now : ℕ) (s : Store) (r : PairRecord)
    → Unique s
    → lookup c (purge now s) ≡ some r
    → (lookup c s ≡ some r) × (now ≤ r.expires_at)
of_purged c now s r u h = ground (arith, lookup-purge c now s u)

purge-IsCoherent : (now : ℕ) (s : Store) → IsCoherent s → IsCoherent (purge now s)
purge-IsCoherent now s h = record {
  keyed = λ c r e. h.keyed c r (of_purged c now s r h.unique e).0;
  unique = unfold purge in Unique-keep (λ p. not (ltb (p.1).expires_at now)) s h.unique;
}

save-IsCoherent : (x : PairRecord) (s : Store) → IsCoherent s → IsCoherent (save x s)
unfolding save
save-IsCoherent x s h = record {
  keyed = λ c r e. ground (arith, lookup-insert x.code c x s, h.keyed c r, text_eq_iff x.code c);
  unique = Unique-insert x.code x s h.unique;
}

claim-code :
    (r : PairRecord) (a n cl : Text) (now : ℕ)
    → ((claim r a n cl now).code ≡ r.code) × (is_claimed (claim r a n cl now) ≡ true)
unfolding claim is_claimed
claim-code r a n cl now = (refl, refl)

-- What a claim leaves: the purged store, with the claimed record in it if there was one to claim.
mark_cases :
    (c a n cl : Text) (now : ℕ) (s : Store)
    → (mark_claimed c a n cl now s ≡ (none, purge now s))
      ⊎ ((r : PairRecord) × (lookup c (purge now s) ≡ some r)
          × (is_expired r now ≡ false)
          × (is_claimed r ≡ false)
          × (mark_claimed c a n cl now s
              ≡ (some (claim r a n cl now), save (claim r a n cl now) (purge now s))))
unfolding mark_claimed load
mark_cases c a n cl now s = elim (Option-cases (lookup c (purge now s))) [
  | inl e ↦ inl (ground arith)
  | inr (r, e) ↦ elim (Bool-cases (is_expired r now || is_claimed r)) [
    | inl t ↦ inl (ground arith)
    | inr f ↦ inr (r, e, ground arith, ground arith, ground arith)
  ]
]

mark-IsCoherent :
    (c a n cl : Text) (now : ℕ) (s : Store)
    → IsCoherent s
    → IsCoherent (mark_claimed c a n cl now s).1
mark-IsCoherent c a n cl now s h = elim (mark_cases c a n cl now s) [
  | inl e ↦ rw e (purge-IsCoherent now s h)
  | inr (r, found, fresh, open_, e) ↦
      rw e (save-IsCoherent (claim r a n cl now) (purge now s) (purge-IsCoherent now s h))
]

-- The other calls that clients make, as long as no new pair is started under the code `c`.
pub data Step (c : Text) : Store → Store → Type 0 where
  started :
      (s : Store) (code user_id org_id purpose : Text) (now : ℕ)
      → code ≢ c
      → Step c s (start_pair code user_id org_id purpose now s).1
  got : (s : Store) (code : Text) (now : ℕ) → Step c s (get_pair code now s).1
  claimed :
      (s : Store) (code agent_id agent_name client_name : Text) (now : ℕ)
      → Step c s (mark_claimed code agent_id agent_name client_name now s).1
  deleted : (s : Store) (code : Text) → Step c s (delete_pair code s)

pub data Reach (c : Text) (start : Store) : Store → Type 0 where
  here : Reach c start start
  next : {s t : Store} → Reach c start s → Step c s t → Reach c start t

abbrev Done : Text → Store → Type 0
Done c s = IsCoherent s × Spent c s

purge-Done : (c : Text) (now : ℕ) (s : Store) → Done c s → Done c (purge now s)
purge-Done c now s (h, spent) =
    (purge-IsCoherent now s h, λ r e. spent r (of_purged c now s r h.unique e).0)

save-Done :
    (c : Text) (x : PairRecord) (s : Store)
    → (x.code ≡ c → is_claimed x ≡ true)
    → Done c s
    → Done c (save x s)
unfolding save
save-Done c x s claimed_if (h, spent) = (
  unfold save in save-IsCoherent x s h,
  λ r e. ground (arith, lookup-insert x.code c x s, spent r, text_eq_iff x.code c, claimed_if),
)

delete-Done : (c code : Text) (s : Store) → Done c s → Done c (delete_pair code s)
unfolding delete_pair
delete-Done c code s (h, spent) = (
  record {
    keyed = λ k r e. ground (arith, lookup-remove code k s, h.keyed k r);
    unique = unfold remove in Unique-keep (λ p. not (str_eq.beq p.0 code)) s h.unique;
  },
  λ r e. ground (arith, lookup-remove code c s, spent r),
)

Step-Done : (c : Text) {s t : Store} → Step c s t → Done c s → Done c t
unfolding start_pair get_pair load fresh_record
Step-Done c (started s code user_id org_id purpose now ne) d =
    save-Done c (fresh_record code user_id org_id purpose now) s (λ e. absurd (ne e)) d
Step-Done c (got s code now) d = purge-Done c now s d
Step-Done c (claimed s code a n cl now) d = elim (mark_cases code a n cl now s) [
  | inl e ↦ rw e (purge-Done c now s d)
  | inr (r, found, fresh, open_, e) ↦ rw e (
      save-Done c (claim r a n cl now) (purge now s) (λ _. (claim-code r a n cl now).1)
        (purge-Done c now s d))
]
Step-Done c (deleted s code) d = delete-Done c code s d

Reach-Done : (c : Text) {s t : Store} → Done c s → Reach c s t → Done c t
Reach-Done c d here = d
Reach-Done c d (next r st) = Step-Done c st (Reach-Done c d r)

Done-refuses :
    (c a n cl : Text) (now : ℕ) (s : Store) → Done c s → (mark_claimed c a n cl now s).0 ≡ none
Done-refuses c a n cl now s (h, spent) = elim (mark_cases c a n cl now s) [
  | inl e ↦ ap (λ p. p.0) e
  | inr (r, found, fresh, open_, e) ↦ cc (spent r (of_purged c now s r h.unique found).0)
]

mark-Done :
    (c a n cl : Text) (now : ℕ) (s : Store) (r : PairRecord)
    → IsCoherent s
    → (mark_claimed c a n cl now s).0 ≡ some r
    → Done c (mark_claimed c a n cl now s).1
mark-Done c a n cl now s r h won = elim (mark_cases c a n cl now s) [
  | inl e ↦ cc e
  | inr (x, found, fresh, open_, e) ↦
      let h' = purge-IsCoherent now s h in
      rw e
        (save-IsCoherent (claim x a n cl now) (purge now s) h', saved_spent x (h'.keyed c x found))
]
  where
    saved_spent : (x : PairRecord) → x.code ≡ c → Spent c (save (claim x a n cl now) (purge now s))
    saved_spent x key y found =
        unfold save in
        ground (
          arith,
          claim-code x a n cl now,
          lookup-insert (claim x a n cl now).code c (claim x a n cl now) (purge now s),
          text_eq_iff (claim x a n cl now).code c,
        )

-- Without Redis a code is claimed at most once: after a successful claim, and after any further
-- calls that do not start a new pair under the same code, every claim of the code returns nothing.
pub claim_once :
    (c a n cl a' n' cl' : Text) (now later : ℕ) (s : Store) {t : Store} (r : PairRecord)
    → IsCoherent s
    → (mark_claimed c a n cl now s).0 ≡ some r
    → Reach c (mark_claimed c a n cl now s).1 t
    → (mark_claimed c a' n' cl' later t).0 ≡ none
claim_once c a n cl a' n' cl' now later s {t = t} r h won path =
    Done-refuses c a' n' cl' later t (Reach-Done c (mark-Done c a n cl now s r h won) path)

-- A pair that was just started is found, and can be claimed, up to the end of its five minutes,
-- and from then on it is neither.
pub pair_lifetime :
    (c user_id org_id purpose a n cl : Text) (start now : ℕ) (s : Store)
    → IsCoherent s
    → let (r, t) = start_pair c user_id org_id purpose start s in
      ((get_pair c now t).0 ≡ (if ltb (start + pair_ttl) now then none else some r))
      × ((mark_claimed c a n cl now t).0
          ≡ (if ltb (start + pair_ttl) now then none else some (claim r a n cl now)))
unfolding start_pair get_pair mark_claimed load save fresh_record is_expired is_claimed
pair_lifetime c user_id org_id purpose a n cl start now s h =
    let r = fresh_record c user_id org_id purpose start in
    let left = lookup-purge c now (insert c r s) (Unique-insert c r s h.unique) in
    (
      ground (arith, left, lookup-insert c c r s, text_eq_iff c c),
      ground (arith, left, lookup-insert c c r s, text_eq_iff c c),
    )
