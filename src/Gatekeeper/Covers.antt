-- ===== src/Gatekeeper/Covers.antt =====
-- `_matches_scope` of backend/services/gatekeeper_service.py against what its comments describe.
use kemory_community.Prelude.{
  ◌≡◌, refl, ap, ◌↔◌, ◌⊎◌, inl, inr, Text, text, text_eq, text_eq_iff, starts_with,
  starts_with-append, true, [], ◌∷◌, ◌++◌, Bool-cases, arith, ==_iff,
}
use kemory_community.Gatekeeper.Scope.{ends_with, drop_last, matches_scope}

starts_with-split : (t p : Text) → starts_with t p ≡ true → (r : Text) × (t ≡ p ++ r)
unfolding starts_with
starts_with-split t [] h = (t, refl)
starts_with-split [] (c ∷ p) h = cc
starts_with-split (d ∷ t) (c ∷ p) h =
    let (r, e) = starts_with-split t p (ground arith) in (r, ground (arith, ==_iff d c))

ends_with-split : (t s : Text) → ends_with t s ≡ true → (p : Text) × (t ≡ p ++ s)
unfolding ends_with
ends_with-split [] s h = ([], (text_eq_iff [] s).0 h)
ends_with-split (c ∷ t) s h = elim (Bool-cases (text_eq (c ∷ t) s)) [
  | inl e ↦ ([], (text_eq_iff (c ∷ t) s).0 e)
  | inr n ↦ let (p, e) = ends_with-split t s (rw n at h) in (c ∷ p, ap (λ (u : Text). c ∷ u) e)
]

ends_with-append : (p s : Text) → ends_with (p ++ s) s ≡ true
unfolding ends_with
ends_with-append [] [] = (text_eq_iff [] []).1 refl
ends_with-append [] (c ∷ s) = rw ((text_eq_iff (c ∷ s) (c ∷ s)).1 refl)
ends_with-append (c ∷ p) s = ground (arith, ends_with-append p s)

drop_last-wildcard : (p : Text) → drop_last (p ++ text ":*") ≡ p ++ text ":"
unfolding drop_last
drop_last-wildcard [] = refl
drop_last-wildcard (c ∷ []) = refl
drop_last-wildcard (c ∷ d ∷ p) = ap (λ (u : Text). c ∷ u) (drop_last-wildcard (d ∷ p))

-- A rule's scope covers a requested one: it is the same, the administrator's, or a prefix
-- followed by ":*" where the request goes on behind "prefix:".
abbrev pub Covers : Text → Text → Type 0
Covers scope requested =
    (scope ≡ requested)
    ⊎ (scope ≡ text "admin:*")
    ⊎ ((p : Text) × (rest : Text) × (scope ≡ p ++ text ":*")
        × (requested ≡ (p ++ text ":") ++ rest))

sound : (scope requested : Text) → matches_scope scope requested ≡ true → Covers scope requested
unfolding matches_scope
sound scope requested h = elim (Bool-cases (text_eq scope requested)) [
  | inl e ↦ inl ((text_eq_iff _ _).0 e)
  | inr n ↦ elim (Bool-cases (text_eq scope (text "admin:*"))) [
    | inl e ↦ inr (inl ((text_eq_iff _ _).0 e))
    | inr m ↦ elim (Bool-cases (ends_with scope (text ":*"))) [
      | inl e ↦
          let (p, eq) = ends_with-split scope (text ":*") e in
          let starts : starts_with requested (drop_last scope) ≡ true = ground arith in
          let (rest, eq') =
            starts_with-split requested (p ++ text ":")
              (rw (← drop_last-wildcard p, ← eq) starts) in
          inr (inr (p, rest, eq, eq'))
      | inr k ↦ absurd (ground arith)
    ]
  ]
]

complete : (scope requested : Text) → Covers scope requested → matches_scope scope requested ≡ true
unfolding matches_scope
complete scope requested (inl e) = rw ((text_eq_iff scope requested).1 e)
complete scope requested (inr (inl e)) = ground (arith, text_eq_iff scope (text "admin:*"))
complete scope requested (inr (inr (p, rest, e, e'))) =
    let starts : starts_with requested (drop_last scope) ≡ true =
      rw (e, e', drop_last-wildcard p) (starts_with-append (p ++ text ":") rest) in
    let ends : ends_with scope (text ":*") ≡ true = rw e (ends_with-append p (text ":*")) in
    ground arith

-- A rule's scope matches a requested scope exactly when it covers it.
pub matches_scope_iff :
    (scope requested : Text) → (matches_scope scope requested ≡ true) ↔ Covers scope requested
matches_scope_iff scope requested = (sound scope requested, complete scope requested)
