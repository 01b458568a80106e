-- ===== src/Digest/Fitted.antt =====
-- What `fit_text_to_budget` returns keeps the budget, and is made of whole lines.
use kemory_community.Prelude.{
  ℕ, ◌≤◌, ◌≡◌, refl, Text, Option, none, some, List, [], ◌∷◌, ◌++◌, All, All-append, In, here,
  there, leb, leb→le, ltb, Bool-cases, inl, inr, ◌⊎◌, arith,
}
use kemory_community.Digest.Budget.{
  Encoding, count_tokens, splitlines, strip, marker, with_marker, keep_lines, fitted,
  fit_text_to_budget,
}

fitted-snoc : (kept : List Text) (l : Text) → fitted (kept ++ l ∷ []) ≡ with_marker (kept ++ l ∷ [])
fitted-snoc [] l = refl
fitted-snoc (k ∷ kept) l = refl

count-empty : (tokens : Option Encoding) (budget : ℕ) → count_tokens tokens [] ≤ budget
unfolding count_tokens
count-empty none budget = omega arith
count-empty (some e) budget = omega (arith, e.encode-empty)

module _ (tokens : Option Encoding) (budget : ℕ) where
  keep_lines-fits :
      (kept ls : List Text)
      → count_tokens tokens (fitted kept) ≤ budget
      → count_tokens tokens (fitted (keep_lines tokens budget kept ls)) ≤ budget
  unfolding keep_lines
  keep_lines-fits kept [] h = h
  keep_lines-fits kept (l ∷ ls) h =
      elim (Bool-cases (leb (count_tokens tokens (with_marker (kept ++ l ∷ []))) budget)) [
        | inl t ↦
            rw t (keep_lines-fits (kept ++ l ∷ []) ls (rw (fitted-snoc kept l) (leb→le _ _ t)))
        | inr f ↦ rw f (keep_lines-fits kept ls h)
      ]

  keep_lines-All :
      (P : Text → Type 0) (kept ls : List Text)
      → All P kept
      → All P ls
      → All P (keep_lines tokens budget kept ls)
  unfolding keep_lines
  keep_lines-All P kept [] h k = h
  keep_lines-All P kept (l ∷ ls) h k =
      elim (Bool-cases (leb (count_tokens tokens (with_marker (kept ++ l ∷ []))) budget)) [
        | inl t ↦
            rw t (keep_lines-All P (kept ++ l ∷ []) ls (All-append P kept (l ∷ []) h (k.0, tt)) k.1)
        | inr f ↦ rw f (keep_lines-All P kept ls h k.1)
      ]

  All-inside : (xs ys : List Text) → ((l : Text) → In l xs → In l ys) → All (λ l. In l ys) xs
  All-inside [] ys h = tt
  All-inside (x ∷ xs) ys h = (h x (here refl), All-inside xs ys (λ l m. h l (there m)))

  -- The text that is returned has at most as many tokens as the budget, its count is the second
  -- component, and it is the whole stripped text, or nothing, or some of its lines, none of them
  -- cut, followed by the marker.
  pub fit_within :
      (t : Text)
      → ((fit_text_to_budget tokens t budget).1 ≤ budget)
        × ((fit_text_to_budget tokens t budget).1
            ≡ count_tokens tokens (fit_text_to_budget tokens t budget).0)
        × (((fit_text_to_budget tokens t budget).0 ≡ strip t)
            ⊎ ((fit_text_to_budget tokens t budget).0 ≡ [])
            ⊎ ((kept : List Text) × All (λ l. In l (splitlines (strip t))) kept
                × ((fit_text_to_budget tokens t budget).0 ≡ fitted kept)))
  unfolding fit_text_to_budget
  fit_within t = elim (Bool-cases (leb (count_tokens tokens (strip t)) budget)) [
    | inl whole ↦ rw whole (leb→le _ _ whole, refl, inl refl)
    | inr long ↦ elim (Bool-cases (ltb budget (count_tokens tokens marker))) [
      | inl small ↦ rw (long, small) (count-empty tokens budget, refl, inr (inl refl))
      | inr room ↦
          rw (long, room)
            (
              keep_lines-fits [] (splitlines (strip t)) (ground arith),
              refl,
              inr (
                  inr (
                    keep_lines tokens budget [] (splitlines (strip t)),
                    keep_lines-All (λ l. In l (splitlines (strip t))) [] (splitlines (strip t)) tt
                        (All-inside (splitlines (strip t)) (splitlines (strip t)) (λ l m. m)),
                    refl,
                  )),
            )
    ]
  ]
