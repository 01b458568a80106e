-- ===== src/Prelude/Stable.antt =====
-- Insertion sort and the items that pass a test: they are sorted on their own, and equal ones keep
-- their order.
use kemory_community.Prelude.{
  ◌≡◌, refl, sym, ◌∙◌, Bool, true, false, ◌&&◌, List, [], ◌∷◌, All, keep, Bool-cases, inl, inr,
  if◌then◌else◌, arith,
}
use kemory_community.Prelude.Order.{Sorted, place, sort, sort-Sorted}

module _ {A : Type 0} where
  All-keep : (P : A → Type 0) (p : A → Bool) (xs : List A) → All P xs → All P (keep p xs)
  All-keep P p [] h = tt
  All-keep P p (x ∷ xs) h = elim (Bool-cases (p x)) [
    | inl t ↦ rw t (h.0, All-keep P p xs h.1)
    | inr f ↦ rw f (All-keep P p xs h.1)
  ]

  pub keep-keep : (p q : A → Bool) (xs : List A) → keep p (keep q xs) ≡ keep (λ x. q x && p x) xs
  keep-keep p q [] = refl
  keep-keep p q (x ∷ xs) = ground (arith, keep-keep p q xs)

  pub keep-All : (p : A → Bool) (xs : List A) → All (λ x. p x ≡ true) (keep p xs)
  keep-All p [] = tt
  keep-All p (x ∷ xs) = elim (Bool-cases (p x)) [
    | inl t ↦ rw t (t, keep-All p xs)
    | inr f ↦ rw f (keep-All p xs)
  ]

module _ {A : Type 0} (le : A → A → Bool)
    (trans : (x y z : A) → le x y ≡ true → le y z ≡ true → le x z ≡ true)
    (total : (x y : A) → le x y ≡ false → le y x ≡ true) where
  below-All :
      (x y : A) (zs : List A)
      → le x y ≡ true
      → All (λ z. le y z ≡ true) zs
      → All (λ z. le x z ≡ true) zs
  below-All x y [] h a = tt
  below-All x y (z ∷ zs) h a = (trans x y z h a.0, below-All x y zs h a.1)

  place-first : (x : A) (zs : List A) → All (λ z. le x z ≡ true) zs → place le x zs ≡ x ∷ zs
  unfolding place
  place-first x [] h = refl
  place-first x (z ∷ zs) h = rw h.0 refl

  keep-place :
      (p : A → Bool) (x : A) (ys : List A)
      → Sorted le ys
      → keep p (place le x ys) ≡ (if p x then place le x (keep p ys) else keep p ys)
  unfolding place
  keep-place p x [] s = refl
  keep-place p x (y ∷ ys) s =
      let rest = keep-place p x ys s.1 in
      elim (Bool-cases (le x y)) [
        | inl t ↦ elim (Bool-cases (p x)) [
          | inr f ↦ rw (t, f) refl
          | inl here_x ↦
              rw (t, here_x)
                (sym (
                  place-first x _
                    (All-keep (λ z. le x z ≡ true) p (y ∷ ys) (t, below-All x y ys t s.0))))
        ]
        | inr f ↦ ground (arith, rest)
      ]

  -- The kept items of a sorted list are the sorted kept items.
  pub keep-sort : (p : A → Bool) (xs : List A) → keep p (sort le xs) ≡ sort le (keep p xs)
  unfolding sort
  keep-sort p [] = refl
  keep-sort p (x ∷ xs) =
      keep-place p x (sort le xs) (sort-Sorted le trans total xs)
      ∙ (let rest = keep-sort p xs in ground (arith, rest))

  -- A list of items that are all equal in the order stays as it is.
  pub sort-same : (xs : List A) → Sorted le xs → sort le xs ≡ xs
  unfolding sort
  sort-same [] s = refl
  sort-same (x ∷ xs) s = rw (sort-same xs s.1) (place-first x xs s.0)
