-- ===== src/Prelude/Order.antt =====
-- ORDER BY: sorted lists, permutations as repeated selection, and insertion sort, which meets what
-- the models ask of a database.
use mathlib.Core.Path.{◌≡◌, refl, sym, ap, ◌∙◌}
use mathlib.Core.Logic.{◌⊎◌, inl, inr}
use mathlib.Core.Bool.{Bool, true, false}
use mathlib.Core.List.{List, [], ◌∷◌}
use native.Mathlib.Omega.{arith}
use kemory_community.Prelude.Tests.{if◌then◌else◌, Bool-cases}
use kemory_community.Prelude.Lists.{All, In, here, there, In-cons}

module _ {ℓ} {A : Type ℓ} where
  -- `zs` is `ys` without one occurrence of `a`.
  pub data Select (a : A) : List A → List A → Type ℓ where
    first : {b : A} {ys : List A} → a ≡ b → Select a (b ∷ ys) ys
    later : {b : A} {ys zs : List A} → Select a ys zs → Select a (b ∷ ys) (b ∷ zs)

  -- `ys` is a permutation of `xs`.
  pub data Shuffled : List A → List A → Type ℓ where
    none_left : Shuffled [] []
    pick : {a : A} {xs ys zs : List A} → Select a ys zs → Shuffled zs xs → Shuffled ys (a ∷ xs)

  pub Shuffled-refl : (xs : List A) → Shuffled xs xs
  Shuffled-refl [] = none_left
  Shuffled-refl (x ∷ xs) = pick (first refl) (Shuffled-refl xs)

  In-select : {a b : A} {ys zs : List A} → Select a ys zs → In b ys → (b ≡ a) ⊎ In b zs
  In-select (first e) m = elim (In-cons m) [ inl p ↦ inl (p ∙ sym e) | inr n ↦ inr n ]
  In-select (later s) m = elim (In-cons m) [
    | inl p ↦ inr (here p)
    | inr n ↦ elim (In-select s n) [ inl e ↦ inl e | inr k ↦ inr (there k) ]
  ]

  In-of_select : {a b : A} {ys zs : List A} → Select a ys zs → (b ≡ a) ⊎ In b zs → In b ys
  In-of_select (first e) (inl p) = here (p ∙ e)
  In-of_select (first e) (inr n) = there n
  In-of_select (later s) (inl p) = there (In-of_select s (inl p))
  In-of_select (later s) (inr n) = elim (In-cons n) [
    | inl p ↦ here p
    | inr k ↦ there (In-of_select s (inr k))
  ]

  pub In-Shuffled : {b : A} {ys xs : List A} → Shuffled ys xs → In b ys → In b xs
  In-Shuffled none_left m = m
  In-Shuffled (pick s h) m = elim (In-select s m) [
    | inl e ↦ here e
    | inr n ↦ there (In-Shuffled h n)
  ]

  pub In-of_Shuffled : {b : A} {ys xs : List A} → Shuffled ys xs → In b xs → In b ys
  In-of_Shuffled none_left m = m
  In-of_Shuffled (pick s h) m = elim (In-cons m) [
    | inl e ↦ In-of_select s (inl e)
    | inr n ↦ In-of_select s (inr (In-of_Shuffled h n))
  ]

module _ {ℓ κ} {A : Type ℓ} where
  pub All-In : (P : A → Type κ) {b : A} (xs : List A) → All P xs → In b xs → P b
  All-In P [] h m = elim m [ ]
  All-In P (x ∷ xs) h (here e) = rw e h.0
  All-In P (x ∷ xs) h (there m) = All-In P xs h.1 m

module _ {ℓ} {A : Type ℓ} (le : A → A → Bool) where
  abbrev pub Sorted : List A → Type 0
  Sorted [] = Unit
  Sorted (x ∷ xs) = All (λ y. le x y ≡ true) xs × Sorted xs

  -- No item comes before an earlier one, nor with it.
  abbrev pub Strict : List A → Type 0
  Strict [] = Unit
  Strict (x ∷ xs) = All (λ y. le y x ≡ false) xs × Strict xs

  -- Only one order of a strictly increasing list is sorted.
  pub Sorted-unique : {ys xs : List A} → Shuffled ys xs → Sorted ys → Strict xs → ys ≡ xs
  Sorted-unique none_left s t = refl
  Sorted-unique (pick (first e) h) s t = rw (e, Sorted-unique h s.1 t.1)
  Sorted-unique (pick {a = a} {xs = xs} (later {b = b} {ys = ys} k) h) s t = absurd (
      let below = All-In (λ y. le y a ≡ false) xs t.0 (In-Shuffled h (here refl)) in
      let above = All-In (λ y. le b y ≡ true) ys s.0 (In-of_select k (inl refl)) in
      cc (below, above))

  unfoldable pub place : A → List A → List A
  place x [] = x ∷ []
  place x (y ∷ ys) = if le x y then x ∷ y ∷ ys else y ∷ place x ys

  unfoldable pub sort : List A → List A
  unfolding place
  sort [] = []
  sort (x ∷ xs) = place x (sort xs)

  select-place : (x : A) (ys : List A) → Select x (place x ys) ys
  unfolding place
  select-place x [] = first refl
  select-place x (y ∷ ys) = elim (Bool-cases (le x y)) [
    | inl t ↦ rw t (first refl)
    | inr f ↦ rw f (later (select-place x ys))
  ]

  pub sort-Shuffled : (xs : List A) → Shuffled (sort xs) xs
  unfolding sort
  sort-Shuffled [] = none_left
  sort-Shuffled (x ∷ xs) = pick (select-place x (sort xs)) (sort-Shuffled xs)

  module _ (trans : (x y z : A) → le x y ≡ true → le y z ≡ true → le x z ≡ true)
      (total : (x y : A) → le x y ≡ false → le y x ≡ true) where
    above_trans :
        (x y : A) (zs : List A)
        → le x y ≡ true
        → All (λ z. le y z ≡ true) zs
        → All (λ z. le x z ≡ true) zs
    above_trans x y [] h a = tt
    above_trans x y (z ∷ zs) h a = (trans x y z h a.0, above_trans x y zs h a.1)

    above_place :
        (x y : A) (zs : List A)
        → le y x ≡ true
        → All (λ z. le y z ≡ true) zs
        → All (λ z. le y z ≡ true) (place x zs)
    unfolding place
    above_place x y [] h a = (h, tt)
    above_place x y (z ∷ zs) h a = ground (arith, above_place x y zs h a.1)

    place-Sorted : (x : A) (ys : List A) → Sorted ys → Sorted (place x ys)
    unfolding place
    place-Sorted x [] s = (tt, tt)
    place-Sorted x (y ∷ ys) s = elim (Bool-cases (le x y)) [
      | inl t ↦ rw t ((t, above_trans x y ys t s.0), s)
      | inr f ↦ rw f (above_place x y ys (total x y f) s.0, place-Sorted x ys s.1)
    ]

    pub sort-Sorted : (xs : List A) → Sorted (sort xs)
    unfolding sort
    sort-Sorted [] = tt
    sort-Sorted (x ∷ xs) = place-Sorted x (sort xs) (sort-Sorted xs)

    -- Sorting does not depend on the order that a list had, where equal items are the same.
    module _ (antisym : (x y : A) → le x y ≡ true → le y x ≡ true → x ≡ y) where
      place_two :
          (x y : A) (zs : List A)
          → (if le x y then x ∷ y ∷ zs else y ∷ x ∷ zs)
            ≡ (if le y x then y ∷ x ∷ zs else x ∷ y ∷ zs)
      place_two x y zs = elim (Bool-cases (le x y)) [
        | inl t ↦ elim (Bool-cases (le y x)) [
          | inl u ↦
              let same = antisym x y t u in
              rw (t, u) (ap (λ z. z ∷ y ∷ zs) same ∙ ap (λ z. y ∷ z ∷ zs) (sym same))
          | inr f ↦ rw (t, f) refl
        ]
        | inr f ↦ rw (f, total x y f) refl
      ]

      place_behind :
          (x y z : A) (zs : List A)
          → le x z ≡ true
          → le y z ≡ false
          → x ∷ z ∷ place y zs ≡ (if le y x then y ∷ x ∷ z ∷ zs else x ∷ z ∷ place y zs)
      place_behind x y z zs t g = elim (Bool-cases (le y x)) [
        | inl u ↦ absurd (let v = trans y x z u t in cc (v, g))
        | inr f ↦ rw f refl
      ]

      place-place : (x y : A) (zs : List A) → place x (place y zs) ≡ place y (place x zs)
      unfolding place
      place-place x y [] = place_two x y []
      place-place x y (z ∷ zs) = elim (Bool-cases (le x z)) [
        | inl t ↦ elim (Bool-cases (le y z)) [
          | inl u ↦ rw (t, u, t) (place_two x y (z ∷ zs))
          | inr g ↦ rw (t, g, t) (place_behind x y z zs t g)
        ]
        | inr f ↦ elim (Bool-cases (le y z)) [
          | inl u ↦ rw (f, u, f) (sym (place_behind y x z zs u f))
          | inr g ↦ rw (f, g, f) (ap (λ l. z ∷ l) (place-place x y zs))
        ]
      ]

      sort-select : {a : A} {xs zs : List A} → Select a xs zs → sort xs ≡ place a (sort zs)
      unfolding sort
      sort-select (first {ys = ys} e) = ap (λ c. place c (sort ys)) (sym e)
      sort-select {a = a} (later {b = b} {zs = zs} s) =
          ap (place b) (sort-select s) ∙ place-place b a (sort zs)

      pub sort-invariant : {ys xs : List A} → Shuffled ys xs → sort ys ≡ sort xs
      unfolding sort
      sort-invariant none_left = refl
      sort-invariant (pick {a = a} s h) = sort-select s ∙ ap (place a) (sort-invariant h)
