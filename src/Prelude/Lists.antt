-- ===== src/Prelude/Lists.antt =====
-- Lists measured by native numbers, and predicates on every item of a list.
use Prim.Native.Nat.{ℕ, zero, suc, ◌+◌, ◌≤◌}
use mathlib.Core.Path.{◌≡◌, refl, sym, ap, ◌∙◌}
use mathlib.Core.Logic.{◌⊎◌, inl, inr}
use mathlib.Core.Bool.{Bool, true}
use mathlib.Core.List.{List, [], ◌∷◌, ◌++◌, map}
use native.Mathlib.Omega.{arith}
use kemory_community.Prelude.Tests.{if◌then◌else◌, Bool-cases}

module _ {ℓ} {A : Type ℓ} where
  abbrev pub length : List A → ℕ
  length [] = 0
  length (x ∷ xs) = suc (length xs)

  abbrev pub take : ℕ → List A → List A
  take zero xs = []
  take (suc n) [] = []
  take (suc n) (x ∷ xs) = x ∷ take n xs

  abbrev pub drop : ℕ → List A → List A
  drop zero xs = xs
  drop (suc n) [] = []
  drop (suc n) (x ∷ xs) = drop n xs

  -- `[x for x in xs if p(x)]`
  abbrev pub keep : (A → Bool) → List A → List A
  keep p [] = []
  keep p (x ∷ xs) = if p x then x ∷ keep p xs else keep p xs

  pub length-append : (xs ys : List A) → length (xs ++ ys) ≡ length xs + length ys
  length-append [] ys = omega arith
  length-append (x ∷ xs) ys = omega (arith, length-append xs ys)

  pub length-keep : (p : A → Bool) (xs : List A) → length (keep p xs) ≤ length xs
  length-keep p [] = omega arith
  length-keep p (x ∷ xs) = ground (arith, length-keep p xs)

  pub length-take : (n : ℕ) (xs : List A) → length (take n xs) ≤ n
  length-take zero xs = omega arith
  length-take (suc n) [] = omega arith
  length-take (suc n) (x ∷ xs) = omega (arith, length-take n xs)

pub length-map {ℓ κ} :
    {A : Type ℓ} {B : Type κ} (f : A → B) (xs : List A) → length (map f xs) ≡ length xs
length-map f [] = refl
length-map f (x ∷ xs) = omega (arith, length-map f xs)

module _ {ℓ} {A : Type ℓ} where
  pub keep-append : (p : A → Bool) (xs ys : List A) → keep p (xs ++ ys) ≡ keep p xs ++ keep p ys
  keep-append p [] ys = refl
  keep-append p (x ∷ xs) ys = ground (arith, keep-append p xs ys)

  pub take-append-drop : (n : ℕ) (xs : List A) → take n xs ++ drop n xs ≡ xs
  take-append-drop zero xs = refl
  take-append-drop (suc n) [] = refl
  take-append-drop (suc n) (x ∷ xs) = rw (take-append-drop n xs)

-- Membership as a place in the list.
module _ {ℓ} {A : Type ℓ} where
  pub data In (a : A) : List A → Type ℓ where
    here : {b : A} {xs : List A} → a ≡ b → In a (b ∷ xs)
    there : {b : A} {xs : List A} → In a xs → In a (b ∷ xs)

  pub In-keep : (p : A → Bool) {a : A} (xs : List A) → In a xs → p a ≡ true → In a (keep p xs)
  In-keep p [] m h = elim m [ ]
  In-keep p (x ∷ xs) (here e) h = rw (sym (ap p e) ∙ h) (here e)
  In-keep p (x ∷ xs) (there m) h = elim (Bool-cases (p x)) [
    | inl t ↦ rw t (there (In-keep p xs m h))
    | inr f ↦ rw f (In-keep p xs m h)
  ]

  pub In-cons : {a b : A} {xs : List A} → In a (b ∷ xs) → (a ≡ b) ⊎ In a xs
  In-cons (here e) = inl e
  In-cons (there m) = inr m

  pub In-of_keep : (p : A → Bool) {a : A} (xs : List A) → In a (keep p xs) → In a xs × (p a ≡ true)
  In-of_keep p [] m = elim m [ ]
  In-of_keep p (x ∷ xs) m = elim (Bool-cases (p x)) [
    | inl t ↦ elim (In-cons (rw t at m)) [
      | inl e ↦ (here e, ap p e ∙ t)
      | inr n ↦ let r = In-of_keep p xs n in (there r.0, r.1)
    ]
    | inr f ↦ let r = In-of_keep p xs (rw f at m) in (there r.0, r.1)
  ]

module _ {ℓ} {A : Type ℓ} where
  pub In-append : {a : A} (xs ys : List A) → In a xs → In a (xs ++ ys)
  In-append [] ys m = elim m [ ]
  In-append (x ∷ xs) ys m = elim (In-cons m) [ inl e ↦ here e | inr n ↦ there (In-append xs ys n) ]

  pub In-of_append : {a : A} (xs ys : List A) → In a (xs ++ ys) → In a xs ⊎ In a ys
  In-of_append [] ys m = inr m
  In-of_append (x ∷ xs) ys m = elim (In-cons m) [
    | inl e ↦ inl (here e)
    | inr n ↦ elim (In-of_append xs ys n) [ inl k ↦ inl (there k) | inr k ↦ inr k ]
  ]

  pub In-of_take : {a : A} (n : ℕ) (xs : List A) → In a (take n xs) → In a xs
  In-of_take zero xs m = elim m [ ]
  In-of_take (suc n) [] m = m
  In-of_take (suc n) (x ∷ xs) m = elim (In-cons m) [
    | inl e ↦ here e
    | inr k ↦ there (In-of_take n xs k)
  ]

  pub In-of_drop : {a : A} (n : ℕ) (xs : List A) → In a (drop n xs) → In a xs
  In-of_drop zero xs m = m
  In-of_drop (suc n) [] m = m
  In-of_drop (suc n) (x ∷ xs) m = there (In-of_drop n xs m)

pub map-map {ℓ κ μ} :
    {A : Type ℓ} {B : Type κ} {C : Type μ} (g : B → C) (f : A → B) (xs : List A)
    → map g (map f xs) ≡ map (λ x. g (f x)) xs
map-map g f [] = refl
map-map g f (x ∷ xs) = rw (map-map g f xs) refl

pub map_ext {ℓ κ} :
    {A : Type ℓ} {B : Type κ} (f g : A → B) (xs : List A)
    → ((x : A) → In x xs → f x ≡ g x)
    → map f xs ≡ map g xs
map_ext f g [] h = refl
map_ext f g (x ∷ xs) h = rw (h x (here refl), map_ext f g xs (λ y m. h y (there m))) refl

pub map_id {ℓ} : {A : Type ℓ} (xs : List A) → map (λ x. x) xs ≡ xs
map_id [] = refl
map_id (x ∷ xs) = rw (map_id xs) refl

module _ {ℓ κ} {A : Type ℓ} where
  abbrev pub All : (A → Type κ) → List A → Type κ
  All P [] = Unit
  All P (x ∷ xs) = P x × All P xs

  pub All-append : (P : A → Type κ) (xs ys : List A) → All P xs → All P ys → All P (xs ++ ys)
  All-append P [] ys hx hy = hy
  All-append P (x ∷ xs) ys hx hy = (hx.0, All-append P xs ys hx.1 hy)

  pub All-keep : (P : A → Type κ) (p : A → Bool) (xs : List A) → All P xs → All P (keep p xs)
  All-keep P p [] h = tt
  All-keep P p (x ∷ xs) h = ground (arith, All-keep P p xs h.1)
