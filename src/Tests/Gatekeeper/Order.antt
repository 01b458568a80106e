-- ===== src/Tests/Gatekeeper/Order.antt =====
-- Insertion sort of the rules by priority, which meets what the model asks of ORDER BY.
use kemory_community.Prelude.{
  ℕ, ◌≤◌, ◌≡◌, List, [], ◌∷◌, All, In, here, there, In-cons, inl, inr, ◌⊎◌, leb, Bool-cases, leb→le,
  if◌then◌else◌, arith,
}
use kemory_community.Gatekeeper.Schema.{PermissionRule, Sorted}

insert : PermissionRule → List PermissionRule → List PermissionRule
insert r [] = r ∷ []
insert r (s ∷ rs) = if leb r.priority s.priority then r ∷ s ∷ rs else s ∷ insert r rs

unfoldable pub sort : List PermissionRule → List PermissionRule
unfolding insert
sort [] = []
sort (r ∷ rs) = insert r (sort rs)

abbrev Above : ℕ → List PermissionRule → Type 0
Above n rs = All (λ s. n ≤ s.priority) rs

Above-trans : (m n : ℕ) (rs : List PermissionRule) → m ≤ n → Above n rs → Above m rs
Above-trans m n [] le h = tt
Above-trans m n (r ∷ rs) le h = (omega arith, Above-trans m n rs le h.1)

Above-insert :
    (n : ℕ) (r : PermissionRule) (rs : List PermissionRule)
    → n ≤ r.priority
    → Above n rs
    → Above n (insert r rs)
unfolding insert
Above-insert n r [] le h = (le, tt)
Above-insert n r (s ∷ rs) le h = ground (arith, Above-insert n r rs le h.1)

insert-Sorted : (r : PermissionRule) (rs : List PermissionRule) → Sorted rs → Sorted (insert r rs)
unfolding insert
insert-Sorted r [] h = (tt, tt)
insert-Sorted r (s ∷ rs) h = elim (Bool-cases (leb r.priority s.priority)) [
  | inl t ↦
      let le = leb→le r.priority s.priority t in
      rw t ((le, Above-trans r.priority s.priority rs le h.0), h)
  | inr f ↦ rw f (Above-insert s.priority r rs (ground arith) h.0, insert-Sorted r rs h.1)
]

pub sort-Sorted : (rs : List PermissionRule) → Sorted (sort rs)
unfolding sort
sort-Sorted [] = tt
sort-Sorted (r ∷ rs) = insert-Sorted r (sort rs) (sort-Sorted rs)

In-insert :
    (a r : PermissionRule) (rs : List PermissionRule) → (a ≡ r) ⊎ In a rs → In a (insert r rs)
unfolding insert
In-insert a r [] (inl e) = here e
In-insert a r [] (inr m) = elim m [ ]
In-insert a r (s ∷ rs) h = elim (Bool-cases (leb r.priority s.priority)) [
  | inl t ↦ rw t (elim h [ inl e ↦ here e | inr m ↦ there m ])
  | inr f ↦ rw f (elim h [
    | inl e ↦ there (In-insert a r rs (inl e))
    | inr m ↦ elim (In-cons m) [ inl e ↦ here e | inr n ↦ there (In-insert a r rs (inr n)) ]
  ])
]

In-of_insert :
    (a r : PermissionRule) (rs : List PermissionRule) → In a (insert r rs) → (a ≡ r) ⊎ In a rs
unfolding insert
In-of_insert a r [] m = In-cons m
In-of_insert a r (s ∷ rs) m = elim (Bool-cases (leb r.priority s.priority)) [
  | inl t ↦ In-cons (rw t at m)
  | inr f ↦ elim (In-cons (rw f at m)) [
    | inl e ↦ inr (here e)
    | inr n ↦ elim (In-of_insert a r rs n) [ inl e ↦ inl e | inr k ↦ inr (there k) ]
  ]
]

pub In-sort : (a : PermissionRule) (rs : List PermissionRule) → In a rs → In a (sort rs)
unfolding sort
In-sort a [] m = m
In-sort a (r ∷ rs) m = elim (In-cons m) [
  | inl e ↦ In-insert a r (sort rs) (inl e)
  | inr n ↦ In-insert a r (sort rs) (inr (In-sort a rs n))
]

pub In-of_sort : (a : PermissionRule) (rs : List PermissionRule) → In a (sort rs) → In a rs
unfolding sort
In-of_sort a [] m = m
In-of_sort a (r ∷ rs) m = elim (In-of_insert a r (sort rs) m) [
  | inl e ↦ here e
  | inr n ↦ there (In-of_sort a rs n)
]
