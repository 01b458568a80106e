-- ===== src/Memory/Table.antt =====
-- What an assignment to one row keeps: the identifiers, the keys of the active rows and the rows of
-- the other users.
use kemory_community.Prelude.{
  ℕ, ◌≡◌, refl, sym, ap, ◌∙◌, true, false, List, [], ◌∷◌, ◌++◌, keep, All, In, here, there,
  Bool-cases, ◌==◌, inl, inr, arith,
}
use kemory_community.Prelude.Order.{All-In}
use kemory_community.Memory.Schema.{Env, Memory}
use kemory_community.Memory.Dedup.{assign}

module _ {env : Env} where
  -- No row has the identifier.
  abbrev pub Fresh : ℕ → List (Memory env) → Type 0
  Fresh id ms = All (λ n. (n.memory_id == id) ≡ false) ms

  abbrev pub UniqueIds : List (Memory env) → Type 0
  UniqueIds [] = Unit
  UniqueIds (m ∷ ms) = Fresh m.memory_id ms × UniqueIds ms

  pub same_row :
      (a b : Memory env) (ms : List (Memory env))
      → UniqueIds ms
      → In a ms
      → In b ms
      → (a.memory_id == b.memory_id) ≡ true
      → a ≡ b
  same_row a b (m ∷ ms) u (here e) (here f) t = e ∙ sym f
  same_row a b (m ∷ ms) u (here e) (there j) t =
      absurd (let away = All-In _ ms u.0 j in let t' = rw e at t in ground (arith, away, t'))
  same_row a b (m ∷ ms) u (there i) (here f) t =
      absurd (let away = All-In _ ms u.0 i in let t' = rw f at t in ground (arith, away, t'))
  same_row a b (m ∷ ms) u (there i) (there j) t = same_row a b ms u.1 i j t
  same_row a b [] u i j t = elim i [ ]

  pub All-assign :
      (P : Memory env → Type 0) (id : ℕ) (g : Memory env → Memory env) (ms : List (Memory env))
      → ((m : Memory env) → P m → P (g m))
      → All P ms
      → All P (assign id g ms)
  unfolding assign
  All-assign P id g [] h a = tt
  All-assign P id g (m ∷ ms) h a = elim (Bool-cases (m.memory_id == id)) [
    | inl t ↦ rw (assign, t) (h m a.0, All-assign P id g ms h a.1)
    | inr f ↦ rw (assign, f) (a.0, All-assign P id g ms h a.1)
  ]

  pub assign-Fresh :
      (id : ℕ) (g : Memory env → Memory env) (ms : List (Memory env))
      → Fresh id ms
      → assign id g ms ≡ ms
  unfolding assign
  assign-Fresh id g [] f = refl
  assign-Fresh id g (m ∷ ms) f = rw (assign, f.0) (ap (λ l. m ∷ l) (assign-Fresh id g ms f.1))

  pub UniqueIds-assign :
      (id : ℕ) (g : Memory env → Memory env) (ms : List (Memory env))
      → ((m : Memory env) → (g m).memory_id ≡ m.memory_id)
      → UniqueIds ms
      → UniqueIds (assign id g ms)
  unfolding assign
  UniqueIds-assign id g [] same u = tt
  UniqueIds-assign id g (m ∷ ms) same u =
      let rest =
        All-assign (λ n. (n.memory_id == m.memory_id) ≡ false) id g ms (λ n a. rw (same n) a) u.0 in
      elim (Bool-cases (m.memory_id == id)) [
        | inl t ↦ rw (assign, t, same m) (rest, UniqueIds-assign id g ms same u.1)
        | inr f ↦ rw (assign, f) (rest, UniqueIds-assign id g ms same u.1)
      ]

  pub UniqueIds-snoc :
      (m : Memory env) (ms : List (Memory env))
      → Fresh m.memory_id ms
      → UniqueIds ms
      → UniqueIds (ms ++ m ∷ [])
  UniqueIds-snoc m [] f u = (tt, tt)
  UniqueIds-snoc m (x ∷ ms) f u = (away m x ms f.0 u.0, UniqueIds-snoc m ms f.1 u.1)
    where
      away :
          (m x : Memory env) (ms : List (Memory env))
          → (x.memory_id == m.memory_id) ≡ false
          → Fresh x.memory_id ms
          → Fresh x.memory_id (ms ++ m ∷ [])
      away m x [] f u = (ground arith, tt)
      away m x (y ∷ ms) f u = (u.0, away m x ms f u.1)

  abbrev pub own : ℕ → List (Memory env) → List (Memory env)
  own user_id ms = keep (λ m. m.user_id == user_id) ms

  -- An assignment to rows of other users leaves a user's rows alone.
  pub own-assign :
      (u id : ℕ) (g : Memory env → Memory env) (ms : List (Memory env))
      → ((m : Memory env) → (g m).user_id ≡ m.user_id)
      → ((m : Memory env) → In m ms → (m.memory_id == id) ≡ true → (m.user_id == u) ≡ false)
      → own u (assign id g ms) ≡ own u ms
  unfolding assign
  own-assign u id g [] same other = refl
  own-assign u id g (m ∷ ms) same other =
      let rest = own-assign u id g ms same (λ n i. other n (there i)) in
      elim (Bool-cases (m.memory_id == id)) [
        | inl t ↦ rw (assign, t, same m, other m (here refl) t) rest
        | inr f ↦ elim (Bool-cases (m.user_id == u)) [
          | inl o ↦ rw (assign, f, o) (ap (λ l. m ∷ l) rest)
          | inr o ↦ rw (assign, f, o) rest
        ]
      ]
