-- ===== src/Local/Survival.antt =====
-- Two facts that every sequence of the backend's operations keeps.
use kemory_community.Prelude.{
  ◌≡◌, refl, sym, ap, ◌∙◌, text, text_eq, Bool, false, ◌&&◌, none, some, List, [], ◌∷◌, All,
  All-append, In, In-cons, In-append, Bool-cases, inl, inr, arith,
}
use kemory_community.Local.Schema.{Env, Episode, Backend}
use kemory_community.Local.Episodes.{
  is_valid, is_demoted, update_episodes, touch, promote, new_episode,
}
use kemory_community.Local.Forget.{demote}
use kemory_community.Local.Lifecycle.{Reach, IsKept, Reach-Every}

module _ {env : Env} where
  All-update :
      (P : Episode env → Type 0) (p : Episode env → Bool) (f : Episode env → Episode env)
      (es : List (Episode env))
      → ((e : Episode env) → P e → P (f e))
      → All P es
      → All P (update_episodes p f es)
  unfolding update_episodes
  All-update P p f [] h a = tt
  All-update P p f (e ∷ es) h a = elim (Bool-cases (p e)) [
    | inl t ↦ rw t (h e a.0, All-update P p f es h a.1)
    | inr n ↦ rw n (a.0, All-update P p f es h a.1)
  ]

  -- An episode that is demoted is invalid.
  abbrev pub IsSound : Episode env → Type 0
  IsSound e = (is_demoted e && is_valid e) ≡ false

  IsSound-IsKept : IsKept (All IsSound)
  unfolding touch promote demote text_eq
  IsSound-IsKept = record {
    on_touch = λ p t es a. All-update IsSound p (touch t) es (λ e h. h) a;
    on_promote = λ p es a. All-update IsSound p promote es (λ e h. refl) a;
    on_invalidate = λ p t es a.
        All-update IsSound p (λ e. record e { invalid_at = some t }) es (λ e h. ground arith) a;
    on_score = λ p x es a. All-update IsSound p (λ e. record e { decay_score = x }) es (λ e h. h) a;
    on_demote = λ p t es a. All-update IsSound p (demote env t) es (λ e h. ground arith) a;
    on_new = λ ep_id now content a s o v m es held.
        All-append IsSound es (new_episode ep_id now content a s o v m ∷ []) held (refl, tt);
  }

  -- From a backend in which every demoted episode is invalid, every sequence of the operations
  -- leads to one in which every demoted episode is invalid.
  pub Reach-IsSound :
      {s t : Backend env} → Reach s t → All IsSound s.episodes → All IsSound t.episodes
  Reach-IsSound r a = Reach-Every (All IsSound) IsSound-IsKept r a

  -- The columns that are written once, with the others reset.
  abbrev pub original : Episode env → Episode env
  original e = record e {
    invalid_at = none;
    decay_score = env.one;
    last_accessed_at = none;
    access_count = 0;
    tier = text "active";
  }

  abbrev pub Survives : Episode env → List (Episode env) → Type 0
  Survives x es = (e : Episode env) × In e es × (original e ≡ original x)

  Survives-update :
      (x : Episode env) (p : Episode env → Bool) (f : Episode env → Episode env)
      (es : List (Episode env))
      → ((e : Episode env) → original (f e) ≡ original e)
      → Survives x es
      → Survives x (update_episodes p f es)
  unfolding update_episodes
  Survives-update x p f [] h (e, m, same) = elim m [ ]
  Survives-update x p f (y ∷ es) h (e, m, same) = elim (In-cons m) [
    | inl q ↦ elim (Bool-cases (p y)) [
      | inl t ↦ rw t (f y, In.here refl, h y ∙ ap original (sym q) ∙ same)
      | inr n ↦ rw n (y, In.here refl, ap original (sym q) ∙ same)
    ]
    | inr n ↦
        let (e', m', same') = Survives-update x p f es h (e, n, same) in (e', In.there m', same')
  ]

  Survives-IsKept : (x : Episode env) → IsKept (Survives x)
  unfolding touch promote demote
  Survives-IsKept x = record {
    on_touch = λ p t es a. Survives-update x p (touch t) es (λ e. refl) a;
    on_promote = λ p es a. Survives-update x p promote es (λ e. refl) a;
    on_invalidate =
        λ p t es a. Survives-update x p (λ e. record e { invalid_at = some t }) es (λ e. refl) a;
    on_score = λ p y es a. Survives-update x p (λ e. record e { decay_score = y }) es (λ e. refl) a;
    on_demote = λ p t es a. Survives-update x p (demote env t) es (λ e. refl) a;
    on_new = λ ep_id now content a s o v m es (e, held, same).
        (e, In-append es (new_episode ep_id now content a s o v m ∷ []) held, same);
  }

  -- No sequence of the operations deletes an episode or changes its text, its origin or its facts:
  -- every episode stays, with the same columns but those of its validity, decay, reads and tier.
  pub Reach-Survives :
      {s t : Backend env} (x : Episode env) → Reach s t → In x s.episodes → Survives x t.episodes
  Reach-Survives x r m = Reach-Every (Survives x) (Survives-IsKept x) r (x, m, refl)
