-- ===== src/Digest/RoundTrip.antt =====
-- The source identifiers: texts with a prefix, and back.
use kemory_community.Prelude.{
  ◌≡◌, refl, ap, ◌∙◌, Text, text, text_eq, text_eq_iff, not, ◌&&◌, All, text_in, starts_with, true,
  false, Option, none, some, List, [], ◌∷◌, ◌++◌, keep, map, arith,
}
use kemory_community.Digest.SourceIds.{
  unique_from, unique, after_colon, with_prefix, is_given, ids_from_source_exchange_ids,
  combined_source_exchange_ids,
}

-- No text stands twice.
abbrev pub Distinct : List Text → Type 0
Distinct [] = Unit
Distinct (v ∷ vs) = (text_in v vs ≡ false) × Distinct vs

unique_from-unseen :
    (v : Text) (seen : List Text) (vs : List (Option Text))
    → text_in v seen ≡ true
    → text_in v (unique_from seen vs) ≡ false
unfolding unique_from text_in
unique_from-unseen v seen [] h = refl
unique_from-unseen v seen (none ∷ vs) h = unique_from-unseen v seen vs h
unique_from-unseen v seen (some w ∷ vs) h =
    ground
      (arith, text_eq_iff v w, unique_from-unseen v seen vs h, unique_from-unseen v (w ∷ seen) vs)

unique_from-Distinct : (seen : List Text) (vs : List (Option Text)) → Distinct (unique_from seen vs)
unfolding unique_from text_in
unique_from-Distinct seen [] = tt
unique_from-Distinct seen (none ∷ vs) = unique_from-Distinct seen vs
unique_from-Distinct seen (some v ∷ vs) = ground (
  arith,
  text_eq_iff v v,
  unique_from-unseen v (v ∷ seen) vs,
  unique_from-Distinct seen vs,
  unique_from-Distinct (v ∷ seen) vs,
)

unique_from-given :
    (seen vs : List Text)
    → unique_from seen (map some (keep is_given vs)) ≡ unique_from seen (map some vs)
unfolding unique_from
unique_from-given seen [] = refl
unique_from-given seen (v ∷ vs) =
    ground (arith, unique_from-given seen vs, unique_from-given (v ∷ seen) vs)

memory_ids :
    (ms ts : List Text)
    → with_prefix
        (text "memory:")
        (map (λ m. text "memory:" ++ m) ms ++ map (λ t. text "turn:" ++ t) ts)
      ≡ map some ms
unfolding with_prefix starts_with after_colon
memory_ids [] [] = refl
memory_ids [] (t ∷ ts) = memory_ids [] ts
memory_ids (m ∷ ms) ts = ap (λ r. some m ∷ r) (memory_ids ms ts)

turn_ids :
    (ms ts : List Text)
    → with_prefix
        (text "turn:")
        (map (λ m. text "memory:" ++ m) ms ++ map (λ t. text "turn:" ++ t) ts)
      ≡ map some ts
unfolding with_prefix starts_with after_colon
turn_ids [] [] = refl
turn_ids [] (t ∷ ts) = ap (λ r. some t ∷ r) (turn_ids [] ts)
turn_ids (m ∷ ms) ts = turn_ids ms ts

-- What the loop takes: the given texts that were not seen before.
unique_from-in :
    (w : Text) (seen vs : List Text)
    → text_in w (unique_from seen (map some vs))
      ≡ (text_in w vs && (is_given w && not (text_in w seen)))
unfolding unique_from text_in
unique_from-in w seen [] = refl
unique_from-in w seen (v ∷ vs) = ground (
  arith,
  text_eq_iff v w,
  text_eq_iff w v,
  unique_from-in w seen vs,
  unique_from-in w (v ∷ seen) vs,
)

-- Given texts without repetitions that were not seen before are all taken, in their order.
unique_from-same :
    (seen vs : List Text)
    → Distinct vs
    → All (λ v. (is_given v && not (text_in v seen)) ≡ true) vs
    → unique_from seen (map some vs) ≡ vs
unfolding unique_from text_in
unique_from-same seen [] d h = refl
unique_from-same seen (v ∷ vs) d h =
    let rest = unique_from-same (v ∷ seen) vs d.1 (still_new v seen vs d.0 h.1) in
    ground (arith, rest, h.0)
  where
    still_new :
        (v : Text) (seen ws : List Text)
        → text_in v ws ≡ false
        → All (λ w. (is_given w && not (text_in w seen)) ≡ true) ws
        → All (λ w. (is_given w && not (text_in w (v ∷ seen))) ≡ true) ws
    still_new v seen [] d h = tt
    still_new v seen (w ∷ ws) d h = (
      ground (arith, d, h.0, text_eq_iff v w, text_eq_iff w v),
      still_new v seen ws (ground (arith, d)) h.1,
    )

-- What was combined: the same non-empty texts, each once, and in the same order where the texts were
-- non-empty and without repetitions.
abbrev pub Recovered : List Text → List Text → Type 0
Recovered vs found =
    ((v : Text) → text_in v found ≡ (text_in v vs && not (text_eq v [])))
    × Distinct found
    × (Distinct vs × All (λ v. text_eq v [] ≡ false) vs → found ≡ vs)

unique-Recovered : (vs : List Text) → Recovered vs (unique (map some vs))
unfolding unique text_in
unique-Recovered vs = (
  λ v. unique_from-in v [] vs ∙ ground arith,
  unique_from-Distinct [] (map some vs),
  λ h. unique_from-same [] vs h.0 (new vs h.1),
)
  where
    new :
        (ws : List Text)
        → All (λ w. text_eq w [] ≡ false) ws
        → All (λ w. (is_given w && not (text_in w [])) ≡ true) ws
    new [] h = tt
    new (w ∷ ws) h = (ground (arith, h.0), new ws h.1)

ids_from-unique :
    (ms ts : List Text)
    → ids_from_source_exchange_ids (combined_source_exchange_ids ms ts)
      ≡ (unique (map some ms), unique (map some ts))
unfolding ids_from_source_exchange_ids combined_source_exchange_ids unique
ids_from-unique ms ts =
    rw
      (
        memory_ids (keep is_given ms) (keep is_given ts),
        turn_ids (keep is_given ms) (keep is_given ts),
        unique_from-given [] ms,
        unique_from-given [] ts,
      )
      refl

-- Of the memory and turn identifiers that are combined to exchange identifiers exactly the non-empty
-- ones are found again, each once, and all in their order where they are non-empty and without
-- repetitions.
pub ids_from-combined :
    (ms ts : List Text)
    → let (found, found') = ids_from_source_exchange_ids (combined_source_exchange_ids ms ts) in
      Recovered ms found × Recovered ts found'
ids_from-combined ms ts = rw (ids_from-unique ms ts) (unique-Recovered ms, unique-Recovered ts)
