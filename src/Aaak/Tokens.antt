-- ===== src/Aaak/Tokens.antt =====
-- The tokens that are found in the fields of an M-line of kemory/compression/aaak.py.
use kemory_community.Prelude.{
  lstrip, rstrip, ℕ, zero, suc, ◌≤◌, ◌≡◌, refl, ap, ◌∙◌, Text, Option, List, [], ◌∷◌, ◌++◌, length,
  length-append, arith, suc, ◌+◌,
}
use kemory_community.Aaak.Value.{escape_value}
use kemory_community.Aaak.Line.{space, serialise_fields, find_all}
use kemory_community.Aaak.LineRoundTrip.{
  IsAlias, Carried, match_token-field, match_token-space, serialise-Stops,
}
use kemory_community.Aaak.Strip.{Fields, body_of, strip-body}

unfoldable pub tokens_of : List (Text × Option Text) → List (Text × Text)
tokens_of [] = []
tokens_of ((a, v) ∷ fs) = (a, escape_value v) ∷ tokens_of fs

length-body :
    (a : Text) (v : Option Text) (fs : List (Text × Option Text))
    → IsAlias a
    → length (serialise_fields fs) + 2 ≤ length (body_of a v fs)
length-body [] v fs ia = absurd ia
length-body (c ∷ a) v fs ia = omega (
  arith,
  length-append a (b'=' ∷ escape_value v ++ serialise_fields fs),
  length-append (escape_value v) (serialise_fields fs),
)

find_all-token :
    (f : ℕ) (a : Text) (v : Option Text) (fs : List (Text × Option Text))
    → IsAlias a
    → Carried v
    → find_all (suc f) (body_of a v fs) ≡ (a, escape_value v) ∷ find_all f (serialise_fields fs)
unfolding find_all
find_all-token f [] v fs ia cv = absurd ia
find_all-token f (c ∷ a) v fs ia cv =
    rw (match_token-field (c ∷ a) v (serialise_fields fs) ia cv (serialise-Stops fs), find_all)

find_all-space : (f : ℕ) (t : Text) → find_all (suc f) (space ∷ t) ≡ find_all f t
unfolding find_all
find_all-space f t = rw (match_token-space t, find_all)

find_all-Fields :
    (fs : List (Text × Option Text)) (f : ℕ)
    → Fields fs
    → length (serialise_fields fs) ≤ f
    → find_all f (serialise_fields fs) ≡ tokens_of fs
unfolding find_all tokens_of serialise_fields
find_all-Fields [] zero h le = refl
find_all-Fields [] (suc f) h le = refl
find_all-Fields ((a, v) ∷ fs) zero h le = absurd (omega arith)
find_all-Fields ((a, v) ∷ fs) (suc zero) h le = absurd (omega (arith, length-body a v fs h.0.0))
find_all-Fields ((a, v) ∷ fs) (suc (suc f)) h le =
    find_all-space (suc f) (body_of a v fs)
    ∙ find_all-token f a v fs h.0.0 h.0.1
    ∙ ap (λ ts. (a, escape_value v) ∷ ts)
        (find_all-Fields fs f h.1 (omega (arith, length-body a v fs h.0.0)))

find_all-body :
    (f : ℕ) (a : Text) (v : Option Text) (fs : List (Text × Option Text))
    → IsAlias a
    → Carried v
    → Fields fs
    → length (body_of a v fs) ≤ f
    → find_all f (body_of a v fs) ≡ tokens_of ((a, v) ∷ fs)
unfolding tokens_of
find_all-body zero a v fs ia cv h le = absurd (omega (arith, length-body a v fs ia))
find_all-body (suc f) a v fs ia cv h le =
    find_all-token f a v fs ia cv
    ∙ ap (λ ts. (a, escape_value v) ∷ ts)
        (find_all-Fields fs f h (omega (arith, length-body a v fs ia)))

-- In the stripped fields of a line the tokens of the fields are found.
pub find_all-serialise :
    (fs : List (Text × Option Text))
    → Fields fs
    → let body = rstrip (lstrip (serialise_fields fs)) in find_all (length body) body ≡ tokens_of fs
unfolding serialise_fields tokens_of
find_all-serialise [] h = unfold lstrip rstrip find_all in refl
find_all-serialise ((a, v) ∷ fs) h =
    rw
      (
        strip-body a v fs h.0.0 h.0.1 h.1,
        find_all-body (length (body_of a v fs)) a v fs h.0.0 h.0.1 h.1 (omega arith),
      )
      refl
