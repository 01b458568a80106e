-- ===== src/Prelude/Ends.antt =====
-- Texts that are put together from two parts.
use kemory_community.Prelude.{◌≡◌, refl, ap, Text, [], ◌∷◌, ◌++◌, length, length-append, arith}

pub append_cancel : (p x y : Text) → p ++ x ≡ p ++ y → x ≡ y
append_cancel [] x y e = e
append_cancel (c ∷ p) x y e = append_cancel p x y (cc e)

-- The texts before two ends of the same length agree, and so do the ends.
pub same_ends : (a b x y : Text) → length x ≡ length y → a ++ x ≡ b ++ y → (a ≡ b) × (x ≡ y)
same_ends [] [] x y l e = (refl, e)
same_ends [] (d ∷ b) x y l e =
    absurd (let n = ap length e in omega (arith, n, l, length-append b y))
same_ends (c ∷ a) [] x y l e =
    absurd (let n = ap length e in omega (arith, n, l, length-append a x))
same_ends (c ∷ a) (d ∷ b) x y l e =
    let head : c ≡ d = cc e in
    let tail : a ++ x ≡ b ++ y = cc e in
    let (front, back) = same_ends a b x y l tail in (rw (head, front) refl, back)
