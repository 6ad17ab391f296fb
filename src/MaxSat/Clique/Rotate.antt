-- ===== src/MaxSat/Clique/Rotate.antt =====
-- A literal's place taken by the last one: the other literals stay.
use eval_max_sat.Common.{
  ℕ, suc, ◌+◌, ◌≡◌, ◌≢◌, refl, sym, ap, subst, [], ◌∷◌, ◌++◌, length, All, In, map, arith, inl, inr,
}
use eval_max_sat.Common.Int.{ℤ, neg, abs}
use eval_max_sat.Common.Assign.{Assignment, Clause}
use eval_max_sat.Weights.{WeightVector, get}
use eval_max_sat.Card.Trues.{trues}
use eval_max_sat.MaxSat.Oracle.{IsDistinct}
use eval_max_sat.MaxSat.Minimize.Removal.{
  Within, pop_back-IsPart, back-In, length-pop_back, swap_remove-IsPart,
}
use eval_max_sat.MaxSat.Clique.{back, pop_back, swap_remove}

-- What fills the place of the first literal: the last one comes to the front.
abbrev pub rotate : Clause → Clause
rotate [] = []
rotate (k ∷ c) = back (k ∷ c) ∷ pop_back (k ∷ c)

rotate-swap_remove : (l : ℤ) (c : Clause) → swap_remove (l ∷ c) 0 ≡ rotate c
rotate-swap_remove l [] = refl
rotate-swap_remove l (k ∷ c) = refl

pub swap_remove-append :
    (pre : Clause) (l : ℤ) (c : Clause) → swap_remove (pre ++ l ∷ c) (length pre) ≡ pre ++ rotate c
swap_remove-append [] l c = rotate-swap_remove l c
swap_remove-append (p ∷ []) l [] = refl
swap_remove-append (p ∷ []) l (k ∷ c) = refl
swap_remove-append (p ∷ q ∷ pre) l c = ap (λ x. p ∷ x) (swap_remove-append (q ∷ pre) l c)

pub length-rotate : (c : Clause) → length (rotate c) ≡ length c
length-rotate [] = refl
length-rotate (k ∷ c) = ap suc (length-pop_back k c)

pub rotate-Within : (c : Clause) → Within (rotate c) c
rotate-Within [] l h = h
rotate-Within (k ∷ c) l (inl e) = subst (λ x. In x (k ∷ c)) (sym e) (back-In k c)
rotate-Within (k ∷ c) l (inr i) = (pop_back-IsPart (k ∷ c)).0 l i

pub rotate-IsDistinct : (l : ℤ) (c : Clause) → IsDistinct (l ∷ c) → IsDistinct (rotate c)
rotate-IsDistinct l c d =
    subst IsDistinct (rotate-swap_remove l c) ((swap_remove-IsPart (l ∷ c) 0 (omega arith)).1 d)

pub trues-rotate :
    (a : Assignment) (c : Clause) → trues a (map neg (rotate c)) ≡ trues a (map neg c)
trues-rotate a [] = refl
trues-rotate a (k ∷ []) = refl
trues-rotate a (k ∷ m ∷ c) = let rest = trues-rotate a (m ∷ c) in omega arith

pub trues-rotate_plain : (a : Assignment) (c : Clause) → trues a (rotate c) ≡ trues a c
trues-rotate_plain a [] = refl
trues-rotate_plain a (k ∷ []) = refl
trues-rotate_plain a (k ∷ m ∷ c) = let rest = trues-rotate_plain a (m ∷ c) in omega arith

-- What the literals weigh together.
abbrev pub weight_sum : WeightVector → Clause → ℕ
weight_sum ws [] = 0
weight_sum ws (l ∷ c) = abs (get ws l) + weight_sum ws c

pub weight_sum-rotate :
    (ws : WeightVector) (c : Clause) → weight_sum ws (rotate c) ≡ weight_sum ws c
weight_sum-rotate ws [] = refl
weight_sum-rotate ws (k ∷ []) = refl
weight_sum-rotate ws (k ∷ m ∷ c) = let rest = weight_sum-rotate ws (m ∷ c) in omega arith

pub weight_sum_stays :
    (ws us : WeightVector) (l : ℤ) (c : Clause)
    → ((k : ℤ) → abs l ≢ abs k → get us k ≡ get ws k)
    → All (λ k. abs l ≢ abs k) c
    → weight_sum us c ≡ weight_sum ws c
weight_sum_stays ws us l [] f d = refl
weight_sum_stays ws us l (k ∷ c) f (ne, d) =
    let rest = weight_sum_stays ws us l c f d in omega (arith, ap abs (f k ne))
