-- ===== src/MaxSat/Rounds/Last.antt =====
-- harden: the entry of the greatest weight, which a round drops, and its literals.
use eval_max_sat.Common.{
  ℕ, ◌<◌, ◌≡◌, refl, sym, ap, ◌∙◌, List, [], ◌∷◌, ◌++◌, Bool, true, All, In, any, arith, ◌&&◌, ltb,
  inl, inr, ◌⊎◌, some,
}
use eval_max_sat.Common.Int.{ℤ, pos, abs, eqb_ℤ, eqb_ℤ_iff}
use eval_max_sat.Common.Member.{any-In}
use eval_max_sat.Weights.{WeightVector, get}
use eval_max_sat.WeightMap.{WeightMap, has}
use eval_max_sat.MaxSat.Index.{Indexed}
use eval_max_sat.MaxSat.Objective.{long_limit}
use eval_max_sat.MaxSat.Oracle.{IsDistinct}
use eval_max_sat.MaxSat.Rounds.{greatest, drop_greatest, drop_empty}
use eval_max_sat.MaxSat.Rounds.Harden.{Below, InUse, bucket-last}
use eval_max_sat.MaxSat.Strata.Entries.{IsAscending}

pub greatest-last : (p : WeightMap) (e : ℕ × List ℤ) → greatest (p ++ e ∷ []) ≡ some e
greatest-last [] e = refl
greatest-last (x ∷ []) e = refl
greatest-last (x ∷ y ∷ p) e = greatest-last (y ∷ p) e

drop_greatest-last : (p : WeightMap) (e : ℕ × List ℤ) → drop_greatest (p ++ e ∷ []) ≡ p
drop_greatest-last [] e = refl
drop_greatest-last (x ∷ []) e = refl
drop_greatest-last (x ∷ y ∷ p) e = ap (λ m. x ∷ m) (drop_greatest-last (y ∷ p) e)

pub drop_empty-last :
    (p : WeightMap) (w : ℕ) → drop_empty (greatest (p ++ (w, []) ∷ [])) (p ++ (w, []) ∷ []) ≡ p
drop_empty-last p w =
    ap (λ e. drop_empty e (p ++ (w, []) ∷ [])) (greatest-last p (w, []))
    ∙ drop_greatest-last p (w, [])

-- A map is empty or has a last entry.
pub last_cases :
    (m : WeightMap) → (m ≡ []) ⊎ ((p : WeightMap) × (e : ℕ × List ℤ) × (m ≡ p ++ e ∷ []))
last_cases [] = inl refl
last_cases (x ∷ m) = elim (last_cases m) [
  | inl q ↦ inr ([], x, ap (λ t. x ∷ t) q)
  | inr (p, e, q) ↦ inr (x ∷ p, e, ap (λ t. x ∷ t) q)
]

-- What is known of an entry: a positive weight of 63 bits, and literals in use, no variable twice.
abbrev pub IsEntry : ℕ → ℕ × List ℤ → Type 0
IsEntry n e = (0 < e.0) × (e.0 < long_limit) × All (InUse n) e.1 × IsDistinct e.1

pub All-last :
    (P : ℕ × List ℤ → Type 0) (p : WeightMap) (e : ℕ × List ℤ) → All P (p ++ e ∷ []) → All P p × P e
All-last P [] e (h, t) = (tt, h)
All-last P (x ∷ p) e (h, hs) = let (f, l) = All-last P p e hs in ((h, f), l)

pub Ascending-last :
    (p : WeightMap) (e : ℕ × List ℤ) → IsAscending (p ++ e ∷ []) → IsAscending p × Below e.0 p
Ascending-last [] e a = (tt, tt)
Ascending-last (x ∷ p) e (h, a) =
    let (f, l) = All-last (λ y. x.0 < y.0) p e h in
    let (g, b) = Ascending-last p e a in ((f, g), (l, b))

-- The literals of the last set have its weight.
pub last_weights :
    (n w : ℕ) (ws : WeightVector) (p : WeightMap) (lits : List ℤ)
    → Indexed (p ++ (w, lits) ∷ []) ws
    → Below w p
    → All (InUse n) lits
    → All (λ l. get ws l ≡ pos w) lits
unfolding has
last_weights n w ws p lits ix b u = each lits (λ l i. i) u
  where
    second : (x y : Bool) → (x && y) ≡ true → y ≡ true
    second x y h = ground (arith, h)

    weighs : (l : ℤ) → In l lits → 0 < abs l → get ws l ≡ pos w
    weighs l i h = (eqb_ℤ_iff (get ws l) (pos w)).0 (
        second (ltb 0 w) _
          (sym (ix w l h) ∙ ap (any (eqb_ℤ l)) (bucket-last p w lits b) ∙ any-In l lits i))

    each :
        (c : List ℤ)
        → ((l : ℤ) → In l c → In l lits)
        → All (InUse n) c
        → All (λ l. get ws l ≡ pos w) c
    each [] f h = tt
    each (l ∷ c) f ((h, r), hs) = (weighs l (f l (inl refl)) h, each c (λ k i. f k (inr i)) hs)
