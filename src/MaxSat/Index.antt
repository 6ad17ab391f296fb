-- ===== src/MaxSat/Index.antt =====
-- The map from weights to literals against the weights: a literal stands in the set of a weight
-- exactly if that is its weight and positive.
use eval_max_sat.Common.{
  ℕ, zero, suc, ◌<◌, ◌≡◌, ◌≢◌, refl, sym, ap, ◌∙◌, true, false, ◌&&◌, ◌==◌, ltb, arith, inl, inr,
  ◌⊎◌, Bool-cases,
}
use eval_max_sat.Common.Int.{ℤ, pos, negsuc, neg, abs, eqb_ℤ, eqb_ℤ_iff}
use eval_max_sat.Weights.{WeightVector, get, size, push_back, write}
use eval_max_sat.Weights.Laws.{get-neg, get-write, get-write_ne, get-push_back_zero}
use eval_max_sat.WeightMap.{WeightMap, insert, erase, has}
use eval_max_sat.WeightMap.Laws.{has-insert, has-erase}

abbrev pub Indexed : WeightMap → WeightVector → Type 0
Indexed m ws = (w : ℕ) (l : ℤ) → 0 < abs l → has m w l ≡ (ltb 0 w && eqb_ℤ (get ws l) (pos w))

-- Another literal is the same, the opposite one, or one of another variable.
pub ℤ-cases : (k l : ℤ) → (k ≡ l) ⊎ ((k ≡ neg l) ⊎ (abs l ≢ abs k))
ℤ-cases (pos n) (pos m) = elim (Bool-cases (n == m)) [
  | inl y ↦ inl (ground arith)
  | inr z ↦ inr (inr (ground arith))
]
ℤ-cases (pos zero) (negsuc m) = inr (inr (omega arith))
ℤ-cases (pos (suc n)) (negsuc m) = elim (Bool-cases (n == m)) [
  | inl y ↦ inr (inl (ground arith))
  | inr z ↦ inr (inr (ground arith))
]
ℤ-cases (negsuc n) (pos zero) = inr (inr (omega arith))
ℤ-cases (negsuc n) (pos (suc m)) = elim (Bool-cases (n == m)) [
  | inl y ↦ inr (inl (ground arith))
  | inr z ↦ inr (inr (ground arith))
]
ℤ-cases (negsuc n) (negsuc m) = elim (Bool-cases (n == m)) [
  | inl y ↦ inl (ground arith)
  | inr z ↦ inr (inr (ground arith))
]

neg-ne : (l : ℤ) → 0 < abs l → eqb_ℤ (neg l) l ≡ false
neg-ne (pos zero) h = elim h [ ]
neg-ne (pos (suc n)) h = refl
neg-ne (negsuc n) h = refl

eqb_self : (l : ℤ) → eqb_ℤ l l ≡ true
eqb_self l = (eqb_ℤ_iff l l).1 refl

eqb_ne : (k l : ℤ) → abs l ≢ abs k → eqb_ℤ k l ≡ false
eqb_ne k l h = elim (Bool-cases (eqb_ℤ k l)) [
  | inl y ↦ absurd (h (ap abs (sym ((eqb_ℤ_iff k l).0 y))))
  | inr z ↦ z
]

-- A soft literal taken out of its set has no weight any more.
pub Indexed-erase :
    (m : WeightMap) (ws : WeightVector) (l : ℤ) (p : ℕ)
    → 0 < abs l
    → abs l < size ws
    → get ws l ≡ pos p
    → Indexed m ws
    → Indexed (erase m p l) (write ws l (pos 0))
Indexed-erase m ws l p ha hs e ix w k hk = has-erase m p w l k ∙ elim (ℤ-cases k l) [
  | inl same ↦
      let read : get (write ws l (pos 0)) k ≡ pos 0 =
        ap (get (write ws l (pos 0))) same ∙ get-write ws l (pos 0) hs in
      let old : has m w k ≡ (ltb 0 w && eqb_ℤ (pos p) (pos w)) =
        ix w k hk ∙ ap (λ x. ltb 0 w && eqb_ℤ x (pos w)) (ap (get ws) same ∙ e) in
      let hit : eqb_ℤ k l ≡ true = (eqb_ℤ_iff k l).1 same in ground arith
  | inr (inl opp) ↦
      let read : get (write ws l (pos 0)) k ≡ pos 0 =
        ap (get (write ws l (pos 0))) opp
        ∙ get-neg (write ws l (pos 0)) l ha
        ∙ ap neg (get-write ws l (pos 0) hs) in
      let old : has m w k ≡ (ltb 0 w && eqb_ℤ (neg (pos p)) (pos w)) =
        ix w k hk
        ∙ ap (λ x. ltb 0 w && eqb_ℤ x (pos w)) (ap (get ws) opp ∙ get-neg ws l ha ∙ ap neg e) in
      let miss : eqb_ℤ k l ≡ false = ap (λ x. eqb_ℤ x l) opp ∙ neg-ne l ha in ground arith
  | inr (inr other) ↦
      let read : get (write ws l (pos 0)) k ≡ get ws k = get-write_ne ws l k (pos 0) other in
      let old = ix w k hk in let miss = eqb_ne k l other in ground arith
]

-- A literal that had no weight gets one, and stands in its set.
pub Indexed-insert :
    (m : WeightMap) (ws : WeightVector) (l : ℤ) (v : ℕ)
    → 0 < abs l
    → abs l < size ws
    → 0 < v
    → get ws l ≡ pos 0
    → Indexed m ws
    → Indexed (insert m v l) (write ws l (pos v))
Indexed-insert m ws l v ha hs hv e ix w k hk = has-insert m v w l k ∙ elim (ℤ-cases k l) [
  | inl same ↦
      let read : get (write ws l (pos v)) k ≡ pos v =
        ap (get (write ws l (pos v))) same ∙ get-write ws l (pos v) hs in
      let old : has m w k ≡ (ltb 0 w && eqb_ℤ (pos 0) (pos w)) =
        ix w k hk ∙ ap (λ x. ltb 0 w && eqb_ℤ x (pos w)) (ap (get ws) same ∙ e) in
      let hit : eqb_ℤ k l ≡ true = (eqb_ℤ_iff k l).1 same in ground arith
  | inr (inl opp) ↦
      let read : get (write ws l (pos v)) k ≡ neg (pos v) =
        ap (get (write ws l (pos v))) opp
        ∙ get-neg (write ws l (pos v)) l ha
        ∙ ap neg (get-write ws l (pos v) hs) in
      let old : has m w k ≡ (ltb 0 w && eqb_ℤ (neg (pos 0)) (pos w)) =
        ix w k hk
        ∙ ap (λ x. ltb 0 w && eqb_ℤ x (pos w)) (ap (get ws) opp ∙ get-neg ws l ha ∙ ap neg e) in
      let miss : eqb_ℤ k l ≡ false = ap (λ x. eqb_ℤ x l) opp ∙ neg-ne l ha in ground arith
  | inr (inr other) ↦
      let read : get (write ws l (pos v)) k ≡ get ws k = get-write_ne ws l k (pos v) other in
      let old = ix w k hk in let miss = eqb_ne k l other in ground arith
]

pub Indexed-push_back :
    (m : WeightMap) (ws : WeightVector) → Indexed m ws → Indexed m (push_back ws (pos 0))
Indexed-push_back m ws ix w l h =
    ix w l h ∙ ap (λ x. ltb 0 w && eqb_ℤ x (pos w)) (sym (get-push_back_zero ws l))
