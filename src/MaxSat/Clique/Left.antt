-- ===== src/MaxSat/Clique/Left.antt =====
-- What the literals of a clique weigh once they have given up a weight.
use eval_max_sat.Common.{
  ℕ, suc, ◌+◌, ◌-◌, ◌*◌, ◌≤◌, ◌<◌, ◌≡◌, ◌≢◌, refl, sym, ap, ◌∙◌, [], ◌∷◌, length, All, In, arith,
  inl, inr,
}
use native.Mathlib.Nat.{mul-zero, mul-suc}
use eval_max_sat.Common.Int.{ℤ, pos, abs}
use eval_max_sat.Common.Assign.{Assignment, Clause}
use eval_max_sat.Lazy.{ClauseSink}
use eval_max_sat.Weights.{get, size}
use eval_max_sat.Card.Trues.{trues}
use eval_max_sat.MaxSat.{MaxSat}
use eval_max_sat.MaxSat.Objective.{long_limit}
use eval_max_sat.MaxSat.Core.Correct.{IsHeavy}
use eval_max_sat.MaxSat.Oracle.{IsDistinct}
use eval_max_sat.MaxSat.Minimize.Removal.{Within, All-Within}
use eval_max_sat.MaxSat.Clique.Rotate.{
  rotate, length-rotate, rotate-Within, trues-rotate_plain, weight_sum, weight_sum-rotate,
  weight_sum_stays,
}

module _ (T : ClauseSink) where
  -- What is left of the clause: literals that still weigh something.
  pub record Left (s s' : MaxSat T) (d r : Clause) (m : ℕ) : Type 0 where
    pub frame : (k : ℤ) → All (λ l. abs l ≢ abs k) d → get s'.poids k ≡ get s.poids k
    pub heavy : All (IsHeavy s'.poids 1) r
    pub distinct : IsDistinct r
    pub within : Within r d
    pub fewer : (a : Assignment) → trues a r ≤ trues a d
    pub total : weight_sum s'.poids r + m * length d ≡ weight_sum s.poids d

  pub Left-nil : (s : MaxSat T) (m : ℕ) → Left s s [] [] m
  Left-nil s m = record {
    frame = λ k h. refl;
    heavy = tt;
    distinct = tt;
    within = λ l i. i;
    fewer = λ a. omega arith;
    total = ap (λ y. 0 + y) (mul-zero m);
  }

  module _ (s s1 s2 : MaxSat T) (lit : ℤ) (d r : Clause) (m : ℕ)
      (others : (k : ℤ) → abs lit ≢ abs k → get s1.poids k ≡ get s.poids k)
      (ne : All (λ k. abs lit ≢ abs k) d) where
    pub Left-gone : Left s1 s2 (rotate d) r m → get s.poids lit ≡ pos m → Left s s2 (lit ∷ d) r m
    Left-gone y e = record {
      frame = λ k (nl, nd).
          y.frame k (All-Within (λ l. abs l ≢ abs k) (rotate d) d (rotate-Within d) nd)
          ∙ others k nl;
      heavy = y.heavy;
      distinct = y.distinct;
      within = λ l i. inr (rotate-Within d l (y.within l i));
      fewer = λ a. omega (arith, y.fewer a, trues-rotate_plain a d);
      total =
          add_up (weight_sum s2.poids r) (m * length (rotate d)) (m * length d) (m * suc (length d))
            m (abs (get s.poids lit)) _ _ _ y.total (weight_sum-rotate s1.poids d)
            (weight_sum_stays s.poids s1.poids lit d others ne) (ap (λ y. m * y) (length-rotate d))
            (mul-suc m (length d)) (ap abs e);
    }
      where
        add_up :
            (r p q t m x u1 u2 u3 : ℕ)
            → r + p ≡ u1
            → u1 ≡ u2
            → u2 ≡ u3
            → p ≡ q
            → t ≡ q + m
            → x ≡ m
            → r + t ≡ x + u3
        add_up r p q t m x u1 u2 u3 e1 e2 e3 e4 e5 e6 = omega arith

    pub Left-kept :
        (x : ℕ)
        → Left s1 s2 d r m
        → 0 < abs lit
        → abs lit < size s2.poids
        → get s.poids lit ≡ pos x
        → get s1.poids lit ≡ pos (x - m)
        → m < x
        → x < long_limit
        → Left s s2 (lit ∷ d) (lit ∷ r) m
    Left-kept x y ha hs e e1 lt lim =
        let here : get s2.poids lit ≡ pos (x - m) = y.frame lit (flipped d ne) ∙ e1 in
        record {
          frame = λ k (nl, nd). y.frame k nd ∙ others k nl;
          heavy = ((ha, hs, (x - m, here, omega arith, omega arith, omega arith)), y.heavy);
          distinct = (All-Within (λ k. abs lit ≢ abs k) r d y.within ne, y.distinct);
          within = λ l. both l (y.within l);
          fewer = λ a. omega (arith, y.fewer a);
          total =
              add_up (weight_sum s2.poids r) (m * length d) (m * suc (length d)) m x
                (abs (get s2.poids lit)) (abs (get s.poids lit)) _ _ y.total
                (weight_sum_stays s.poids s1.poids lit d others ne) (mul-suc m (length d))
                (ap abs here) (ap abs e) lt;
        }
      where
        flipped : (c : Clause) → All (λ k. abs lit ≢ abs k) c → All (λ l. abs l ≢ abs lit) c
        flipped [] h = tt
        flipped (k ∷ c) (n, h) = (λ e. n (sym e), flipped c h)

        both : (l : ℤ) → (In l r → In l d) → In l (lit ∷ r) → In l (lit ∷ d)
        both l f (inl q) = inl q
        both l f (inr i) = inr (f i)

        add_up :
            (r p t m x a b u1 u2 : ℕ)
            → r + p ≡ u1
            → u1 ≡ u2
            → t ≡ p + m
            → a ≡ x - m
            → b ≡ x
            → m < x
            → a + r + t ≡ b + u2
        add_up r p t m x a b u1 u2 e1 e2 e3 e4 e5 lt = omega arith
