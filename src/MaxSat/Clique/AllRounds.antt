-- ===== src/MaxSat/Clique/AllRounds.antt =====
-- All rounds of processAtMostOne.
use eval_max_sat.Common.{
  ℕ, zero, suc, ◌≤◌, ◌≡◌, refl, ◌∙◌, List, [], ◌∷◌, ◌++◌, true, length, All, arith,
}
use eval_max_sat.Common.Int.{ℤ, pos}
use eval_max_sat.Common.Assign.{Assignment, Clause, holds_all}
use eval_max_sat.Lazy.{ClauseSink}
use eval_max_sat.Lazy.Invariant.{Agree, Agree-trans, Within, holds-Agree}
use eval_max_sat.Card.Trues.{trues}
use eval_max_sat.Weights.{WeightVector, size}
use eval_max_sat.MaxSat.{MaxSat, ok, ◌>>=◌}
use eval_max_sat.MaxSat.Objective.{IsValid, objective}
use eval_max_sat.MaxSat.Core.Correct.{IsHeavy}
use eval_max_sat.MaxSat.Clique.{clique_round, clique_rounds, process_at_most_one}
use eval_max_sat.MaxSat.Clique.Round.{Ready, Rounds, clique_round_lem}

trues-Agree :
    (n : ℕ) (a b : Assignment) (c : Clause) → Agree n a b → Within n c → trues b c ≡ trues a c
trues-Agree n a b [] f h = refl
trues-Agree n a b (l ∷ c) f (h, hs) = rw (holds-Agree n a b l f h, trues-Agree n a b c f hs) refl

in_use :
    (ws : WeightVector) (n : ℕ) (c : Clause) → size ws ≡ suc n → All (IsHeavy ws 1) c → Within n c
in_use ws n [] e h = tt
in_use ws n (l ∷ c) e ((ha, hs, x), h) = (omega arith, in_use ws n c e h)

module _ (T : ClauseSink) where
  -- The solutions that make at most one of the clause's literals true have the price they had.
  pub record KeepsPrice (s s' : MaxSat T) (c : Clause) : Type 0 where
    pub valid : IsValid T s'
    pub sound :
        (a : Assignment)
        → holds_all a (T.clauses s'.solver) ≡ true
        → (holds_all a (T.clauses s.solver) ≡ true)
          × (trues a c ≤ 1 → objective T s a ≤ objective T s' a)
    pub complete :
        (a : Assignment)
        → holds_all a (T.clauses s.solver) ≡ true
        → trues a c ≤ 1
        → (b : Assignment) × Agree (T.vars s.solver) a b
          × (holds_all b (T.clauses s'.solver) ≡ true)
          × (objective T s' b ≡ objective T s a)

  KeepsPrice-refl : (s : MaxSat T) (c : Clause) → IsValid T s → KeepsPrice s s c
  KeepsPrice-refl s c v = record {
    valid = v;
    sound = λ a h. (h, λ one. omega arith);
    complete = λ a h one. (a, λ i le. refl, h, refl);
  }

  after_round :
      (s s1 s' : MaxSat T) (c rest : Clause)
      → Ready T s c
      → Rounds T s s1 c rest
      → KeepsPrice s1 s' rest
      → KeepsPrice s s' c
  after_round s s1 s' c rest r x y = record {
    valid = y.valid;
    sound = λ a h.
        let (h1, p1) = y.sound a h in
        let (h0, p0) = x.sound a h1 in
        (h0, λ one. lower a (p0 one) (p1 (omega (arith, x.fewer a))));
    complete = λ a h one.
        let (b, f, h1, e1) = x.complete a h one in
        let same =
          trues-Agree (T.vars s.solver) a b c f
            (in_use s.poids (T.vars s.solver) c r.aligned r.heavy) in
        let (b2, g, h2, e2) = y.complete b h1 (omega (arith, x.fewer b, same)) in
        (b2, Agree-trans {a = a} {b = b} {c = b2} x.grows f g, h2, e2 ∙ e1);
  }
    where
      lower :
          (a : Assignment)
          → objective T s a ≤ objective T s1 a
          → objective T s1 a ≤ objective T s' a
          → objective T s a ≤ objective T s' a
      lower a p q = omega arith

  -- What a run over a clause comes to.
  abbrev pub KeepsPriceFrom : ℕ → MaxSat T → Clause → List ℤ → Type 0
  KeepsPriceFrom fuel s c new =
      (s' : MaxSat T) × (found : List ℤ) × (clique_rounds T fuel s c new ≡ ok (s', found))
      × KeepsPrice s s' c

  next_round :
      (fuel : ℕ) (s s1 s' : MaxSat T) (l k : ℤ) (c rest : Clause) (new found : List ℤ) (soft : ℤ)
      → clique_round T s (l ∷ k ∷ c) ≡ ok (s1, rest, soft)
      → clique_rounds T fuel s1 rest (new ++ soft ∷ []) ≡ ok (s', found)
      → clique_rounds T (suc fuel) s (l ∷ k ∷ c) new ≡ ok (s', found)
  unfolding clique_rounds
  next_round fuel s s1 s' l k c rest new found soft e q = rw (e, ◌>>=◌) q

  clique_rounds_lem :
      (fuel : ℕ) (s : MaxSat T) (c : Clause) (new : List ℤ)
      → length c ≤ fuel
      → Ready T s c
      → KeepsPriceFrom fuel s c new
  unfolding clique_rounds
  clique_rounds_lem fuel s [] new b r = (s, new, refl, KeepsPrice-refl s [] r.valid)
  clique_rounds_lem fuel s (l ∷ []) new b r =
      (s, new ++ l ∷ [], refl, KeepsPrice-refl s (l ∷ []) r.valid)
  clique_rounds_lem zero s (l ∷ k ∷ c) new b r = absurd (omega (arith, b))
  clique_rounds_lem (suc fuel) s (l ∷ k ∷ c) new b r =
      let (s1, rest, e, x) =
        clique_round_lem T s l k c r.valid r.aligned r.known r.distinct r.heavy r.started r.room in
      let (s', found, q, y) =
        clique_rounds_lem fuel s1 rest (new ++ pos (size s.poids) ∷ []) (omega (arith, x.shorter))
          x.ready in
      (
        s',
        found,
        next_round fuel s s1 s' l k c rest new found (pos (size s.poids)) e q,
        after_round s s1 s' (l ∷ k ∷ c) rest r x y,
      )

  -- On literals of distinct variables in use, of positive weight, while solving and before any
  -- cardinality constraint is attached, processAtMostOne returns if the cost and what the literals weigh
  -- fit a `t_weight`: every solution of the new clauses solves the old ones, at no lower price if at most one
  -- of the literals is true, and every such solution of the old clauses has one of the new ones at
  -- the same price that agrees on the old variables.
  pub process_at_most_one_correct :
      (s : MaxSat T) (c : Clause)
      → Ready T s c
      → (s' : MaxSat T) × (found : List ℤ) × (process_at_most_one T s c ≡ ok (s', found))
        × KeepsPrice s s' c
  unfolding process_at_most_one
  process_at_most_one_correct s c r = clique_rounds_lem (length c) s c [] (omega arith) r
