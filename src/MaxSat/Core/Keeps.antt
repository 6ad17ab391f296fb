-- ===== src/MaxSat/Core/Keeps.antt =====
-- What taking a core leaves as it was.
use eval_max_sat.Common.{
  ℕ, ◌≡◌, refl, ◌∙◌, [], ◌∷◌, get_or, none, inl, inr, Bool-cases, Option-cases,
}
use eval_max_sat.Common.Int.{ℤ, neg, abs, is_zero}
use eval_max_sat.Common.Assign.{Clause}
use eval_max_sat.Lazy.{ClauseSink}
use eval_max_sat.Weights.{size}
use eval_max_sat.Weights.Laws.{size-add}
use eval_max_sat.MaxSat.{MaxSat, weight_of}
use eval_max_sat.MaxSat.Core.{
  Assum, after_lowering, lower, lower_all, take_core, min_weight, long_max,
}

module _ (T : ClauseSink) where
  -- The solver, the totalizers, the number of variables and the best solution stay.
  abbrev pub Keeps : MaxSat T → MaxSat T → Type 0
  Keeps s s' =
      (s'.solver ≡ s.solver)
      × (s'.heap ≡ s.heap)
      × (size s'.poids ≡ size s.poids)
      × (s'.solution ≡ s.solution)
      × (s'.solution_cost ≡ s.solution_cost)

  after_lowering-Keeps : (s : MaxSat T) (lit : ℤ) → Keeps s (after_lowering T s lit)
  unfolding after_lowering
  after_lowering-Keeps s lit = elim (Bool-cases (is_zero (weight_of T s lit))) [
    | inl y ↦ elim (Option-cases (get_or s.map_card (abs lit) none)) [
      | inl e ↦ rw (y, e) (refl, refl, refl, refl, refl)
      | inr (c, e) ↦ rw (y, e) (refl, refl, refl, refl, refl)
    ]
    | inr z ↦ rw z (refl, refl, refl, refl, refl)
  ]

  lower_all-Keeps :
      (c : Clause) (s : MaxSat T) (assum : Assum) (m : ℤ) (stratum : ℕ)
      → Keeps s (lower_all T s assum c m stratum).0
  unfolding lower_all lower
  lower_all-Keeps [] s assum m stratum = (refl, refl, refl, refl, refl)
  lower_all-Keeps (lit ∷ c) s assum m stratum =
      let (a, b, n, d, e) = after_lowering-Keeps _ lit in
      let (a2, b2, n2, d2, e2) = lower_all-Keeps c (lower T s lit m) _ m stratum in
      (a2 ∙ a, b2 ∙ b, n2 ∙ n ∙ size-add s.poids lit (neg m), d2 ∙ d, e2 ∙ e)

  pub take_core-Keeps :
      (s : MaxSat T) (assum : Assum) (c : Clause) (stratum : ℕ)
      → Keeps s (take_core T s assum c stratum).0
  unfolding take_core
  take_core-Keeps s assum c stratum = lower_all-Keeps c s assum (min_weight T s c long_max) stratum
