-- ===== src/Glucose/Answers.antt =====
-- Literals there and back, the clause that is added, and the core that getConflict gives.
use eval_max_sat.Common.{
  ℕ, zero, suc, ◌<◌, ◌≡◌, refl, sym, ap, ◌∙◌, subst, List, [], ◌∷◌, if◌then◌else◌, Bool, true,
  false, not, map, any, In, All, arith, inl, inr, Bool-cases,
}
use eval_max_sat.Common.Int.{ℤ, pos, negsuc, neg, abs, eqb_ℤ, neg-neg, abs-neg}
use eval_max_sat.Common.Member.{any-In, In-any}
use eval_max_sat.Common.Assign.{Clause, Assignment, holds, holds_all, holds-neg}
use eval_max_sat.Glucose.{
  Glucose, signed, to_lit, of_lit, clause_lits, add_clause, assumed_part, get_conflict, solve,
}

module _ (G : Glucose) where
  open G use {Solver, Lit}

  -- The clauses as the class's callers write them.
  abbrev pub clauses : Solver → List Clause
  clauses s = map (map (of_lit G)) (G.formula s)

  of_lit-to_lit : (e : ℤ) → of_lit G (to_lit G e) ≡ e
  unfolding of_lit to_lit
  of_lit-to_lit (pos n) = rw (G.sign-mk_lit n false, G.var-mk_lit n false) refl
  of_lit-to_lit (negsuc n) = rw (G.sign-mk_lit (suc n) true, G.var-mk_lit (suc n) true) refl

  of_lits-clause_lits : (c : Clause) → All (λ l. 0 < abs l) c → map (of_lit G) (clause_lits G c) ≡ c
  unfolding clause_lits
  of_lits-clause_lits [] h = refl
  of_lits-clause_lits (pos zero ∷ c) (h, hs) = elim h [ ]
  of_lits-clause_lits (pos (suc n) ∷ c) (h, hs) =
      rw (of_lit-to_lit (pos (suc n)), of_lits-clause_lits c hs) refl
  of_lits-clause_lits (negsuc n ∷ c) (h, hs) =
      rw (of_lit-to_lit (negsuc n), of_lits-clause_lits c hs) refl

  -- Adding a clause of literals other than 0 adds exactly that clause to Glucose's.
  pub clauses-add_clause :
      (s : Solver) (c : Clause)
      → All (λ l. 0 < abs l) c
      → clauses (add_clause G s c) ≡ c ∷ clauses s
  unfolding add_clause
  clauses-add_clause s c h =
      ap (map (map (of_lit G))) (G.formula-add_clause s (clause_lits G c))
      ∙ ap (λ x. x ∷ clauses s) (of_lits-clause_lits c h)

  In-assumed_part :
      (assumptions : List ℤ) (c : List Lit) (l : ℤ)
      → In l (map (of_lit G) c)
      → In (neg l) assumptions
      → In (neg l) (assumed_part G assumptions c)
  unfolding assumed_part
  In-assumed_part assumptions [] l h i = absurd h
  In-assumed_part assumptions (k ∷ c) l (inl e) i =
      let t : any (eqb_ℤ (neg (of_lit G k))) assumptions ≡ true =
        any-In (neg (of_lit G k)) assumptions (subst (λ x. In (neg x) assumptions) e i) in
      rw t (inl (ap neg e))
  In-assumed_part assumptions (k ∷ c) l (inr h) i =
      elim (Bool-cases (any (eqb_ℤ (neg (of_lit G k))) assumptions)) [
        | inl y ↦ rw y (inr (In-assumed_part assumptions c l h i))
        | inr z ↦ rw z (In-assumed_part assumptions c l h i)
      ]

  assumed_part-In :
      (assumptions : List ℤ) (c : List Lit) (l : ℤ)
      → In l (assumed_part G assumptions c)
      → In l assumptions
  unfolding assumed_part
  assumed_part-In assumptions [] l h = absurd h
  assumed_part-In assumptions (k ∷ c) l h =
      by_test (any (eqb_ℤ (neg (of_lit G k))) assumptions) refl (assumed_part-In assumptions c l) h
    where
      by_test :
          (b : Bool)
          → any (eqb_ℤ (neg (of_lit G k))) assumptions ≡ b
          → (In l (assumed_part G assumptions c) → In l assumptions)
          → In l (
              if b
              then neg (of_lit G k) ∷ assumed_part G assumptions c
              else assumed_part G assumptions c)
          → In l assumptions
      by_test true y ih (inl e) =
          subst (λ x. In x assumptions) (sym e) (In-any (neg (of_lit G k)) assumptions y)
      by_test true y ih (inr h) = ih h
      by_test false z ih h = ih h

  In-map : {A : Type 0} (f : A → ℤ) (l : A) (ls : List A) → In l ls → In (f l) (map f ls)
  In-map f l [] h = absurd h
  In-map f l (k ∷ ls) (inl e) = inl (ap f e)
  In-map f l (k ∷ ls) (inr h) = inr (In-map f l ls h)

  map-In : (k : Lit) (ls : List ℤ) → In k (map (to_lit G) ls) → (e : ℤ) × In e ls × (k ≡ to_lit G e)
  map-In k [] h = absurd h
  map-In k (e ∷ ls) (inl q) = (e, inl refl, q)
  map-In k (e ∷ ls) (inr h) = let (f, i, q) = map-In k ls h in (f, inr i, q)

  signed-not : (b : Bool) (v : ℕ) → neg (signed b v) ≡ signed (not b) v
  signed-not true v = neg-neg (pos v)
  signed-not false v = refl

  -- The opposite of a literal of the final conflict is an assumption.
  opposite-In :
      (s : Solver) (assumption : List ℤ) (l : Lit)
      → (solve G s assumption).1 ≡ false
      → In l (G.conflict (solve G s assumption).0)
      → In (neg (of_lit G l)) assumption
  unfolding solve of_lit
  opposite-In s assumption l h i =
      let (k, j, sg, vr) = G.conflict_assumed s (map (to_lit G) assumption) l h i in
      let (e, m, q) = map-In k assumption j in
      let same : neg (signed (G.sign l) (G.var l)) ≡ e =
        signed-not (G.sign l) (G.var l)
        ∙ ap (λ b. signed b (G.var l)) (sym sg)
        ∙ ap (signed (G.sign k)) (sym vr)
        ∙ ap (of_lit G) q
        ∙ of_lit-to_lit e in
      subst (λ x. In x assumption) (sym same) m

  -- If Glucose answers that assumptions other than 0 are unsatisfiable, getConflict then gives a core:
  -- assumptions only, of which every assignment that satisfies the clauses falsifies one.
  pub solve-get_conflict_core :
      (s : Solver) (assumption : List ℤ)
      → All (λ l. 0 < abs l) assumption
      → (solve G s assumption).1 ≡ false
      → let c = get_conflict G (solve G s assumption).0 assumption in
        ((l : ℤ) → In l c → In l assumption)
        × ((a : Assignment)
            → holds_all a (clauses s) ≡ true
            → (l : ℤ) × In l c × (holds a l ≡ false))
  unfolding get_conflict solve of_lit
  solve-get_conflict_core s assumption nz h =
      let conflict = G.conflict (solve G s assumption).0 in
      (
        λ l. assumed_part-In assumption conflict l,
        λ a t.
            let (l, i, v) = implied a t in
            let m = opposite-In s assumption l h i in
            (
              neg (of_lit G l),
              In-assumed_part assumption conflict (of_lit G l) (In-map (of_lit G) l conflict i) m,
              ap (holds a) (sym (neg-neg (neg (of_lit G l))))
                  ∙ holds-neg a (neg (neg (of_lit G l))) (nonzero assumption l nz m)
                  ∙ ap not (ap (holds a) (neg-neg (of_lit G l)) ∙ v),
            ),
      )
    where
      implied :
          (a : Assignment)
          → holds_all a (clauses s) ≡ true
          → (l : Lit) × In l (G.conflict (solve G s assumption).0) × (holds a (of_lit G l) ≡ true)
      implied a t = G.conflict_implied s (map (to_lit G) assumption) a h t

      nonzero :
          (ls : List ℤ) (l : Lit)
          → All (λ k. 0 < abs k) ls
          → In (neg (of_lit G l)) ls
          → 0 < abs (neg (neg (of_lit G l)))
      nonzero [] l h i = absurd i
      nonzero (k ∷ ls) l (h, hs) (inl e) = omega (arith, h, abs-neg (neg (of_lit G l)), ap abs e)
      nonzero (k ∷ ls) l (h, hs) (inr i) = nonzero ls l hs i
