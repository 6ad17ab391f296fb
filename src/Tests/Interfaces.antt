-- ===== src/Tests/Interfaces.antt =====
-- The theorems on the interface to Glucose, on cliques and on strata, applied to small inputs.
use eval_max_sat.Common.{
  ltb, ◌+◌, ℕ, suc, ◌≡◌, refl, sym, ap, ◌∙◌, List, [], ◌∷◌, ◌++◌, length, All, map, if◌then◌else◌,
  Bool, true, false, not, In, arith, inl, inr, ◌==◌, ◌&&◌, ◌||◌, and_left, and_right,
}
use eval_max_sat.Common.Int.{ℤ, pos, negsuc}
use eval_max_sat.Common.Assign.{Assignment, Clause, holds, holds_all}
use eval_max_sat.WeightMap.{WeightMap}
use eval_max_sat.Glucose.{Glucose, signed, l_undef, add_clause, get_conflict, solve}
use eval_max_sat.Glucose.Answers.{clauses, clauses-add_clause, solve-get_conflict_core}
use eval_max_sat.MaxSat.Strata.{choose_next_min_weight}
use eval_max_sat.MaxSat.Strata.Choice.{choose_next_min_weight_correct}
use eval_max_sat.MaxSat.Strata.Outcome.{Outcome}
use eval_max_sat.MaxSat.AtMostOne.{reduce_clique}
use eval_max_sat.MaxSat.AtMostOne.Reduce.{IsClique, reduce_clique_correct}
use eval_max_sat.MaxSat.Minimize.Removal.{Within}
use eval_max_sat.MaxSat.Oracle.{valued}
use eval_max_sat.Parse.File.{got, read_clause}
use eval_max_sat.Main.{Options, old_values}
use eval_max_sat.Main.Values.{literals, old_values_correct}
use eval_max_sat.Tests.Brute.{brute, engine}
use eval_max_sat.Tests.Search.{clashing, both}

record Sign : Type 0 where
  negated : Bool
  index : ℕ

record Trail : Type 0 where
  clause_list : List (List Sign)
  final : List Sign
  count : ℕ

abbrev opposite : Sign → Sign → Bool
opposite l k = (if l.negated then not k.negated else k.negated) && l.index == k.index

abbrev verdict : Bool → Sign → Bool × List Sign
verdict b k = if b then (false, k ∷ []) else (true, [])

-- It knows one reason for a conflict: the newest clause is the opposite of the first assumption.
abbrev decide : List (List Sign) → List Sign → Bool × List Sign
decide ((k ∷ []) ∷ cs) (l ∷ ls) = verdict (opposite l k) k
decide cs ls = (true, [])

opposite-means :
    (l k : Sign) → opposite l k ≡ true → (l.negated ≡ not k.negated) × (l.index ≡ k.index)
opposite-means l k h = (
  signs l.negated k.negated (and_left _ (l.index == k.index) h),
  same l.index k.index (and_right (if l.negated then not k.negated else k.negated) _ h),
)
  where
    signs : (a b : Bool) → (if a then not b else b) ≡ true → a ≡ not b
    signs true true h = cc
    signs true false h = refl
    signs false true h = refl
    signs false false h = cc

    same : (m n : ℕ) → (m == n) ≡ true → m ≡ n
    same m n h = ground arith

decide-assumed :
    (cs : List (List Sign)) (ls : List Sign) (j : Sign)
    → (decide cs ls).0 ≡ false
    → In j (decide cs ls).1
    → (k : Sign) × In k ls × (k.negated ≡ not j.negated) × (k.index ≡ j.index)
decide-assumed ((k ∷ []) ∷ cs) (l ∷ ls) j h i = by_test (opposite l k) refl h i
  where
    by_test :
        (b : Bool)
        → opposite l k ≡ b
        → (verdict b k).0 ≡ false
        → In j (verdict b k).1
        → (m : Sign) × In m (l ∷ ls) × (m.negated ≡ not j.negated) × (m.index ≡ j.index)
    by_test true y h (inl e) =
        let (a, b) = opposite-means l k y in
        (l, inl refl, a ∙ ap (λ t. not t.negated) (sym e), b ∙ ap (λ t. t.index) (sym e))
    by_test true y h (inr i) = absurd i
    by_test false z h i = absurd i
decide-assumed cs ls j h i = absurd i

abbrev as_integers : List (List Sign) → List Clause
as_integers cs = map (map (λ l. signed l.negated l.index)) cs

decide-implied :
    (cs : List (List Sign)) (ls : List Sign) (a : Assignment)
    → (decide cs ls).0 ≡ false
    → holds_all a (as_integers cs) ≡ true
    → (l : Sign) × In l (decide cs ls).1 × (holds a (signed l.negated l.index) ≡ true)
decide-implied ((k ∷ []) ∷ cs) (l ∷ ls) a h t = by_test (opposite l k) refl h
  where
    unit : (p q : Bool) → ((p || false) && q) ≡ true → p ≡ true
    unit p q e = ground (arith, e)

    by_test :
        (b : Bool)
        → opposite l k ≡ b
        → (verdict b k).0 ≡ false
        → (m : Sign) × In m (verdict b k).1 × (holds a (signed m.negated m.index) ≡ true)
    by_test true y h =
        (k, inl refl, unit (holds a (signed k.negated k.index)) (holds_all a (as_integers cs)) t)
    by_test false z h = cc
decide-implied cs ls a h t = cc

abbrev small : Glucose
small = record {
  Solver = Trail;
  Lit = Sign;
  mk_lit = λ v b. record { negated = b; index = v };
  sign = λ l. l.negated;
  var = λ l. l.index;
  new_var = λ s p d. (record s { count = suc s.count }, s.count);
  set_decision_var = λ s v b. s;
  add_clause = λ s c. record s { clause_list = c ∷ s.clause_list };
  prop_check = λ s c n. (s, true, []);
  set_conf_budget = λ s n. s;
  solve = λ s c. (record s { final = (decide s.clause_list c).1 }, (decide s.clause_list c).0);
  solve_limited = λ s c. (s, l_undef);
  conflict = λ s. s.final;
  model = λ s. [];
  n_vars = λ s. s.count;
  n_clauses = λ s. 0;
  formula = λ s. s.clause_list;
  sign-mk_lit = λ v b. refl;
  var-mk_lit = λ v b. refl;
  conflict_assumed = λ s c l h i. decide-assumed s.clause_list c l h i;
  conflict_implied = λ s c a h t. decide-implied s.clause_list c a h t;
  formula-add_clause = λ s c. refl;
}

-- The unit clause 1.
abbrev with_one : Trail
with_one = record {
  clause_list = (record { negated = false; index = 1 } ∷ []) ∷ [];
  final = [];
  count = 3;
}

clauses-add_clause_example :
    clauses small (add_clause small with_one both) ≡ both ∷ clauses small with_one
clauses-add_clause_example = clauses-add_clause small with_one both (omega arith, (omega arith, tt))

solve-get_conflict_core_example :
    let c =
      get_conflict small (solve small with_one (negsuc 0 ∷ pos 2 ∷ [])).0 (negsuc 0 ∷ pos 2 ∷ []) in
    ((l : ℤ) → In l c → In l (negsuc 0 ∷ pos 2 ∷ []))
    × ((a : Assignment)
        → holds_all a (clauses small with_one) ≡ true
        → (l : ℤ) × In l c × (holds a l ≡ false))
unfolding solve
solve-get_conflict_core_example =
    solve-get_conflict_core small with_one (negsuc 0 ∷ pos 2 ∷ []) (omega arith, (omega arith, tt))
      refl

reduce_clique_correct_example :
    let (s', reduced) = reduce_clique brute engine clashing both in
    IsClique clashing.solver.stored reduced
    × Within reduced both
    × (s'.solver.stored ≡ clashing.solver.stored)
    × (s'.poids ≡ clashing.poids)
reduce_clique_correct_example = reduce_clique_correct brute engine clashing both

abbrev options : Options
options = record {
  file = [];
  old_output_format = true;
  bench = false;
  no_ds = false;
  no_ms = true;
  no_ubs = false;
}

-- Three weights, the greatest without a literal.
abbrev three_weights : WeightMap
three_weights = (1, pos 3 ∷ []) ∷ (5, pos 1 ∷ []) ∷ (9, []) ∷ []

-- The comparison with the half of the bound, without rounding.
abbrev half_of : ℕ → ℕ → Bool
half_of a b = ltb (a + a) b

choose_next_min_weight_correct_example :
    Outcome half_of 10 three_weights 10 (choose_next_min_weight half_of three_weights 10)
choose_next_min_weight_correct_example =
    choose_next_min_weight_correct half_of three_weights 10
      ((omega arith, (omega arith, tt)), ((omega arith, tt), (tt, tt)))

old_values_correct_example :
    let input = old_values 1 (true ∷ false ∷ []) ++ b' ' ∷ b'0' ∷ [] in
    (read_clause (suc (length input)) [] input ≡ got (literals 0 (true ∷ false ∷ []), []))
    × (length (literals 0 (true ∷ false ∷ [])) ≡ 2)
    × All
        (λ l. holds (valued (false ∷ true ∷ false ∷ [])) l ≡ true)
        (literals 0 (true ∷ false ∷ []))
old_values_correct_example = old_values_correct false (true ∷ false ∷ []) [] tt
