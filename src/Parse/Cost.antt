-- ===== src/Parse/Cost.antt =====
-- lib/EvalMaxSAT/src/utile.h, calculateCost: the cost of a solution, counted from the file.
-- The assertions that no variable lies past the solution are off, as in a release build.
pub mod Total
use eval_max_sat.Common.{
  ℕ, zero, suc, ◌+◌, ◌%◌, ◌^◌, ◌≡◌, ◌<◌, ◌≤◌, All, refl, sym, ap, ◌∙◌, List, [], ◌∷◌, ◌++◌,
  if◌then◌else◌, Bool, true, false, not, ◌||◌, leb, length, ◌==◌, get_or, arith, Bool-cases, inl,
  inr,
}
use eval_max_sat.Common.Int.{ℤ, pos, negsuc, abs, is_pos}
use eval_max_sat.Common.Assign.{Clause, Assignment, holds, holds_clause, same_clause}
use eval_max_sat.Parse.{Stream, skip_whitespace, skip_line, parse_weight, hard_weight}
use eval_max_sat.Parse.File.{
  Read, got, rejected, aborted, out_of_fuel, failed, or_exit, ◌>>=◌, read_clause, problem_line,
}
use eval_max_sat.MaxSat.Query.{resize, get_or-resize_wide}

-- if(abs(l) >= result.size()) result.resize(abs(l)+1, 0);
abbrev pub widened : List Bool → ℤ → List Bool
widened result lit = if leb (length result) (abs lit) then resize result (suc (abs lit)) else result

abbrev eqb : Bool → Bool → Bool
eqb true b = b
eqb false b = not b

-- The loop that looks for a satisfied literal, and the solution it leaves.
unfoldable pub find_satisfied : List Bool → Clause → Bool × List Bool
unfolding resize
find_satisfied result [] = (false, result)
find_satisfied result (lit ∷ c) =
    let r = widened result lit in
    let rest = find_satisfied r c in
    if eqb (is_pos lit) (get_or r (abs lit) false) then (true, r) else rest

-- The variables of the loop.
pub record Tally : Type 0 where
  pub cost : ℕ
  pub top : ℕ
  pub result : List Bool
  pub input : Stream

-- What a line brings: the loop goes on, or the function returns.
pub data Round : Type 0 where
  go_on : Tally → Round
  return : ℕ → Round

-- A falsified hard clause ends the count with (unsigned long long int)-1.
unfoldable pub charge_clause : Tally → ℕ → Bool × List Bool → Round
charge_clause t weight (sat, result) =
    if leb t.top weight
    then (if sat then go_on (record t { result = result }) else return hard_weight)
    else (if sat
        then go_on (record t { result = result })
        else go_on (record t { cost = (t.cost + weight) % 2 ^ 64; result = result }))

unfoldable pub cost_line : Tally → Read Round
unfolding read_clause find_satisfied charge_clause
cost_line t = do
  (weight, input) ← or_exit (parse_weight t.input)
  (clause, rest) ← read_clause (suc (length input)) [] input
  got (charge_clause (record t { input = rest }) weight (find_satisfied t.result clause))

-- A first line that is not understood is `return false`, a cost of 0.
unfoldable pub cost_header : Tally → Read (ℕ × Stream) → Read Round
cost_header t (got (top, input)) = got (go_on (record t { top = top; input = input }))
cost_header t rejected = got (return 0)
cost_header t aborted = aborted
cost_header t out_of_fuel = out_of_fuel
cost_header t (failed e) = failed e

unfoldable pub cost_round : Tally → ℕ → Stream → Read Round
unfolding cost_line cost_header problem_line
cost_round t c s = elim (c == b'c') [
  | true ↦ got (go_on (record t { input = skip_line (c ∷ s) }))
  | false ↦ elim (c == b'p') [
    | true ↦ cost_header t (problem_line s)
    | false ↦ cost_line (record t { input = c ∷ s })
  ]
]

unfoldable pub cost_loop : ℕ → Tally → Read ℕ
unfolding cost_round skip_whitespace
cost_loop zero t = out_of_fuel
cost_loop (suc fuel) t = elim (skip_whitespace t.input) [
  | [] ↦ got t.cost
  | c ∷ s ↦ do
    r ← cost_round t c s
    elim r [ go_on t' ↦ cost_loop fuel t' | return cost ↦ got cost ]
]

unfoldable pub calculate_cost : Stream → List Bool → Read ℕ
unfolding cost_loop
calculate_cost input result =
    cost_loop (suc (length input))
      (record { cost = 0; top = hard_weight; result = result; input = input })

-- The assignment a solution stands for: false past its end.
abbrev pub valued : List Bool → Assignment
valued result i = get_or result i false

get_or-widened :
    (xs : List Bool) (lit : ℤ) (i : ℕ) → get_or (widened xs lit) i false ≡ get_or xs i false
get_or-widened xs lit i = elim (Bool-cases (leb (length xs) (abs lit))) [
  | inl y ↦ rw y (get_or-resize_wide (suc (abs lit)) i xs (ground arith))
  | inr z ↦ rw z refl
]

abbrev NonZero : ℤ → Type 0
NonZero lit = 0 < abs lit

eqb-holds :
    (xs : List Bool) (lit : ℤ)
    → NonZero lit
    → eqb (is_pos lit) (get_or (widened xs lit) (abs lit) false) ≡ holds (valued xs) lit
eqb-holds xs (pos zero) h = elim h [ ]
eqb-holds xs (pos (suc n)) h = get_or-widened xs (pos (suc n)) (suc n)
eqb-holds xs (negsuc n) h = ap not (get_or-widened xs (negsuc n) (suc n))

-- For a clause of literals other than 0 the loop answers whether the clause holds in the solution, a
-- variable past its end being false; lengthening the solution on the way changes no value.
pub find_satisfied_lem :
    (xs : List Bool) (c : Clause)
    → All NonZero c
    → ((find_satisfied xs c).0 ≡ holds_clause (valued xs) c)
      × ((i : ℕ) → get_or (find_satisfied xs c).1 i false ≡ get_or xs i false)
unfolding find_satisfied
find_satisfied_lem xs [] h = (refl, λ i. refl)
find_satisfied_lem xs (lit ∷ c) (h, hs) =
    let r = widened xs lit in
    let ih = find_satisfied_lem r c hs in
    elim (Bool-cases (eqb (is_pos lit) (get_or r (abs lit) false))) [
      | inl y ↦ rw y (
        ap (λ b. b || holds_clause (valued xs) c) (sym y ∙ eqb-holds xs lit h),
        get_or-widened xs lit,
      )
      | inr z ↦ rw z (
        ih.0
            ∙ same_clause (valued r) (valued xs) c (get_or-widened xs lit)
            ∙ ap (λ b. b || holds_clause (valued xs) c) (sym z ∙ eqb-holds xs lit h),
        λ i. ih.1 i ∙ get_or-widened xs lit i,
      )
    ]
