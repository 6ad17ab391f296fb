-- ===== src/Parse/Cost/Total.antt =====
-- utile.h, calculateCost on a whole file: the cost it counts is the one the clauses define.
use eval_max_sat.Common.{
  ℕ, zero, suc, ◌+◌, ◌%◌, ◌^◌, ◌≡◌, ◌<◌, refl, sym, ap, ◌∙◌, List, [], ◌∷◌, ◌++◌, All,
  if◌then◌else◌, Bool, true, false, ◌&&◌, leb, length, ◌==◌, get_or, arith, Bool-cases, inl, inr,
  append_assoc, length-append,
}
use eval_max_sat.Common.Assign.{Clause, Assignment, holds_clause, same_clause}
use eval_max_sat.Parse.{Stream, skip_whitespace, skip_line, hard_weight}
use eval_max_sat.Parse.File.{Read, got, problem_line, read_clause, ◌>>=◌}
use eval_max_sat.Parse.File.Print.{
  Line, hard, soft, print_weight, clause_of, weight_of, print_line, print_file, IsLine,
  parse_weight-print_weight, StartsLine, StartsLine-print_line, IsLine-clause, blank_line,
  print_file-skip, length-print_file,
}
use eval_max_sat.Parse.File.Clauses.{
  print_clause, NonZero, read_clause-print, read_clause-blank, length-print_clause,
}
use eval_max_sat.Parse.Cost.{
  Tally, Round, cost_header, go_on, return, charge_clause, cost_line, cost_round, cost_loop,
  calculate_cost, find_satisfied, find_satisfied_lem, valued,
}

-- The hard clauses hold.
unfoldable pub all_hard : Assignment → List Line → Bool
all_hard a [] = true
all_hard a (hard c ∷ ls) = holds_clause a c && all_hard a ls
all_hard a (soft w c ∷ ls) = all_hard a ls

-- The weight of the falsified soft clauses.
unfoldable pub falsified : Assignment → List Line → ℕ
falsified a [] = 0
falsified a (hard c ∷ ls) = falsified a ls
falsified a (soft w c ∷ ls) = (if holds_clause a c then 0 else w) + falsified a ls

-- The clause behind a weight.
read_clause-behind :
    (c : Clause) (s : Stream)
    → All NonZero c
    → read_clause
        (suc (length (b' ' ∷ print_clause c ++ 10 ∷ s)))
        []
        (b' ' ∷ print_clause c ++ 10 ∷ s)
      ≡ got (c, 10 ∷ s)
read_clause-behind c s h =
    read_clause-blank (suc (length (b' ' ∷ print_clause c ++ 10 ∷ s))) [] (print_clause c ++ 10 ∷ s)
    ∙ read_clause-print (suc (length (b' ' ∷ print_clause c ++ 10 ∷ s))) [] c (10 ∷ s)
        (omega (arith, length-append (print_clause c) (10 ∷ s), length-print_clause c)) h refl

with_input : Tally → Stream → Tally
with_input t s = record t { input = s }

cost_line-print_line :
    (t : Tally) (l : Line) (s : Stream)
    → IsLine l
    → cost_line (with_input t (print_line l ++ 10 ∷ s))
      ≡ got (
          charge_clause
            (with_input t (10 ∷ s))
            (weight_of l)
            (find_satisfied t.result (clause_of l)))
unfolding cost_line print_line with_input
cost_line-print_line t l s h =
    rw
      (
        append_assoc (print_weight l) (b' ' ∷ print_clause (clause_of l)) (10 ∷ s),
        parse_weight-print_weight l (print_clause (clause_of l) ++ 10 ∷ s) h,
        read_clause-behind (clause_of l) s (IsLine-clause l h),
      )
      refl

-- What the loop does with what a line brings.
after_round : ℕ → Read Round → Read ℕ
after_round f r = do x ← r; elim x [ go_on t ↦ cost_loop f t | return cost ↦ got cost ]

cost_round-line :
    (t : Tally) (c : ℕ) (s : Stream)
    → (c == b'c') ≡ false
    → (c == b'p') ≡ false
    → cost_round t c s ≡ cost_line (with_input t (c ∷ s))
unfolding cost_round with_input
cost_round-line t c s h k =
    ap
      (λ b. elim b [
        | true ↦ got (go_on (record t { input = skip_line (c ∷ s) }))
        | false ↦ elim (c == b'p') [
          | true ↦ cost_header t (problem_line s)
          | false ↦ cost_line (record t { input = c ∷ s })
        ]
      ])
      h
    ∙ ap
        (λ b. elim b [
          | true ↦ cost_header t (problem_line s)
          | false ↦ cost_line (record t { input = c ∷ s })
        ])
        k

cost_loop-start :
    (f : ℕ) (t : Tally) (s : Stream)
    → skip_whitespace t.input ≡ s
    → StartsLine s
    → cost_loop (suc f) t ≡ after_round f (cost_line (with_input t s))
unfolding cost_loop after_round
cost_loop-start f t [] e h = absurd h
cost_loop-start f t (c ∷ s) e (w, h, k) =
    ap (λ x. elim x [ [] ↦ got t.cost | d ∷ r ↦ after_round f (cost_round t d r) ]) e
    ∙ ap (after_round f) (cost_round-line t c s h k)

cost_loop-end :
    (f : ℕ) (t : Tally) → skip_whitespace t.input ≡ [] → cost_loop (suc f) t ≡ got t.cost
unfolding cost_loop after_round
cost_loop-end f t e =
    ap (λ x. elim x [ [] ↦ got t.cost | d ∷ r ↦ after_round f (cost_round t d r) ]) e

-- The solutions stand for the same assignment.
abbrev SameValues : List Bool → List Bool → Type 0
SameValues xs ys = (i : ℕ) → get_or xs i false ≡ get_or ys i false

-- The count of the rest of a file, from a cost counted so far.
abbrev counted : Assignment → ℕ → List Line → ℕ
counted a cost ls = if all_hard a ls then (cost + falsified a ls) % 2 ^ 64 else hard_weight

all_hard-same :
    (a b : Assignment) (ls : List Line) → ((i : ℕ) → a i ≡ b i) → all_hard a ls ≡ all_hard b ls
unfolding all_hard
all_hard-same a b [] e = refl
all_hard-same a b (hard c ∷ ls) e = rw (same_clause a b c e, all_hard-same a b ls e) refl
all_hard-same a b (soft w c ∷ ls) e = all_hard-same a b ls e

falsified-same :
    (a b : Assignment) (ls : List Line) → ((i : ℕ) → a i ≡ b i) → falsified a ls ≡ falsified b ls
unfolding falsified
falsified-same a b [] e = refl
falsified-same a b (hard c ∷ ls) e = falsified-same a b ls e
falsified-same a b (soft w c ∷ ls) e = rw (same_clause a b c e, falsified-same a b ls e) refl

-- What the loop does after one clause, if it counts the rest of the file right.
after_clause :
    (f : ℕ) (a : Assignment) (t : Tally) (l : Line) (ls : List Line) (s : Stream) (r : List Bool)
    → t.top ≡ hard_weight
    → t.cost < 2 ^ 64
    → IsLine l
    → ((t' : Tally)
        → t'.top ≡ hard_weight
        → t'.cost < 2 ^ 64
        → t'.input ≡ s
        → t'.result ≡ r
        → cost_loop f t' ≡ got (counted a t'.cost ls))
    → after_round f
        (got (charge_clause (with_input t s) (weight_of l) (holds_clause a (clause_of l), r)))
      ≡ got (counted a t.cost (l ∷ ls))
unfolding after_round charge_clause weight_of clause_of with_input all_hard falsified
after_clause f a t (hard c) ls s r e b h rest = elim (Bool-cases (holds_clause a c)) [
  | inl y ↦
      rw (e, y)
        (rest (record { cost = t.cost; top = hard_weight; result = r; input = s }) refl b refl refl)
  | inr z ↦ rw (e, z) refl
]
after_clause f a t (soft w c) ls s r e b (k, h) rest =
    let light : leb hard_weight w ≡ false = ground arith in
    elim (Bool-cases (holds_clause a c)) [
      | inl y ↦
          rw (e, light, y)
            (rest (record { cost = t.cost; top = hard_weight; result = r; input = s }) refl b refl
                refl
              ∙ ap (λ n. got (if all_hard a ls then n else hard_weight)) (omega arith))
      | inr z ↦
          rw (e, light, z)
            (rest
                (record { cost = (t.cost + w) % 2 ^ 64; top = hard_weight; input = s; result = r })
                refl (omega arith) refl refl
              ∙ ap (λ n. got (if all_hard a ls then n else hard_weight)) (omega arith))
    ]

same_count :
    (xs ys : List Bool) (cost : ℕ) (ls : List Line)
    → SameValues xs ys
    → got (counted (valued ys) cost ls) ≡ got (counted (valued xs) cost ls)
same_count xs ys cost ls e = ap got (
    rw (all_hard-same (valued xs) (valued ys) ls e, falsified-same (valued xs) (valued ys) ls e)
      refl)

cost_loop-lines :
    (f : ℕ) (ls : List Line) (t : Tally)
    → length ls < f
    → All IsLine ls
    → t.top ≡ hard_weight
    → t.cost < 2 ^ 64
    → skip_whitespace t.input ≡ print_file ls
    → cost_loop f t ≡ got (counted (valued t.result) t.cost ls)
unfolding print_file all_hard falsified
cost_loop-lines zero ls t b h e c k = elim b [ ]
cost_loop-lines (suc f) [] t b h e c k = cost_loop-end f t k ∙ ap got (omega arith)
cost_loop-lines (suc f) (l ∷ ls) t b (h, hs) e c k =
    let rest = 10 ∷ print_file ls in
    let found = find_satisfied_lem t.result (clause_of l) (IsLine-clause l h) in
    cost_loop-start f t (print_line l ++ rest) k (StartsLine-print_line l rest)
    ∙ ap (after_round f) (cost_line-print_line t l (print_file ls) h)
    ∙ ap
        (λ v. after_round f (
          got (
            charge_clause (with_input t rest) (weight_of l)
              (v, (find_satisfied t.result (clause_of l)).1))))
        found.0
    ∙ after_clause f (valued t.result) t l ls rest (find_satisfied t.result (clause_of l)).1 e c h
        (λ t' e' c' i r.
          cost_loop-lines f ls t' (omega arith) hs e' c' (ap skip_whitespace i ∙ blank_line ls)
          ∙ same_count t.result t'.result t'.cost ls
              (λ n. sym (found.1 n) ∙ ap (λ x. get_or x n false) (sym r)))

-- For a file in the new format, one clause a line, calculateCost returns 2 ^ 64 - 1 if a hard clause
-- does not hold in the solution, and otherwise the weight of the soft clauses that do not hold, modulo
-- 2 ^ 64; a variable past the end of the solution is false. The literals are none of them 0 and each
-- soft clause weighs less than 2 ^ 64 - 1. The fuel is always enough.
pub calculate_cost_correct :
    (ls : List Line) (result : List Bool)
    → All IsLine ls
    → calculate_cost (print_file ls) result
      ≡ got (
          if all_hard (valued result) ls
          then falsified (valued result) ls % 2 ^ 64
          else hard_weight)
unfolding calculate_cost
calculate_cost_correct ls result h =
    cost_loop-lines (suc (length (print_file ls))) ls
      (record { cost = 0; top = hard_weight; result = result; input = print_file ls })
      (omega (arith, length-print_file ls)) h refl (omega arith) (print_file-skip ls)
    ∙ ap (λ n. got (if all_hard (valued result) ls then n else hard_weight)) (omega arith)
