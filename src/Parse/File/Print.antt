-- ===== src/Parse/File/Print.antt =====
-- WCNF files in the new format, printed line by line, and what the loops over a file see of them.
use eval_max_sat.Common.{
  ℕ, ◌≡◌, ◌<◌, ◌≤◌, refl, sym, subst, some, List, [], ◌∷◌, ◌++◌, All, false, length, ◌==◌, arith,
  append_assoc, length-append,
}
use eval_max_sat.Common.Assign.{Clause}
use eval_max_sat.Parse.{Stream, skip_whitespace, parse_weight, weight_start, hard_mark, hard_weight}
use eval_max_sat.Parse.Digits.{StartsDigit, decimal, decimal-StartsDigit, parse_weight-decimal}
use eval_max_sat.Parse.File.Clauses.{print_clause, NonZero}

-- A line of a WCNF file in the new format.
pub data Line : Type 0 where
  hard : Clause → Line
  soft : ℕ → Clause → Line

unfoldable pub print_weight : Line → Stream
print_weight (hard c) = b'h' ∷ []
print_weight (soft w c) = decimal w

unfoldable pub clause_of : Line → Clause
clause_of (hard c) = c
clause_of (soft w c) = c

unfoldable pub weight_of : Line → ℕ
weight_of (hard c) = hard_weight
weight_of (soft w c) = w

unfoldable pub print_line : Line → Stream
unfolding print_weight clause_of
print_line l = print_weight l ++ b' ' ∷ print_clause (clause_of l)

-- Each line ends with a newline.
unfoldable pub print_file : List Line → Stream
unfolding print_line
print_file [] = []
print_file (l ∷ ls) = print_line l ++ 10 ∷ print_file ls

-- The literals are none of them 0, and a soft clause weighs less than a hard one.
abbrev pub IsLine : Line → Type 0
IsLine (hard c) = All NonZero c
IsLine (soft w c) = (w < hard_weight) × All NonZero c

parse_weight-mark : (t : Stream) → parse_weight (b'h' ∷ b' ' ∷ t) ≡ some (hard_weight, b' ' ∷ t)
unfolding parse_weight weight_start hard_mark skip_whitespace
parse_weight-mark t = refl

pub parse_weight-print_weight :
    (l : Line) (s : Stream)
    → IsLine l
    → parse_weight (print_weight l ++ b' ' ∷ s) ≡ some (weight_of l, b' ' ∷ s)
unfolding print_weight weight_of
parse_weight-print_weight (hard c) s h = parse_weight-mark s
parse_weight-print_weight (soft w c) s (b, h) = parse_weight-decimal w (b' ' ∷ s) (omega arith) refl

-- A line begins with a byte that is no blank, no 'c' and no 'p'.
abbrev pub StartsLine : Stream → Type 0
StartsLine [] = ⊥
StartsLine (c ∷ s) =
    (skip_whitespace (c ∷ s) ≡ c ∷ s) × ((c == b'c') ≡ false) × ((c == b'p') ≡ false)

StartsLine-digit : (s : Stream) → StartsDigit s → StartsLine s
unfolding skip_whitespace
StartsLine-digit [] h = absurd h
StartsLine-digit (c ∷ s) h = (ground arith, ground arith, ground arith)

StartsLine-mark : (t : Stream) → StartsLine (b'h' ∷ t)
unfolding skip_whitespace
StartsLine-mark t = (refl, refl, refl)

pub StartsLine-print_line : (l : Line) (s : Stream) → StartsLine (print_line l ++ s)
unfolding print_line print_weight
StartsLine-print_line (hard c) s = StartsLine-mark (b' ' ∷ print_clause (clause_of (hard c)) ++ s)
StartsLine-print_line (soft w c) s =
    subst StartsLine (sym (append_assoc (decimal w) (b' ' ∷ print_clause (clause_of (soft w c))) s))
      (StartsLine-digit (decimal w ++ (b' ' ∷ (print_clause (clause_of (soft w c)) ++ s)))
        (decimal-StartsDigit w (b' ' ∷ (print_clause (clause_of (soft w c)) ++ s))))

pub IsLine-clause : (l : Line) → IsLine l → All NonZero (clause_of l)
unfolding clause_of
IsLine-clause (hard c) h = h
IsLine-clause (soft w c) (b, h) = h

StartsLine-skip : (s : Stream) → StartsLine s → skip_whitespace s ≡ s
StartsLine-skip [] h = absurd h
StartsLine-skip (c ∷ s) h = h.0

-- The newline behind a clause is skipped, up to the next line.
pub blank_line : (ls : List Line) → skip_whitespace (10 ∷ print_file ls) ≡ print_file ls
unfolding skip_whitespace print_file
blank_line [] = refl
blank_line (l ∷ ls) =
    StartsLine-skip (print_line l ++ 10 ∷ print_file ls)
      (StartsLine-print_line l (10 ∷ print_file ls))

pub print_file-skip : (ls : List Line) → skip_whitespace (print_file ls) ≡ print_file ls
unfolding print_file skip_whitespace
print_file-skip [] = refl
print_file-skip (l ∷ ls) =
    StartsLine-skip (print_line l ++ 10 ∷ print_file ls)
      (StartsLine-print_line l (10 ∷ print_file ls))

pub length-print_file : (ls : List Line) → length ls ≤ length (print_file ls)
unfolding print_file
length-print_file [] = omega arith
length-print_file (l ∷ ls) =
    omega (arith, length-append (print_line l) (10 ∷ print_file ls), length-print_file ls)
