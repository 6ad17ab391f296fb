-- ===== src/Common/Assign.antt =====
-- Truth assignments: what a literal, a clause and a set of clauses say of one.
use Prim.Native.Nat.{ℕ, zero, suc, ◌<◌}
use mathlib.Core.Path.{◌≡◌, refl}
use mathlib.Core.Bool.{Bool, not}
use mathlib.Core.List.{List, [], ◌∷◌}
use native.Mathlib.Omega.{arith}
use eval_max_sat.Common.Int.{ℤ, pos, negsuc, neg, abs}
use eval_max_sat.Common.Lists.{any, all}

-- The value of each variable.
abbrev pub Assignment : Type 0
Assignment = ℕ → Bool

-- A negative literal is a negated variable; 0 is no literal, and is read as its variable here.
abbrev pub holds : Assignment → ℤ → Bool
holds a (pos n) = a n
holds a (negsuc n) = not (a (suc n))

abbrev pub Clause : Type 0
Clause = List ℤ

abbrev pub holds_clause : Assignment → Clause → Bool
holds_clause a = any (holds a)

abbrev pub holds_all : Assignment → List Clause → Bool
holds_all a = all (holds_clause a)

pub holds-neg : (a : Assignment) (l : ℤ) → 0 < abs l → holds a (neg l) ≡ not (holds a l)
holds-neg a (pos zero) h = elim h [ ]
holds-neg a (pos (suc n)) h = refl
holds-neg a (negsuc n) h = ground arith

-- The same assignment, and the same answer for a clause.
pub same_clause :
    (a b : Assignment) (c : Clause) → ((i : ℕ) → a i ≡ b i) → holds_clause a c ≡ holds_clause b c
same_clause a b [] e = refl
same_clause a b (pos n ∷ c) e = rw (e n, same_clause a b c e) refl
same_clause a b (negsuc n ∷ c) e = rw (e (suc n), same_clause a b c e) refl

pub same_clauses :
    (a b : Assignment) (cs : List Clause) → ((i : ℕ) → a i ≡ b i) → holds_all a cs ≡ holds_all b cs
same_clauses a b [] e = refl
same_clauses a b (c ∷ cs) e = rw (same_clause a b c e, same_clauses a b cs e) refl
