-- ===== src/Card/Trues.antt =====
-- The true literals of the clause that a tree counts.
use eval_max_sat.Common.{
  ℕ, ◌+◌, ◌≡◌, refl, ◌∙◌, List, [], ◌∷◌, ◌++◌, Bool, false, arith, if◌then◌else◌, some, none,
  Option,
}
use mathlib.Core.Path.{ap₂}
use eval_max_sat.Common.Int.{ℤ}
use eval_max_sat.Common.Assign.{Clause, Assignment, holds}
use eval_max_sat.Lazy.{Heap, Vars}
use eval_max_sat.Lazy.Invariant.{Meaning}
use eval_max_sat.Lazy.Model.{model, model_leaf}
use eval_max_sat.Card.{TotTree, leaf, node, leaves, get_clause}
use eval_max_sat.Card.Tree.{tally-append, count, IsTree}

-- How many literals of the clause are true.
abbrev pub trues : Assignment → Clause → ℕ
trues a [] = 0
trues a (l ∷ c) = (if holds a l then 1 else 0) + trues a c

abbrev pub value_of : Assignment → Option ℤ → Bool
value_of a none = false
value_of a (some w) = holds a w

abbrev pub literal_value : Vars → Assignment → ℕ → Bool
literal_value var a i = value_of a (var i)

-- What the objects mean under an assignment of their literals.
abbrev pub meaning : Heap → Assignment → Meaning
meaning h a = model h.impliquants (literal_value h.var a)

trues-append : (a : Assignment) (c d : Clause) → trues a (c ++ d) ≡ trues a c + trues a d
trues-append a [] d = omega arith
trues-append a (l ∷ c) d = omega (arith, trues-append a c d)

-- Under that meaning the tree counts the true literals of its clause.
pub count-get_clause :
    (h : Heap) (a : Assignment) (t : TotTree)
    → IsTree h t
    → count (meaning h a) t ≡ trues a (get_clause h.var t)
unfolding count leaves get_clause
count-get_clause h a (leaf i) (l, e) =
    rw (model_leaf h.impliquants (literal_value h.var a) i e) (ground arith)
count-get_clause h a (node vs n l r) (tl, tr, c) =
    tally-append (meaning h a) (leaves l) (leaves r)
    ∙ (let el = count-get_clause h a l tl in
        let er = count-get_clause h a r tr in
        omega (arith, trues-append a (get_clause h.var l) (get_clause h.var r)))

abbrev cons_lit : Option ℤ → Clause → Clause
cons_lit none c = c
cons_lit (some l) c = l ∷ c

abbrev pub leaf_lits : Vars → List ℕ → Clause
leaf_lits var [] = []
leaf_lits var (i ∷ is) = cons_lit (var i) (leaf_lits var is)

leaf_lits-append :
    (var : Vars) (is js : List ℕ) → leaf_lits var (is ++ js) ≡ leaf_lits var is ++ leaf_lits var js
leaf_lits-append var [] js = refl
leaf_lits-append var (i ∷ is) js = ground (arith, leaf_lits-append var is js)

pub get_clause-leaves : (var : Vars) (t : TotTree) → get_clause var t ≡ leaf_lits var (leaves t)
unfolding get_clause leaves
get_clause-leaves var (leaf i) = ground arith
get_clause-leaves var (node vs n l r) =
    rw
      (get_clause-leaves var l, get_clause-leaves var r, leaf_lits-append var (leaves l) (leaves r))

pub leaf_lits-same :
    (var var' : Vars)
    → ((i : ℕ) → var' i ≡ var i)
    → (is : List ℕ) → leaf_lits var' is ≡ leaf_lits var is
leaf_lits-same var var' e [] = refl
leaf_lits-same var var' e (i ∷ is) = ap₂ cons_lit (e i) (leaf_lits-same var var' e is)
