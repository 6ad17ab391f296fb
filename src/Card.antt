-- ===== src/Card.antt =====
-- lib/EvalMaxSAT/src/cardincremental.h: the incremental totalizer. A tree counts the true literals
-- under each node in unary: output `k` of a node is a lazy variable that is true if more than `k` of
-- them are. Only the outputs that were asked for exist, and `at_most` adds the ones that are missing.
-- A number is an `unsigned int` there and a natural number here; no difference of the source is
-- negative. A node is owned by its parent alone, so the tree is a value; its outputs are shared.
pub mod Wire
pub mod Grow
pub mod Tree
pub mod Build
pub mod AtMost
pub mod Trues
pub mod Ready
pub mod New
pub mod Encoding
pub mod Fresh
use Prim.Native.Nat.{max}
use eval_max_sat.Common.{
  ℕ, zero, suc, ◌+◌, ◌-◌, min, List, [], ◌∷◌, ◌++◌, Option, none, some, length, get_or,
  if◌then◌else◌, leb,
}
use eval_max_sat.Common.Int.{ℤ, pos, neg}
use eval_max_sat.Common.Loop.{for_to, for_range}
use eval_max_sat.Common.Assign.{Clause}
use eval_max_sat.Lazy.{ClauseSink, Heap, Vars, alloc, alloc_leaf, add_impliquant, get, ◌>>=◌}

-- The objects of `lazyVars`, the number of literals below, and the children.
pub data TotTree : Type 0 where
  leaf : ℕ → TotTree
  node : List ℕ → ℕ → TotTree → TotTree → TotTree

abbrev pub lazy_vars : TotTree → List ℕ
lazy_vars (leaf i) = i ∷ []
lazy_vars (node vs n l r) = vs

abbrev pub nof_input : TotTree → ℕ
nof_input (leaf i) = 1
nof_input (node vs n l r) = n

pub record Card : Type 0 where
  pub nb_lit : ℕ
  pub bound : ℕ
  pub tree : TotTree
  pub max_vars : ℕ

-- The literals of the leaves, from the left.
unfoldable pub leaves : TotTree → List ℕ
leaves (leaf i) = i ∷ []
leaves (node vs n l r) = leaves l ++ leaves r

-- for (j = first; j < min(rhs, xs.size()); ++j) ogVars[j]->addImpliquant({xs[j]})
unfoldable pub units : ℕ → ℕ → List ℕ → List ℕ → Heap → Heap
units first rhs og xs h =
    for_to first (min rhs (length xs))
      (λ j g. add_impliquant g (get_or og j 0) (get_or xs j 0 ∷ [])) h

-- for (j = minj; j <= min(rhs - i, bVars.size()); ++j)
unfoldable pub pairs_with : ℕ → ℕ → ℕ → List ℕ → List ℕ → List ℕ → Heap → Heap
pairs_with i minj rhs og a b h =
    for_to minj (suc (min (rhs - i) (length b)))
      (λ j g.
        add_impliquant g (get_or og (i + j - 1) 0) (get_or a (i - 1) 0 ∷ get_or b (j - 1) 0 ∷ []))
      h

-- for (i = 1; i <= min(rhs, aVars.size()); ++i)
unfoldable pub pairs : (ℕ → ℕ) → ℕ → List ℕ → List ℕ → List ℕ → Heap → Heap
unfolding pairs_with
pairs minj rhs og a b h =
    for_to 1 (suc (min rhs (length a))) (λ i g. pairs_with i (minj i) rhs og a b g) h

unfoldable pub new_ua : Heap → List ℕ → ℕ → List ℕ → List ℕ → Heap
unfolding units pairs
new_ua h og rhs a b = pairs (λ _. 1) rhs og a b (units 0 rhs og a (units 0 rhs og b h))

-- `n` new objects.
unfoldable pub alloc_many : ℕ → Heap → Heap × List ℕ
unfolding alloc
alloc_many zero h = (h, [])
alloc_many (suc n) h = let (h1, i) = alloc h in let (h2, is) = alloc_many n h1 in (h2, i ∷ is)

-- The outputs up to `rhs` that a node lacks, and their impliquants.
unfoldable pub increase_ua : Heap → List ℕ → List ℕ → List ℕ → ℕ → Heap × List ℕ
unfolding alloc_many units pairs
increase_ua h og a b rhs =
    let (h1, new) = alloc_many (rhs - length og) h in
    let all_vars = og ++ new in
    (
      pairs (λ i. max (suc (length og) - i) 1) rhs all_vars a b
          (units (length og) rhs all_vars a (units (length og) rhs all_vars b h1)),
      all_vars,
    )

-- A leaf has its one output already.
unfoldable pub increase : Heap → TotTree → ℕ → Heap × TotTree
unfolding increase_ua
increase h (leaf i) bound = (h, leaf i)
increase h (node vs n l r) bound =
    let grown : Heap × TotTree =
      (let (h1, l') = increase h l bound in
        let (h2, r') = increase h1 r bound in
        let (h3, vs') = increase_ua h2 vs (lazy_vars l') (lazy_vars r') (min (bound + 1) n) in
        (h3, node vs' n l' r')) in
    if leb (min (bound + 1) n) (length vs) then (h, node vs n l r) else grown

-- A parent of two trees, with the outputs that the bound asks for.
unfoldable pub join : Heap → ℕ → TotTree → TotTree → Heap × TotTree
unfolding alloc_many new_ua
join h bound l r =
    let n = nof_input l + nof_input r in
    let kmin = min (bound + 1) n in
    let (h1, vs) = alloc_many kmin h in
    (new_ua h1 vs kmin (lazy_vars l) (lazy_vars r), node vs n l r)

-- The leaves in a queue.
unfoldable pub leaf_queue : Heap → Clause → Heap × List TotTree
unfolding alloc_leaf
leaf_queue h [] = (h, [])
leaf_queue h (lit ∷ c) =
    let (h1, i) = alloc_leaf h lit in let (h2, q) = leaf_queue h1 c in (h2, leaf i ∷ q)

-- while (nqueue.size() > 1): the two oldest trees get a parent, which goes to the back.
unfoldable pub merge_queue : ℕ → Heap → ℕ → List TotTree → Heap × List TotTree
unfolding join
merge_queue zero h bound q = (h, q)
merge_queue (suc fuel) h bound [] = (h, [])
merge_queue (suc fuel) h bound (t ∷ []) = (h, t ∷ [])
merge_queue (suc fuel) h bound (l ∷ r ∷ q) =
    let (h1, t) = join h bound l r in merge_queue fuel h1 bound (q ++ t ∷ [])

abbrev pub front : Heap × List TotTree → ℕ → ℕ → Option (Heap × Card)
front (h, []) n bound = none
front (h, t ∷ q) n bound = some (h, record { nb_lit = n; bound = bound; tree = t; max_vars = n })

-- The constructor; `none` for the empty clause, where the source reads the front of an empty queue.
unfoldable pub new_card : Heap → Clause → ℕ → Option (Heap × Card)
unfolding leaf_queue merge_queue
new_card h clause bound =
    let (h1, q) = leaf_queue h clause in
    front (merge_queue (length clause) h1 bound q) (length clause) bound

abbrev attach : Card → Clause → Option (Heap × Card) → Option (Heap × Card)
attach c clause none = none
attach c clause (some (h, tb)) =
    let n = nof_input c.tree + nof_input tb.tree in
    let kmin = (if leb n (length (lazy_vars c.tree)) then n else length (lazy_vars c.tree)) in
    let (h1, vs) = alloc_many kmin h in
    some (
      new_ua h1 vs kmin (lazy_vars c.tree) (lazy_vars tb.tree),
      record c { tree = node vs n c.tree tb.tree; max_vars = c.max_vars + length clause },
    )

-- CardIncremental_Lazy::add
unfoldable pub add : Heap → Card → Clause → Option (Heap × Card)
unfolding new_card new_ua alloc_many
add h c clause = attach c clause (new_card h clause (length (lazy_vars c.tree) - 1))

module _ (T : ClauseSink) where
  open T use {State}

  -- The tree is grown where output `k` does not exist yet.
  unfoldable pub grow : Heap → Card → ℕ → Heap × Card
  unfolding increase
  grow h c k =
      let (h', t) = increase h c.tree k in
      if leb (length (lazy_vars c.tree)) k then (h', record c { tree = t }) else (h, c)

  -- 0 where the bound is no constraint.
  unfoldable pub at_most : State → Heap → Card → ℕ → Option (State × Heap × Card × ℤ)
  unfolding grow get
  at_most s h c k =
      let (h1, c1) = grow h c k in
      let made = (do
        (s', var', v) ← get T h1.impliquants h1.next s h1.var (get_or (lazy_vars c1.tree) k 0)
        some (s', record h1 { var = var' }, c1, neg v)) in
      if leb c.max_vars k then some (s, h, c, pos 0) else made

-- TotTree::getClause, through the literals that the leaves were made with.
unfoldable pub get_clause : Vars → TotTree → Clause
get_clause var (leaf i) = elim (var i) [ none ↦ [] | some l ↦ l ∷ [] ]
get_clause var (node vs n l r) = get_clause var l ++ get_clause var r
