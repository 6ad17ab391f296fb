-- ===== src/Lazy.antt =====
-- lib/EvalMaxSAT/src/lazyvariable.h: a variable of the cardinality encoding, created in the solver
-- when it is first asked for, with the clauses that define it.
-- The objects of class LazyVariable live in a heap, and an object is named by its place there: a
-- `shared_ptr` to it is that number, so an object that several nodes share is one cell.
pub mod Invariant
pub mod Model
pub mod Emit
pub mod Get
use eval_max_sat.Common.{
  ℕ, zero, suc, ◌+◌, ◌≤◌, ◌≡◌, List, [], ◌∷◌, ◌++◌, Option, none, some, if◌then◌else◌, ◌==◌, All,
}
use eval_max_sat.Common.Int.{ℤ, pos, neg, abs}
use eval_max_sat.Common.Assign.{Clause}

-- The template parameter T: what a lazy variable calls of its solver. `vars` and `clauses` observe
-- it: the highest variable in use, and the clauses given so far.
pub record ClauseSink : Type 1 where
  pub State : Type 0
  pub new_var : State → State × ℤ
  pub add_clause : State → Clause → State
  pub vars : State → ℕ
  pub clauses : State → List Clause
  pub new_var_lit : (s : State) → (new_var s).1 ≡ pos (suc (vars s))
  pub vars-new_var : (s : State) → vars (new_var s).0 ≡ suc (vars s)
  pub clauses-new_var : (s : State) → clauses (new_var s).0 ≡ clauses s
  pub clauses-add_clause : (s : State) (c : Clause) → clauses (add_clause s c) ≡ c ∷ clauses s
  pub vars-add_clause :
      (s : State) (c : Clause) → All (λ l. abs l ≤ vars s) c → vars (add_clause s c) ≡ vars s

-- The field `var` of every object, and the field `impliquants`.
abbrev pub Vars : Type 0
Vars = ℕ → Option ℤ

abbrev pub Impliquants : Type 0
Impliquants = ℕ → List (List ℕ)

pub record Heap : Type 0 where
  pub next : ℕ
  pub var : Vars
  pub impliquants : Impliquants

abbrev pub update {ℓ} : {A : Type ℓ} → (ℕ → A) → ℕ → A → ℕ → A
update f i v j = if i == j then v else f j

abbrev pub empty_heap : Heap
empty_heap = record { next = 0; var = λ _. none; impliquants = λ _. [] }

-- LazyVariable(T *solver)
unfoldable pub alloc : Heap → Heap × ℕ
alloc h = (
  record h {
    next = suc h.next;
    var = update h.var h.next none;
    impliquants = update h.impliquants h.next [];
  },
  h.next,
)

-- LazyVariable(int variable)
unfoldable pub alloc_leaf : Heap → ℤ → Heap × ℕ
alloc_leaf h lit = (
  record h {
    next = suc h.next;
    var = update h.var h.next (some lit);
    impliquants = update h.impliquants h.next [];
  },
  h.next,
)

unfoldable pub add_impliquant : Heap → ℕ → List ℕ → Heap
add_impliquant h i js = record h {
  impliquants = update h.impliquants i (h.impliquants i ++ js ∷ []);
}

infixl 5 ◌>>=◌
abbrev pub ◌>>=◌ {ℓ κ} : {A : Type ℓ} {B : Type κ} → Option A → (A → Option B) → Option B
none >>= f = none
some a >>= f = f a

module _ (T : ClauseSink) (imps : Impliquants) where
  open T use {State, new_var, add_clause}

  -- The call of `get` on another object, with the fuel that is left.
  abbrev pub Rec : Type 0
  Rec = State → Vars → ℕ → Option (State × Vars × ℤ)

  -- for(auto &lazyVar: implique) clause.push_back(-lazyVar->get());
  unfoldable pub inputs : Rec → State → Vars → List ℕ → Option (State × Vars × Clause)
  inputs rec s var [] = some (s, var, [])
  inputs rec s var (j ∷ js) = do
    (s1, var1, w) ← rec s var j
    (s2, var2, c) ← inputs rec s1 var1 js
    some (s2, var2, neg w ∷ c)

  -- for(auto &implique: impliquants): one clause each, closed by the new variable.
  unfoldable pub emit : Rec → State → Vars → ℤ → List (List ℕ) → Option (State × Vars)
  emit rec s var v [] = some (s, var)
  emit rec s var v (js ∷ rest) = do
    (s1, var1, c) ← inputs rec s var js
    emit rec (add_clause s1 (c ++ v ∷ [])) var1 v rest

  -- The new variable, stored before the clauses are made.
  unfoldable pub get_fresh : Rec → State → Vars → ℕ → List (List ℕ) → Option (State × Vars × ℤ)
  unfolding emit inputs
  get_fresh rec s var i is =
      let (s1, v) = new_var s in
      do (s2, var2) ← emit rec s1 (update var i (some v)) v is; some (s2, var2, v)

  -- A single impliquant of a single variable is that variable.
  unfoldable pub get_new : Rec → State → Vars → ℕ → List (List ℕ) → Option (State × Vars × ℤ)
  unfolding get_fresh
  get_new rec s var i ((j ∷ []) ∷ []) = do
    (s1, var1, v) ← rec s var j
    some (s1, update var1 i (some v), v)
  get_new rec s var i is = get_fresh rec s var i is

  -- `none` where the fuel is spent.
  unfoldable pub get : ℕ → Rec
  unfolding get_new
  get zero s var i = none
  get (suc fuel) s var i = elim (var i) [
    | some v ↦ some (s, var, v)
    | none ↦ get_new (get fuel) s var i (imps i)
  ]
