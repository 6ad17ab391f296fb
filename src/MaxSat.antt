-- ===== src/MaxSat.antt =====
-- lib/EvalMaxSAT/src/EvalMaxSAT.h, class EvalMaxSAT: the formula it holds, and the operations that
-- change one literal's weight or add one clause. The SAT solver is the parameter T.
-- A `long long` is an integer here, its overflow being undefined; a `t_weight` is unsigned, 64 bits
-- wide, and wraps. A `shared_ptr` to a totalizer is its place in the list `cards`.
-- The member functions call one another through `newVar` and `addClause`: the totalizer's calls of
-- the two reach the fields of `Base` alone, since its clauses have two literals at least.
pub mod Index
pub mod Objective
pub mod AddPositive
pub mod AddWeight
pub mod AddSoft
pub mod NewSoft
pub mod AddHard
pub mod Core
pub mod Clique
pub mod Query
pub mod Rounds
pub mod Oracle
pub mod Minimize
pub mod Strata
pub mod AtMostOne
pub mod Solve
use eval_max_sat.Common.{
  ℕ, zero, suc, ◌+◌, ◌-◌, ◌%◌, ◌^◌, ◌≤◌, ◌≡◌, refl, sym, ap, ◌∙◌, List, [], ◌∷◌, ◌++◌, Option, none,
  some, if◌then◌else◌, Bool, true, false, not, ◌&&◌, ◌==◌, ltb, leb, length, get_or, get_elem?, set,
  All, arith,
}
use eval_max_sat.Common.Int.{ℤ, pos, negsuc, neg, abs, is_neg, is_pos, is_zero, ltb_ℤ}
use eval_max_sat.Common.Assign.{Clause}
use eval_max_sat.Common.Loop.{for_range}
use eval_max_sat.Lazy.{ClauseSink, Heap, empty_heap}
use eval_max_sat.Card.{Card, at_most}
use eval_max_sat.Weights.{WeightVector, get, size, push_back, write}
use eval_max_sat.Weights
use eval_max_sat.WeightMap.{WeightMap, insert, erase}

pub record LitCard : Type 0 where
  pub card : ℕ
  pub at_most : ℕ
  pub initial_weight : ℤ

abbrev pub CardMap : Type 0
CardMap = List (Option LitCard)

-- What a failing call ends with: `exit(-1)`, a state that no run of the source reaches (a card that is
-- not there, or fuel that ran out), or an iterator that is decremented at begin(), which is undefined.
pub data Error : Type 0 where
  not_incremental unreachable before_begin : Error

pub data Result {ℓ} (A : Type ℓ) : Type ℓ where
  ok : A → Result A
  err : Error → Result A

infixl 5 ◌>>=◌
abbrev pub ◌>>=◌ {ℓ κ} : {A : Type ℓ} {B : Type κ} → Result A → (A → Result B) → Result B
ok a >>= f = f a
err e >>= f = err e

abbrev pub or_fail {ℓ} : {A : Type ℓ} → Option A → Result A
or_fail none = err unreachable
or_fail (some a) = ok a

-- std::numeric_limits<t_weight>::max()
abbrev pub max_weight : ℕ
max_weight = 18_446_744_073_709_551_615

-- The conversion of a `long long` to a `t_weight`.
unfoldable pub to_weight : ℤ → ℕ
to_weight (pos n) = n % 2 ^ 64
to_weight (negsuc n) = (2 ^ 64 - suc n) % 2 ^ 64

unfoldable pub add_cost : ℕ → ℕ → ℕ
add_cost cost w = (cost + w) % 2 ^ 64

module _ (T : ClauseSink) where
  open T use {State}

  -- The fields that a new variable touches.
  pub record Base : Type 0 where
    pub solver : State
    pub poids : WeightVector
    pub map_card : CardMap

  unfoldable pub base_new_var : Base → Base × ℤ
  base_new_var b = (
    record {
      solver = (T.new_var b.solver).0;
      poids = push_back b.poids (pos 0);
      map_card = b.map_card ++ none ∷ [];
    },
    (T.new_var b.solver).1,
  )

  abbrev pub base_add_clause : Base → Clause → Base
  base_add_clause b c = record b { solver = T.add_clause b.solver c }

-- EvalMaxSAT as the solver that a totalizer calls.
module _ (T : ClauseSink) where
  pub sink_lit : (b : Base T) → (base_new_var T b).1 ≡ pos (suc (T.vars b.solver))
  unfolding base_new_var
  sink_lit b = T.new_var_lit b.solver

  pub sink_vars : (b : Base T) → T.vars (base_new_var T b).0.solver ≡ suc (T.vars b.solver)
  unfolding base_new_var
  sink_vars b = T.vars-new_var b.solver

  pub sink_clauses : (b : Base T) → T.clauses (base_new_var T b).0.solver ≡ T.clauses b.solver
  unfolding base_new_var
  sink_clauses b = T.clauses-new_var b.solver

  abbrev pub sink : ClauseSink
  sink = record {
    State = Base T;
    new_var = base_new_var T;
    add_clause = base_add_clause T;
    vars = λ b. T.vars b.solver;
    clauses = λ b. T.clauses b.solver;
    new_var_lit = sink_lit;
    vars-new_var = sink_vars;
    clauses-new_var = sink_clauses;
    clauses-add_clause = λ b c. T.clauses-add_clause b.solver c;
    vars-add_clause = λ b c w. T.vars-add_clause b.solver c w;
  }

module _ (T : ClauseSink) where
  pub record MaxSat : Type 0 where
    pub base : Base T
    pub open base use *
    pub heap : Heap
    pub cards : List Card
    pub map_weight : WeightMap
    pub cost : ℕ
    pub card_to_add : List (Clause × ℤ)
    pub lit_to_relax : List ℤ
    pub start_solve : Bool
    pub is_incremental : Bool
    pub solution : List Bool
    pub solution_cost : ℕ
    pub n_input_vars : ℕ

  abbrev pub weight_of : MaxSat → ℤ → ℤ
  weight_of s lit = get s.poids lit

  abbrev pub with_poids : MaxSat → WeightVector → MaxSat
  with_poids s p = record s { base = record s.base { poids = p } }

  -- The constructor, over a solver that was just made.
  unfoldable pub init : T.State → MaxSat
  init solver = record {
    base = record { solver = solver; poids = pos 0 ∷ []; map_card = none ∷ [] };
    heap = empty_heap;
    cards = [];
    map_weight = [];
    cost = 0;
    card_to_add = [];
    lit_to_relax = [];
    start_solve = false;
    is_incremental = false;
    solution = [];
    solution_cost = max_weight;
    n_input_vars = 0;
  }

  unfoldable pub new_var : MaxSat → MaxSat
  unfolding base_new_var
  new_var s = record s { base = (base_new_var T s.base).0 }

  -- The number of the new variable is the last index of `poids`.
  unfoldable pub push_soft : MaxSat → Bool → ℤ → MaxSat × ℤ
  push_soft s value weight =
      let lit = if value then pos (size s.poids) else neg (pos (size s.poids)) in
      (
        record s {
          base = record {
            solver = (T.new_var s.solver).0;
            poids = push_back s.poids (if value then weight else neg weight);
            map_card = s.map_card ++ none ∷ [];
          };
          map_weight = insert s.map_weight (to_weight weight) lit;
        },
        (T.new_var s.solver).1,
      )

  -- A negative weight turns the wanted value round.
  unfoldable pub new_soft_var : MaxSat → Bool → ℤ → MaxSat × ℤ
  unfolding push_soft
  new_soft_var s value weight =
      if is_neg weight then push_soft s (not value) (neg weight) else push_soft s value weight

  -- The next output of the card of a variable becomes a soft literal, unless there is none or it is
  -- one already.
  unfoldable pub soften : MaxSat → LitCard → ℤ → MaxSat × Option ℤ
  soften s lc for_card =
      let added : MaxSat × Option ℤ = (
        record s {
          base = record s.base {
            map_card =
                set s.map_card (abs for_card) (some (record lc { at_most = suc lc.at_most }));
            poids = write s.poids for_card lc.initial_weight;
          };
          map_weight =
              insert s.map_weight
                (to_weight (get (write s.poids for_card lc.initial_weight) for_card)) for_card;
        },
        some for_card,
      ) in
      if is_zero for_card
      then (s, none)
      else elim (get_or s.map_card (abs for_card) none) [ none ↦ added | some _ ↦ (s, none) ]

  -- if(_poids[lit] == 0) _mapAssum2Card[var].reset();
  unfoldable pub reset_card : ℤ → MaxSat × Option ℤ → MaxSat × Option ℤ
  reset_card lit (s, r) =
      if is_zero (weight_of s lit)
      then (record s { base = record s.base { map_card = set s.map_card (abs lit) none } }, r)
      else (s, r)

  unfoldable pub relax_card : MaxSat → ℤ → LitCard → Result (MaxSat × Option ℤ)
  unfolding soften reset_card
  relax_card s lit lc = do
    card ← or_fail (get_elem? s.cards lc.card)
    (b, h, c, for_card) ← or_fail (at_most (sink T) s.base s.heap card (suc lc.at_most))
    ok (
        reset_card lit
          (soften (record s { base = b; heap = h; cards = set s.cards lc.card c }) lc for_card))

  unfoldable pub relax : MaxSat → ℤ → Result (MaxSat × Option ℤ)
  relax s lit = elim (get_or s.map_card (abs lit) none) [
    | none ↦ ok (s, none)
    | some lc ↦ relax_card s lit lc
  ]

  abbrev pub solver_clause : MaxSat → Clause → MaxSat
  solver_clause s c = record s { base = base_add_clause T s.base c }

  -- A hard unit clause over a soft literal or its opposite settles its weight.
  unfoldable pub settle : MaxSat → ℤ → Result MaxSat
  settle s lit =
      let falsified = record s {
        map_weight = erase s.map_weight (to_weight (weight_of s (neg lit))) (neg lit);
        cost = add_cost s.cost (to_weight (weight_of s (neg lit)));
      } in
      let paid : Result MaxSat = (do
        (s', _) ← relax falsified lit
        ok (with_poids s' (write s'.poids lit (pos 0)))) in
      if is_zero (weight_of s lit)
      then ok s
      else if is_neg (weight_of s lit)
      then paid
      else ok (
          with_poids
            (record s { map_weight = erase s.map_weight (to_weight (weight_of s lit)) lit })
            (write s.poids lit (pos 0)))

  -- addClause without a weight.
  unfoldable pub add_hard : MaxSat → Clause → Result MaxSat
  add_hard s (lit ∷ []) = do s' ← settle s lit; ok (solver_clause s' (lit ∷ []))
  add_hard s c = ok (solver_clause s c)

  -- while(abs(lit) >= _poids.size()) newVar();
  unfoldable pub grow_vars : MaxSat → ℕ → MaxSat
  unfolding new_var for_range
  grow_vars s v = for_range (suc v - size s.poids) 0 (λ _ s'. new_var s') s

  -- The weight is written back under the literal that is now soft.
  unfoldable pub reinsert : MaxSat → ℤ → Result MaxSat
  reinsert s lit =
      let relaxed : Result MaxSat = (do (s', _) ← relax s lit; ok s') in
      if is_zero (weight_of s lit)
      then relaxed
      else if is_pos (weight_of s lit)
      then ok (record s { map_weight = insert s.map_weight (to_weight (weight_of s lit)) lit })
      else ok (record s {
        map_weight = insert s.map_weight (to_weight (neg (weight_of s lit))) (neg lit);
      })

  abbrev pub min_ℤ : ℤ → ℤ → ℤ
  min_ℤ a b = if ltb_ℤ b a then b else a

  -- A positive weight for a literal of a variable in use.
  unfoldable pub add_positive : MaxSat → ℤ → ℤ → Result MaxSat
  add_positive s lit weight =
      if is_zero (weight_of s lit)
      then ok (
          with_poids (record s { map_weight = insert s.map_weight (to_weight weight) lit })
            (write s.poids lit weight))
      else if is_pos (weight_of s lit)
      then reinsert
          (with_poids
            (record s { map_weight = erase s.map_weight (to_weight (weight_of s lit)) lit })
            (Weights.add s.poids lit weight))
          lit
      else reinsert
          (with_poids
            (record s {
              map_weight = erase s.map_weight (to_weight (weight_of s (neg lit))) (neg lit);
              cost = add_cost s.cost (to_weight (min_ℤ weight (weight_of s (neg lit))));
            })
            (Weights.add s.poids lit weight))
          lit

  -- A negative weight for a literal is a positive one for its opposite.
  unfoldable pub add_weight : MaxSat → ℤ → ℤ → Result MaxSat
  add_weight s lit weight =
      if is_neg weight
      then add_positive (grow_vars s (abs lit)) (neg lit) (neg weight)
      else add_positive (grow_vars s (abs lit)) lit weight

  -- for(auto lit: clause) addClause({ -softVar, lit });
  unfoldable pub add_implied : MaxSat → ℤ → Clause → Result MaxSat
  add_implied s soft [] = ok s
  add_implied s soft (lit ∷ c) = do s' ← add_hard s (neg soft ∷ lit ∷ []); add_implied s' soft c

  -- addClause with a weight, by the number of literals.
  unfoldable pub add_soft : MaxSat → Clause → ℤ → Result (MaxSat × ℤ)
  add_soft s [] w = ok (record s { cost = add_cost s.cost (to_weight w) }, pos 0)
  add_soft s (lit ∷ []) w = do s' ← add_weight s lit w; ok (s', pos 0)
  add_soft s (l ∷ k ∷ c) w =
      let (s1, soft) = new_soft_var s true (if is_neg w then neg w else w) in
      let whole : Result (MaxSat × ℤ) = (do
        s2 ← add_hard s1 ((l ∷ k ∷ c) ++ neg soft ∷ [])
        ok (s2, soft)) in
      let parts : Result (MaxSat × ℤ) = (do s2 ← add_implied s1 soft (l ∷ k ∷ c); ok (s2, soft)) in
      if is_neg w then parts else whole

  -- A soft clause after a first solve needs the incremental mode.
  unfoldable pub add_clause : MaxSat → Clause → Option ℤ → Result (MaxSat × ℤ)
  add_clause s c none = do s' ← add_hard s c; ok (s', pos 0)
  add_clause s c (some w) =
      if is_zero w
      then ok (s, pos 0)
      else if not s.start_solve && not (s.solution_cost == max_weight) && not s.is_incremental
      then err not_incremental
      else add_soft s c w
