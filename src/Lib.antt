-- ===== src/Lib.antt =====
-- EvalMaxSAT, a solver for weighted partial MaxSAT, from its sources in lib/EvalMaxSAT/src.
--
-- A formula is a set of hard clauses, which the SAT solver holds, and weights of literals. The class
-- EvalMaxSAT keeps the weights (`_poids`), the same weights the other way round (`_mapWeight2Assum`: from a
-- weight to the set of literals of that weight), the cost that is already certain, and the cardinality
-- constraints that earlier cores brought. A core found by the SAT solver gives up its least weight, which
-- is paid, and a totalizer over its negated literals is put in line in its place; the totalizer's
-- literals are made lazily, with clauses that the solver is given when a literal is first asked for.
--
-- Parts, files and sources:
--   Common        integers, literals, assignments and clauses, counted loops, lists
--   Weights       class WeightVector (utile.h)
--   WeightMap     the map `_mapWeight2Assum` (EvalMaxSAT.h)
--   Lazy          class LazyVariable (lazyvariable.h); ClauseSink is what it calls of its solver
--   Card          class CardIncremental_Lazy (cardincremental.h)
--   Optimizer     class LocalOptimizer2 (EvalMaxSAT.h); Improve is optimize
--   MaxSat        class EvalMaxSAT (EvalMaxSAT.h): the state, newVar, newSoftVar, addClause, addWeight, relax;
--                 Core what solve does with a core, with its children AddCard, Relax and Step on what
--                 the cards do to the objective; Rounds how solve starts and ends a round, harden;
--                 Clique processAtMostOne; Query the getters, initAssum; Oracle what the class calls of
--                 its SAT solver, with the meaning of the answers; Minimize oneMinimize; Strata
--                 chooseNextMinWeight; AtMostOne reduceCliqueV2 and the searches for cliques; Solve the
--                 loops of solve
--   Parse         ParseUtils.h; Words match and parseDouble, Consumes what the functions consume; File
--                 readClause and parse (utile.h), its children Print, Load and Ends on whole files; Cost
--                 calculateCost (utile.h)
--   Solver        class Solver_cadical (cadicalinterface.h), over CaDiCaL as a parameter; Liveness when
--                 its solve returns
--   Glucose       class MonGlucose41 (glucoseinterface.h), over Glucose as a parameter
--   Main          solveFile, main and the signal handler (main/src/main.cpp)
--   Tests         concrete runs; Brute is a solver that tries every assignment
-- A part's other child modules hold its proofs. MaxSat.Core.Exchange says what it means that a step
-- exchanges one debt in the objective for another; the proofs of AddCard, Relax and Step build on it.
--
-- The state of an object is a record, and an operation is a function from the state to the state and a
-- result. Objects behind shared pointers live in a heap (lazy variables) or a list (totalizers) and are
-- named by their place. `EvalMaxSAT` and its totalizers call each other: a totalizer sees it as a
-- ClauseSink (MaxSat.sink). The SAT solver is a parameter throughout.
--
-- Numbers: an `int`, a `long long` and an `unsigned int` are unbounded, the overflow of the signed ones
-- being undefined; where a theorem needs a `long long` to hold a value it says so. A `t_weight` is an
-- unsigned 64-bit number and its arithmetic wraps at 2 ^ 64. The conversion between the two is to_weight
-- and long_of. Assertions are off.
--
-- Fuel: LazyVariable::get runs on the number of objects in the heap, since an object refers to older
-- objects only; the loop over the queue of trees on the number of literals; the loop over a clique on
-- its size; harden on the number of weights; the parser's loops on the length of the stream, since each
-- round consumes a byte; oneMinimize on the number of literals; chooseNextMinWeight on the number of
-- weights. A call of CaDiCaL that is repeated until it answers takes the number of calls as an argument.
-- The loops of solve, and those of the searches for cliques, end when the SAT solver's answers let them:
-- their fuel is an argument, and running out of it is the error `unreachable`. The error `before_begin`
-- is the decrement of an iterator at begin(), which is undefined.
--
-- What the clock, random numbers and comparisons of doubles decide is a parameter: `time_up` of oneMinimize,
-- `below_half` of chooseNextMinWeight, and the record MaxSat.Solve.Environment, which also holds the
-- switches of the strategies and the maximum clique search.
--
-- Not modelled: the output of comments and the growth of the time limits; the parsing of the command
-- line; the class doublevector, which nothing uses; CaDiCaL, Glucose, CLI11 and MCQD, which are other
-- projects' code.
pub mod Common
pub mod Weights
pub mod Lazy
pub mod Card
pub mod Optimizer
pub mod WeightMap
pub mod MaxSat
pub mod Parse
pub mod Solver
pub mod Glucose
pub mod Main
pub mod Tests
