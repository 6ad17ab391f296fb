-- ===== src/MaxSat/Core/AddCard.antt =====
-- The cards in line are made: each one's literal for "at most 1" becomes a soft literal, which is charged
-- for the second falsified literal of its core.
use eval_max_sat.Common.{
  ℕ, suc, ◌+◌, ◌-◌, ◌*◌, ◌≤◌, ◌<◌, ◌≡◌, refl, ap, ◌∙◌, List, [], ◌∷◌, ◌++◌, true, length, All,
  arith, leb, set, some, if◌then◌else◌, inl, inr, ◌⊎◌,
}
use eval_max_sat.Common.Int.{ℤ, pos, negsuc, neg, abs}
use eval_max_sat.Common.Assign.{Assignment, Clause}
use eval_max_sat.Lazy.{ClauseSink}
use eval_max_sat.Lazy.Invariant.{Agree, holds-Agree}
use eval_max_sat.Card.{at_most}
use eval_max_sat.Card.Trues.{trues}
use eval_max_sat.Card.New.{AreLiterals}
use eval_max_sat.Card.Encoding.{new_card_lem}
use eval_max_sat.Card.Fresh.{new_card-Opens}
use eval_max_sat.Weights.{get, write}
use eval_max_sat.WeightMap.{set_insert}
use eval_max_sat.MaxSat.{MaxSat, ok, ◌>>=◌, sink, to_weight}
use eval_max_sat.MaxSat.Objective.{long_limit}
use eval_max_sat.MaxSat.Core.{Assum, soft_output, add_card, add_cards}
use eval_max_sat.MaxSat.Core.Charge.{beyond, charge_bound}
use eval_max_sat.MaxSat.Core.Exchange.{
  InStep, Steps-SameWeights, get-next_var, Exchanges, Exchanges-trans,
}

pub trues-Agree :
    (n : ℕ) (a b : Assignment) (c : Clause) → Agree n a b → AreLiterals n c → trues b c ≡ trues a c
trues-Agree n a b [] f h = refl
trues-Agree n a b (l ∷ c) f ((p, q), h) = rw (holds-Agree n a b l f q, trues-Agree n a b c f h) refl

trues-le : (a : Assignment) (c : Clause) → trues a c ≤ length c
trues-le a [] = omega arith
trues-le a (l ∷ c) = ground (arith, trues-le a c)

-- An entry that take_core puts in line: literals in use and a positive `long long`.
abbrev pub IsInLine : ℕ → Clause × ℤ → Type 0
IsInLine n (c, pos w) = AreLiterals n c × (0 < length c) × (0 < w) × (w < long_limit)
IsInLine n (c, negsuc w) = ⊥

-- What is paid beyond `k` true literals of each clause in line.
abbrev pub pending : ℕ → List (Clause × ℤ) → Assignment → ℕ
pending k [] a = 0
pending k ((c, w) ∷ rest) a = beyond k c (abs w) a + pending k rest a

AreLiterals-mono : (m n : ℕ) (c : Clause) → m ≤ n → AreLiterals m c → AreLiterals n c
AreLiterals-mono m n [] le h = tt
AreLiterals-mono m n (l ∷ c) le ((p, q), h) = ((p, omega arith), AreLiterals-mono m n c le h)

InLine-mono : (m n : ℕ) (cs : List (Clause × ℤ)) → m ≤ n → All (IsInLine m) cs → All (IsInLine n) cs
InLine-mono m n [] le h = tt
InLine-mono m n ((c, pos w) ∷ cs) le ((p, ne, hw, lim), h) =
    ((AreLiterals-mono m n c le p, ne, hw, lim), InLine-mono m n cs le h)
InLine-mono m n ((c, negsuc w) ∷ cs) le (p, h) = absurd p

pending-Agree :
    (k n : ℕ) (a b : Assignment) (cs : List (Clause × ℤ))
    → Agree n a b
    → All (IsInLine n) cs
    → pending k cs b ≡ pending k cs a
pending-Agree k n a b [] f h = refl
pending-Agree k n a b ((c, pos w) ∷ cs) f ((p, ne, hw, lim), h) =
    rw (trues-Agree n a b c f p, pending-Agree k n a b cs f h) refl
pending-Agree k n a b ((c, negsuc w) ∷ cs) f (p, h) = absurd p

module _ (T : ClauseSink) where
  abbrev AddsCard : MaxSat T → Assum → Clause → ℕ → ℕ → Type 0
  AddsCard s assum clause w stratum =
      (s' : MaxSat T) × (assum' : Assum) × (add_card T s assum clause (pos w) stratum
        ≡ ok (s', assum'))
      × InStep T s'
      × Exchanges T s s' (beyond 1 clause w) (beyond 2 clause w)

  module _ (s : MaxSat T) (assum : Assum) (clause : Clause) (w stratum : ℕ) (i : InStep T s)
      (lits : AreLiterals (T.vars s.solver) clause) (hw : 0 < w) (lim : w < long_limit) where
    add_card-many : 1 < length clause → AddsCard s assum clause w stratum
    unfolding add_card soft_output
    add_card-many l =
        let (h1, c, b2, h2, c2, e, e2, r2, enc) =
          new_card-Opens (sink T) s.base s.heap clause i.ready lits l in
        let lit : ℤ = neg (pos (suc (T.vars s.solver))) in
        let x = Steps-SameWeights T s.base i.aligned enc.steps in
        let p = write b2.poids lit (pos w) in
        let (i', ex) =
          charge_bound T s i clause 1 b2 h2 lit r2 enc w hw lim
            (x.reads lit ∙ get-next_var T s.base i.aligned)
            (set b2.map_card (abs lit)
              (some (record { card = length s.cards; at_most = 1; initial_weight = pos w })))
            (s.cards ++ c2 ∷ []) in
        (
          _,
          if leb stratum (to_weight (get p lit)) then set_insert lit assum else assum,
          rw (e, ◌>>=◌, e2, ◌>>=◌) refl,
          i',
          ex,
        )

    -- A core of one literal needs no card: at most 1 of it is true in any case.
    add_card-single : length clause ≡ 1 → AddsCard s assum clause w stratum
    unfolding add_card soft_output at_most
    add_card-single l =
        let (h1, c, e, n) =
          new_card_lem (sink T) s.base s.heap clause 1 i.ready lits (omega arith) in
        let full : leb c.max_vars 1 ≡ true = ground (arith, n.size) in
        (
          record s { heap = h1; cards = s.cards ++ c ∷ [] },
          assum,
          rw (e, ◌>>=◌, full) refl,
          record { ready = n.planted.ready; aligned = i.aligned; indexed = i.indexed },
          record {
            grows = omega arith;
            sound = λ a h. (h, omega (arith, free a));
            complete = λ a f. (a, λ k q. refl, n.planted.faithful a f, omega (arith, free a));
          },
        )
      where
        free : (a : Assignment) → w * (trues a clause - 1) ≡ w * (trues a clause - 2)
        free a = ap (λ t. w * t) (omega (arith, trues-le a clause))

    add_card_lem : 0 < length clause → AddsCard s assum clause w stratum
    add_card_lem l = elim (split (length clause) l) [
      | inl one ↦ add_card-single one
      | inr many ↦ add_card-many many
    ]
      where
        split : (n : ℕ) → 0 < n → (n ≡ 1) ⊎ (1 < n)
        split n h = omega arith

  -- Making the cards in line, each over literals in use and with a positive weight of 63 bits, where the
  -- totalizers are ready, the numbering aligned and the weight map in step, succeeds, empties the line
  -- and keeps all of these. It exchanges what is to be paid beyond the first falsified literal of each
  -- core for what is to be paid beyond the second: no solution of the new clauses is cheaper than
  -- that, and every solution of the old clauses that gives the literals made before their meaning
  -- has one of the new at exactly that price, with the same values of the old variables.
  pub add_cards_correct :
      (s : MaxSat T) (assum : Assum) (cs : List (Clause × ℤ)) (stratum : ℕ)
      → InStep T s
      → All (IsInLine (T.vars s.solver)) cs
      → (s' : MaxSat T) × (assum' : Assum) × (add_cards T s assum cs stratum ≡ ok (s', assum'))
        × InStep T s'
        × (s'.card_to_add ≡ [])
        × Exchanges T s s' (pending 1 cs) (pending 2 cs)
  unfolding add_cards
  add_cards_correct s assum [] stratum i h = (
    record s { card_to_add = [] },
    assum,
    refl,
    record { ready = i.ready; aligned = i.aligned; indexed = i.indexed },
    refl,
    record {
      grows = omega arith;
      sound = λ a h. (h, omega arith);
      complete = λ a f. (a, λ k q. refl, f, refl);
    },
  )
  add_cards_correct s assum ((c, negsuc w) ∷ cs) stratum i (p, h) = absurd p
  add_cards_correct s assum ((c, pos w) ∷ cs) stratum i ((p, ne, hw, lim), h) =
      let (s1, assum1, e1, i1, x1) = add_card_lem s assum c w stratum i p hw lim ne in
      let (s2, assum2, e2, i2, done, x2) =
        add_cards_correct s1 assum1 cs stratum i1 (InLine-mono _ _ cs x1.grows h) in
      (
        s2,
        assum2,
        rw (e1, ◌>>=◌, e2) refl,
        i2,
        done,
        Exchanges-trans T s s1 s2 (beyond 1 c w) (beyond 2 c w) (pending 1 cs) (pending 2 cs) x1 x2
            (λ a b f. (pending-Agree 1 _ a b cs f h, pending-Agree 2 _ a b cs f h)),
      )
