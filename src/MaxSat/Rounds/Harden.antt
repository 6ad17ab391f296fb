-- ===== src/MaxSat/Rounds/Harden.antt =====
-- Hardening loses no solution that is better than the best one known.
use eval_max_sat.Common.{
  ℕ, suc, ◌+◌, ◌≤◌, ◌<◌, ◌≡◌, ◌≢◌, refl, sym, ap, ◌∙◌, subst, List, [], ◌∷◌, ◌++◌, Bool, true,
  false, All, arith, ◌&&◌, ◌||◌, ◌==◌, ltb, inl, inr, Bool-cases,
}
use eval_max_sat.Common.Int.{ℤ, pos, abs, eqb_ℤ, eqb_ℤ_iff}
use eval_max_sat.Common.Assign.{Assignment, holds, holds_all}
use eval_max_sat.Lazy.{ClauseSink}
use eval_max_sat.Weights.{WeightVector, get, size, write}
use eval_max_sat.WeightMap.{WeightMap, set_erase, update_at, erase, bucket, has}
use eval_max_sat.Optimizer.Cost.{charge, soft_cost, soft_cost-write}
use eval_max_sat.MaxSat.{MaxSat, ok, add_hard, solver_clause}
use eval_max_sat.MaxSat.Objective.{IsValid, objective, long_limit}
use eval_max_sat.MaxSat.AddHard.{settle-pos}
use eval_max_sat.MaxSat.Oracle.{IsDistinct}
use eval_max_sat.MaxSat.Core.{Assum}
use eval_max_sat.MaxSat.Rounds.{harden_lits}

-- A map that ends with the set of `w`, all other weights being less.
abbrev pub Below : ℕ → WeightMap → Type 0
Below w = All (λ e. e.0 < w)

pub bucket-last :
    (p : WeightMap) (w : ℕ) (lits : List ℤ) → Below w p → bucket (p ++ (w, lits) ∷ []) w ≡ lits
unfolding bucket
bucket-last [] w lits b = ground arith
bucket-last ((k, s) ∷ p) w lits (h, b) =
    let (y, z) : ((k == w) ≡ false) × (ltb w k ≡ false) = (ground arith, ground arith) in
    rw (y, z) (bucket-last p w lits b)

-- The empty set at the end is as good as none.
pub has-last : (p : WeightMap) (w k : ℕ) (l : ℤ) → has (p ++ (w, []) ∷ []) k l ≡ has p k l
unfolding has bucket
has-last [] w k l = ground arith
has-last ((j, s) ∷ p) w k l = ground (arith, has-last p w k l)

set_erase-other : (l : ℤ) (c : List ℤ) → All (λ k. abs l ≢ abs k) c → set_erase l c ≡ c
unfolding set_erase
set_erase-other l [] h = refl
set_erase-other l (k ∷ c) (ne, h) = elim (Bool-cases (eqb_ℤ l k)) [
  | inl y ↦ absurd (ne (ap abs ((eqb_ℤ_iff l k).0 y)))
  | inr z ↦ rw (z, set_erase-other l c h) refl
]

erase-last :
    (p : WeightMap) (w : ℕ) (l : ℤ) (c : List ℤ)
    → Below w p
    → All (λ k. abs l ≢ abs k) c
    → erase (p ++ (w, l ∷ c) ∷ []) w l ≡ p ++ (w, c) ∷ []
unfolding erase update_at set_erase
erase-last [] w l c b h =
    let (y, z) : ((w == w) ≡ true) × (eqb_ℤ l l ≡ true) = (ground arith, (eqb_ℤ_iff l l).1 refl) in
    rw (y, z, set_erase-other l c h) refl
erase-last ((k, s) ∷ p) w l c (b, bs) h =
    let (y, z) : ((k == w) ≡ false) × (ltb w k ≡ false) = (ground arith, ground arith) in
    rw (y, z) (ap (λ m. (k, s) ∷ m) (erase-last p w l c bs h))

-- A literal of a variable in use.
abbrev pub InUse : ℕ → ℤ → Type 0
InUse n l = (0 < abs l) × (abs l < n)

module _ (T : ClauseSink) where
  -- What is hardened so far, literals of the weight `w`: only solutions that cost the weight are lost.
  pub record Hardened (s s' : MaxSat T) (w : ℕ) : Type 0 where
    pub valid : IsValid T s'
    pub size_stays : size s'.poids ≡ size s.poids
    pub cost_stays : s'.cost ≡ s.cost
    pub bound_stays : s'.solution_cost ≡ s.solution_cost
    pub entails :
        (a : Assignment)
        → holds_all a (T.clauses s'.solver) ≡ true
        → holds_all a (T.clauses s.solver) ≡ true
    pub keeps :
        (a : Assignment)
        → holds_all a (T.clauses s.solver) ≡ true
        → objective T s a < s.cost + w
        → (holds_all a (T.clauses s'.solver) ≡ true) × (objective T s' a ≡ objective T s a)

  pub Hardened-refl : (s : MaxSat T) (w : ℕ) → IsValid T s → Hardened s s w
  Hardened-refl s w v = record {
    valid = v;
    size_stays = refl;
    cost_stays = refl;
    bound_stays = refl;
    entails = λ a h. h;
    keeps = λ a h b. (h, refl);
  }

  pub Hardened-trans :
      (s s1 s2 : MaxSat T) (w u : ℕ)
      → Hardened s s1 w
      → Hardened s1 s2 u
      → (v : ℕ) → v ≤ w
      → v ≤ u
      → Hardened s s2 v
  Hardened-trans s s1 s2 w u x y v hw hu = record {
    valid = y.valid;
    size_stays = y.size_stays ∙ x.size_stays;
    cost_stays = y.cost_stays ∙ x.cost_stays;
    bound_stays = y.bound_stays ∙ x.bound_stays;
    entails = λ a h. x.entails a (y.entails a h);
    keeps = λ a h b.
        let (h1, e1) = x.keeps a h (omega arith) in
        let (h2, e2) = y.keeps a h1 (omega (arith, x.cost_stays, e1)) in (h2, e2 ∙ e1);
  }

  -- A literal that a cheap assignment falsifies would cost its weight.
  cheap_holds :
      (s : MaxSat T) (lit : ℤ) (w : ℕ) (a : Assignment)
      → 0 < abs lit
      → abs lit < size s.poids
      → get s.poids lit ≡ pos w
      → objective T s a < s.cost + w
      → holds a lit ≡ true
  cheap_holds s lit w a ha hs e b = elim (Bool-cases (holds a lit)) [
    | inl y ↦ y
    | inr z ↦
        let k : soft_cost (write s.poids lit (pos 0)) a + w ≡ soft_cost s.poids a + 0 =
          ap (λ x. soft_cost (write s.poids lit (pos 0)) a + charge x false) (sym e)
          ∙ ap (λ x. soft_cost (write s.poids lit (pos 0)) a + charge (get s.poids lit) x) (sym z)
          ∙ soft_cost-write s.poids lit (pos 0) a ha hs
          ∙ ap (λ x. soft_cost s.poids a + charge (pos 0) x) z in
        absurd (omega arith)
  ]

  -- The state after the literals: their set is empty.
  pub record LitsHardened (s s' : MaxSat T) (p : WeightMap) (w : ℕ) : Type 0 where
    pub hardened : Hardened s s' w
    pub map_is : s'.map_weight ≡ p ++ (w, []) ∷ []

  unit_holds : (p q : Bool) → p ≡ true → q ≡ true → ((p || false) && q) ≡ true
  unit_holds p q h k = ground (arith, h, k)

  rest_holds : (p q : Bool) → ((p || false) && q) ≡ true → q ≡ true
  rest_holds p q h = ground (arith, h)

  harden_one :
      (s : MaxSat T) (lit : ℤ) (p : WeightMap) (n : ℕ) (c : List ℤ)
      → IsValid T s
      → InUse (size s.poids) lit
      → get s.poids lit ≡ pos (suc n)
      → suc n < long_limit
      → s.map_weight ≡ p ++ (suc n, lit ∷ c) ∷ []
      → Below (suc n) p
      → All (λ k. abs lit ≢ abs k) c
      → (s' : MaxSat T) × (add_hard T s (lit ∷ []) ≡ ok s')
        × Hardened s s' (suc n)
        × (s'.map_weight ≡ p ++ (suc n, c) ∷ [])
        × ((k : ℤ) → abs lit ≢ abs k → get s'.poids k ≡ get s.poids k)
  unfolding add_hard
  harden_one s lit p n c v (ha, hs) e lim m b d =
      let (s1, q, x, m1, c1) = settle-pos T s lit v ha hs n e lim in
      let cs : T.clauses (T.add_clause s1.solver (lit ∷ [])) ≡ (lit ∷ []) ∷ T.clauses s.solver =
        T.clauses-add_clause s1.solver (lit ∷ [])
        ∙ ap (λ st. (lit ∷ []) ∷ T.clauses st) x.solver_stays in
      (
        solver_clause T s1 (lit ∷ []),
        rw q refl,
        record {
          valid = record {
            indexed = x.valid.indexed;
            no_cards = x.valid.no_cards;
            sized = x.valid.sized;
          };
          size_stays = x.size_stays;
          cost_stays = c1;
          bound_stays = x.bound_stays;
          entails = λ a h. rest_holds (holds a lit) _ (sym (ap (holds_all a) cs) ∙ h);
          keeps = λ a h cheap.
              let t = cheap_holds s lit (suc n) a ha hs e cheap in
              (ap (holds_all a) cs ∙ unit_holds (holds a lit) _ t h, x.same_objective a t);
        },
        m1 ∙ ap (λ y. erase y (suc n) lit) m ∙ erase-last p (suc n) lit c b d,
        x.others_stay,
      )

  weights_stay :
      (ws us : WeightVector) (l w : ℤ) (c : List ℤ)
      → ((k : ℤ) → abs l ≢ abs k → get us k ≡ get ws k)
      → All (λ k. abs l ≢ abs k) c
      → All (λ k. get ws k ≡ w) c
      → All (λ k. get us k ≡ w) c
  weights_stay ws us l w [] f d h = tt
  weights_stay ws us l w (k ∷ c) f (ne, d) (e, h) = (f k ne ∙ e, weights_stay ws us l w c f d h)

  pub harden_lits_lem :
      (lits : List ℤ) (s : MaxSat T) (assum : Assum) (nb : ℕ) (p : WeightMap) (n : ℕ)
      → IsValid T s
      → All (InUse (size s.poids)) lits
      → All (λ l. get s.poids l ≡ pos (suc n)) lits
      → IsDistinct lits
      → suc n < long_limit
      → s.map_weight ≡ p ++ (suc n, lits) ∷ []
      → Below (suc n) p
      → (s' : MaxSat T) × (assum' : Assum) × (nb' : ℕ) × (harden_lits T s assum lits nb
          ≡ ok (s', assum', nb'))
        × LitsHardened s s' p (suc n)
  unfolding harden_lits
  harden_lits_lem [] s assum nb p n v u h d lim m b =
      (s, assum, nb, refl, record { hardened = Hardened-refl s (suc n) v; map_is = m })
  harden_lits_lem (l ∷ c) s assum nb p n v (u, us) (h, hs) (ne, d) lim m b =
      let (s1, q, x, m1, f) = harden_one s l p n c v u h lim m b ne in
      let (s2, assum2, nb2, q2, y) =
        harden_lits_lem c s1 (set_erase l assum) (nb + 1) p n x.valid
          (subst (λ k. All (InUse k) c) (sym x.size_stays) us)
          (weights_stay s.poids s1.poids l (pos (suc n)) c f ne hs) d lim m1 b in
      (
        s2,
        assum2,
        nb2,
        rw q q2,
        record {
          hardened =
              Hardened-trans s s1 s2 (suc n) (suc n) x y.hardened (suc n) (omega arith)
                (omega arith);
          map_is = y.map_is;
        },
      )
