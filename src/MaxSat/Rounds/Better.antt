-- ===== src/MaxSat/Rounds/Better.antt =====
-- The loop of harden: it ends, and every solution better than the best one known stays one.
use eval_max_sat.Common.{
  ℕ, zero, suc, ◌+◌, ◌-◌, ◌%◌, ◌^◌, ◌≤◌, ◌<◌, ◌≡◌, refl, sym, ap, ◌∙◌, subst, List, [], ◌∷◌, ◌++◌,
  Bool, true, false, length, All, arith, ◌||◌, ◌==◌, leb, inl, inr, Bool-cases, some, length-append,
}
use eval_max_sat.Common.Int.{ℤ}
use eval_max_sat.Common.Assign.{Assignment, holds_all}
use eval_max_sat.Lazy.{ClauseSink}
use eval_max_sat.Weights.{WeightVector, size}
use eval_max_sat.WeightMap.{WeightMap}
use eval_max_sat.MaxSat.{MaxSat, ok, ◌>>=◌}
use eval_max_sat.MaxSat.Index.{Indexed}
use eval_max_sat.MaxSat.Objective.{IsValid, objective, weight_limit}
use eval_max_sat.MaxSat.Core.{Assum}
use eval_max_sat.MaxSat.Rounds.{
  greatest, drop_empty, nothing_to_harden, harden_lits, harden_rounds, harden,
}
use eval_max_sat.MaxSat.Rounds.Harden.{
  Below, has-last, Hardened, LitsHardened, Hardened-refl, Hardened-trans, harden_lits_lem,
}
use eval_max_sat.MaxSat.Strata.Entries.{IsAscending}
use eval_max_sat.MaxSat.Rounds.Last.{
  All-last, Ascending-last, IsEntry, drop_empty-last, greatest-last, last_cases, last_weights,
}

module _ (T : ClauseSink) where
  Indexed-dropped :
      (p : WeightMap) (w : ℕ) (ws : WeightVector) → Indexed (p ++ (w, []) ∷ []) ws → Indexed p ws
  Indexed-dropped p w ws ix k l h = sym (has-last p w k l) ∙ ix k l h

  -- What a run of the loop comes to.
  abbrev Runs : ℕ → MaxSat T → Assum → ℕ → ℕ → Type 0
  Runs fuel s assum c nb =
      (s' : MaxSat T) × (assum' : Assum) × (nb' : ℕ) × (harden_rounds T fuel s assum c nb
        ≡ ok (s', assum', nb'))
      × Hardened T s s' c

  -- A round that hardens, by what its literals come to.
  module _ (fuel : ℕ) (s : MaxSat T) (assum : Assum) (c nb : ℕ) (w : ℕ) (lits : List ℤ)
      (g : greatest s.map_weight ≡ some (w, lits)) (y : leb c w ≡ true) (s1 : MaxSat T)
      (assum1 : Assum) (nb1 : ℕ) (q : harden_lits T s assum lits nb ≡ ok (s1, assum1, nb1)) where
    last_round :
        (length s1.map_weight == 1) ≡ true
        → harden_rounds T (suc fuel) s assum c nb ≡ ok (s1, assum1, nb1)
    unfolding harden_rounds
    last_round one = rw (g, y, q, harden_rounds, ◌>>=◌, one) refl

    next_round :
        (p : WeightMap)
        → (length s1.map_weight == 1) ≡ false
        → drop_empty (greatest s1.map_weight) s1.map_weight ≡ p
        → harden_rounds T (suc fuel) s assum c nb
          ≡ harden_rounds T fuel (record s1 { map_weight = p }) assum1 c nb1
    unfolding harden_rounds
    next_round p more d = rw (g, y, q, harden_rounds, ◌>>=◌, more, d) refl

  harden_rounds_lem :
      (fuel : ℕ) (s : MaxSat T) (assum : Assum) (c nb : ℕ) (p : WeightMap) (e : ℕ × List ℤ)
      → length p < fuel
      → IsValid T s
      → s.map_weight ≡ p ++ e ∷ []
      → IsAscending p
      → Below e.0 p
      → All (IsEntry (size s.poids)) p
      → IsEntry (size s.poids) e
      → Runs fuel s assum c nb
  unfolding harden_rounds
  harden_rounds_lem zero s assum c nb p e f v m a b en l = elim f [ ]
  harden_rounds_lem (suc fuel) s assum c nb p (zero, lits) f v m a b en l =
      absurd (omega (arith, l.0))
  harden_rounds_lem (suc fuel) s assum c nb p (suc n, lits) f v m a b en (pw, lim, in_use, dist) =
      let g : greatest s.map_weight ≡ some (suc n, lits) =
        ap greatest m ∙ greatest-last p (suc n, lits) in
      elim (Bool-cases (leb c (suc n))) [
        | inr z ↦ (s, assum, nb, rw (g, z, harden_rounds) refl, Hardened-refl T s c v)
        | inl y ↦
            let (s1, assum1, nb1, q, x) =
              harden_lits_lem T lits s assum nb p n v in_use
                (last_weights (size s.poids) (suc n) s.poids p lits
                  (subst (λ t. Indexed t s.poids) m v.indexed) b in_use)
                dist lim m b in
            let le : c ≤ suc n = ground arith in
            let hd =
              Hardened-trans T s s1 s1 (suc n) (suc n) x.hardened
                (Hardened-refl T s1 (suc n) x.hardened.valid) c le le in
            elim (Bool-cases (length s1.map_weight == 1)) [
              | inl one ↦ (
                s1,
                assum1,
                nb1,
                last_round fuel s assum c nb (suc n) lits g y s1 assum1 nb1 q one,
                hd,
              )
              | inr more ↦ elim (last_cases p) [
                | inl empty ↦ absurd (not_one s1 x more empty)
                | inr (p2, e2, q2) ↦
                    let s2 : MaxSat T = record s1 { map_weight = p } in
                    let dropped : drop_empty (greatest s1.map_weight) s1.map_weight ≡ p =
                      ap (λ t. drop_empty (greatest t) t) x.map_is ∙ drop_empty-last p (suc n) in
                    let v2 : IsValid T s2 = record {
                      indexed =
                          Indexed-dropped p (suc n) s1.poids
                            (subst (λ t. Indexed t s1.poids) x.map_is x.hardened.valid.indexed);
                      no_cards = x.hardened.valid.no_cards;
                      sized = x.hardened.valid.sized;
                    } in
                    let (a2, b2) = Ascending-last p2 e2 (subst IsAscending q2 a) in
                    let (en2, l2) = All-last (IsEntry (size s1.poids)) p2 e2 (
                      subst (All (IsEntry (size s1.poids))) q2
                        (subst (λ t. All (IsEntry t) p) (sym x.hardened.size_stays) en)) in
                    let (s3, assum3, nb3, q3, hd3) =
                      harden_rounds_lem fuel s2 assum1 c nb1 p2 e2
                        (omega (arith, ap length q2, length-append p2 (e2 ∷ []))) v2 q2 a2 b2 en2
                        l2 in
                    (
                      s3,
                      assum3,
                      nb3,
                      next_round fuel s assum c nb (suc n) lits g y s1 assum1 nb1 q p more dropped
                          ∙ q3,
                      Hardened-trans T s s1 s3 c c hd (relabel s1 s3 p hd3) c (omega arith)
                          (omega arith),
                    )
              ]
            ]
      ]
    where
      not_one :
          (s1 : MaxSat T)
          → LitsHardened T s s1 p (suc n)
          → (length s1.map_weight == 1) ≡ false
          → p ≡ []
          → ⊥
      not_one s1 x more empty =
          let k : length s1.map_weight ≡ 1 =
            ap length (x.map_is ∙ ap (λ t. t ++ (suc n, []) ∷ []) empty) in
          absurd (ground (arith, more, k))

      relabel :
          (s1 s3 : MaxSat T) (m : WeightMap)
          → Hardened T (record s1 { map_weight = m }) s3 c
          → Hardened T s1 s3 c
      relabel s1 s3 m h = record {
        valid = h.valid;
        size_stays = h.size_stays;
        cost_stays = h.cost_stays;
        bound_stays = h.bound_stays;
        entails = h.entails;
        keeps = h.keeps;
      }

  -- The weight map as the class keeps it.
  pub record IsRegular (s : MaxSat T) : Type 0 where
    pub valid : IsValid T s
    pub ascending : IsAscending s.map_weight
    pub entries : All (IsEntry (size s.poids)) s.map_weight

  -- The solutions that are left are the old ones' part that holds every better one, at its old price.
  pub record KeepsBetter (s s' : MaxSat T) : Type 0 where
    pub still_valid : IsValid T s'
    pub bound_stays : s'.solution_cost ≡ s.solution_cost
    pub entails :
        (a : Assignment)
        → holds_all a (T.clauses s'.solver) ≡ true
        → holds_all a (T.clauses s.solver) ≡ true
    pub keeps :
        (a : Assignment)
        → holds_all a (T.clauses s.solver) ≡ true
        → objective T s a < s.solution_cost
        → (holds_all a (T.clauses s'.solver) ≡ true) × (objective T s' a ≡ objective T s a)

  -- Without cardinality constraints, the weight map in order and in step, and a cost of at most the
  -- best solution's, of 64 bits, hardening ends: no clause is lost, and every solution that costs less
  -- than the best one known still satisfies the clauses, and costs what it did.
  pub harden_correct :
      (s : MaxSat T) (assum : Assum)
      → IsRegular s
      → s.cost ≤ s.solution_cost
      → s.solution_cost < weight_limit
      → (s' : MaxSat T) × (assum' : Assum) × (nb : ℕ) × (harden T s assum ≡ ok (s', assum', nb))
        × KeepsBetter s s'
  unfolding harden
  harden_correct s assum r le lim =
      elim (Bool-cases (s.is_incremental || nothing_to_harden s.map_weight)) [
        | inl y ↦ (
          s,
          assum,
          0,
          rw y refl,
          record {
            still_valid = r.valid;
            bound_stays = refl;
            entails = λ a h. h;
            keeps = λ a h b. (h, refl);
          },
        )
        | inr z ↦ elim (last_cases s.map_weight) [
          | inl empty ↦ absurd (not_empty empty z)
          | inr (p, e, q) ↦
              let (a, b) = Ascending-last p e (subst IsAscending q r.ascending) in
              let (en, l) =
                All-last (IsEntry (size s.poids)) p e
                  (subst (All (IsEntry (size s.poids))) q r.entries) in
              let (s', assum', nb, eq, x) =
                harden_rounds_lem (suc (length s.map_weight)) s assum
                  ((s.solution_cost + (2 ^ 64 - s.cost)) % 2 ^ 64) 0 p e
                  (omega (arith, ap length q, length-append p (e ∷ []))) r.valid q a b en l in
              (
                s',
                assum',
                nb,
                rw z eq,
                record {
                  still_valid = x.valid;
                  bound_stays = x.bound_stays;
                  entails = x.entails;
                  keeps = λ t h c. x.keeps t h (omega (arith, gap_is));
                },
              )
        ]
      ]
    where
      gap_is : s.cost + (s.solution_cost + (2 ^ 64 - s.cost)) % 2 ^ 64 ≡ s.solution_cost
      gap_is = omega arith

      not_empty :
          s.map_weight ≡ [] → (s.is_incremental || nothing_to_harden s.map_weight) ≡ false → ⊥
      not_empty q z =
          or_true s.is_incremental (ap (λ m. s.is_incremental || nothing_to_harden m) (sym q) ∙ z)
        where
          or_true : (b : Bool) → (b || true) ≡ false → ⊥
          or_true b e = absurd (ground (arith, e))
