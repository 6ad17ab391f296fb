-- ===== src/Lazy/Get.antt =====
-- `get` returns for every object of an acyclic heap, and the clauses it makes give the variable
-- exactly the meaning of the object.
use eval_max_sat.Common.{
  ℕ, zero, suc, ◌≤◌, ◌<◌, ◌≡◌, ◌≢◌, refl, sym, ap, ◌∙◌, subst, List, [], ◌∷◌, Option, none, some,
  ◌==◌, All, arith, true, false, ◌⊎◌, inl, inr, Bool-cases, Option-cases,
}
use eval_max_sat.Common.Int.{ℤ, abs}
use eval_max_sat.Common.Assign.{Assignment, holds}
use eval_max_sat.Lazy.{ClauseSink, Vars, Impliquants, update, Rec, get_fresh, get_new, get, ◌>>=◌}
use eval_max_sat.Lazy.Invariant.{
  Meaning, value, IsModel, IsAcyclic, Agree, All-Within-mono, Inv, Consistent, Conservative,
  Extends, Extends-refl, then_var, none_yet, Extends-trans, Extends-weaken, Inv-lift, Inv-restrict,
  LeavesTrue-back, holds_all-Agree, holds-Agree, Agree-trans,
}
use eval_max_sat.Lazy.Emit.{Calls, emit_lem}

update_self {ℓ} : {A : Type ℓ} (f : ℕ → A) (i : ℕ) (v : A) → update f i v i ≡ v
update_self f i v = ground arith

update_ne {ℓ} : {A : Type ℓ} (f : ℕ → A) (i j : ℕ) (v : A) → i ≢ j → update f i v j ≡ f j
update_ne f i j v h = ground arith

-- A variable that had no literal gets one; all others stay.
keeps_update :
    (var : Vars) (i : ℕ) (v : ℤ)
    → var i ≡ none
    → (k : ℕ) (w : ℤ) → var k ≡ some w
    → update var i (some v) k ≡ some w
keeps_update var i v e k w h = ground arith

module _ (T : ClauseSink) (imps : Impliquants) (acyclic : IsAcyclic imps) where
  open T use {State, vars, clauses, new_var, new_var_lit, vars-new_var, clauses-new_var, add_clause}

  abbrev Called : Option (State × Vars × ℤ) → ℕ → ℕ → State → Vars → Type 0
  Called r i n s var =
      (s' : State) × (var' : Vars) × (w : ℤ) × (r ≡ some (s', var', w))
      × Inv T imps s' var' n
      × (var' i ≡ some w)
      × Extends T imps n s var s' var'
      × Conservative T imps s var s' var'

  module _ (s : State) (var : Vars) (i : ℕ) (open_ : var i ≡ none) (inv : Inv T imps s var i) where
    abbrev fresh_lit : ℤ
    fresh_lit = (new_var s).1

    abbrev fresh_vars : Vars
    fresh_vars = update var i (some fresh_lit)

    fresh_abs : abs fresh_lit ≡ suc (vars s)
    fresh_abs = ap abs (new_var_lit s)

    fresh-Extends : Extends T imps (suc i) s var (new_var s).0 fresh_vars
    fresh-Extends = record {
      steps = then_var none_yet;
      grows = rw (vars-new_var s) (omega arith);
      entails = λ a sat. rw (clauses-new_var s) at sat;
      keeps = keeps_update var i fresh_lit open_;
      frame = λ k h. update_ne var i k _ (λ e. absurd (omega arith));
    }

    fresh-Inv : Inv T imps (new_var s).0 fresh_vars i
    fresh-Inv = record {
      leaf = λ k h z. let (w, q) = inv.leaf k h z in (w, keeps_update var i fresh_lit open_ k w q);
      bounded = λ k w e. old k w e (Bool-cases (i == k));
      within =
          rw (clauses-new_var s, vars-new_var s)
            (All-Within-mono (vars s) (suc (vars s)) (clauses s) (omega arith) inv.within);
      justified = λ k w h e a M sat m l t.
          inv.justified k w h (sym (update_ne var i k _ (λ q. absurd (omega arith))) ∙ e) a M
            (rw (clauses-new_var s) at sat) m
            (LeavesTrue-back T imps var fresh_vars M a (keeps_update var i fresh_lit open_) l) t;
    }
      where
        old :
            (k : ℕ) (w : ℤ)
            → fresh_vars k ≡ some w
            → ((i == k) ≡ true) ⊎ ((i == k) ≡ false)
            → (0 < abs w) × (abs w ≤ vars (new_var s).0)
        old k w e (inl y) =
            let e' : some fresh_lit ≡ some w = rw y at e in
            let e2 : fresh_lit ≡ w = cc in
            rw (← e2, fresh_abs, vars-new_var s) (omega arith, omega arith)
        old k w e (inr z) =
            let e' : var k ≡ some w = rw z at e in
            rw (vars-new_var s) (omega (arith, inv.bounded k w e'))

    -- The new variable takes the object's value.
    fresh-Consistent :
        (M : Meaning) (a : Assignment)
        → Consistent T imps s var M a
        → Consistent T imps (new_var s).0 fresh_vars M (update a (suc (vars s)) (M i))
    fresh-Consistent M a c = record {
      sat =
          rw (clauses-new_var s)
            (holds_all-Agree (vars s) a b (clauses s) agree inv.within ∙ c.sat);
      means = λ k w e. old k w e (Bool-cases (i == k));
    }
      where
        b : Assignment
        b = update a (suc (vars s)) (M i)

        agree : Agree (vars s) a b
        agree k h = update_ne a (suc (vars s)) k (M i) (λ e. absurd (omega arith))

        old :
            (k : ℕ) (w : ℤ)
            → fresh_vars k ≡ some w
            → ((i == k) ≡ true) ⊎ ((i == k) ≡ false)
            → holds b w ≡ M k
        old k w e (inl y) =
            let e' : some fresh_lit ≡ some w = rw y at e in
            let e2 : fresh_lit ≡ w = cc in
            let e3 : i ≡ k = ground arith in
            rw (← e2, new_var_lit s, update_self a (suc (vars s)) (M i), e3)
        old k w e (inr z) =
            let e' : var k ≡ some w = rw z at e in
            holds-Agree (vars s) a b w agree (inv.bounded k w e').1 ∙ c.means k w e'

  -- A new variable with its clauses.
  get_fresh_lem :
      (rec : Rec T imps) (i : ℕ)
      → Calls T imps rec i
      → (s : State) (var : Vars) → Inv T imps s var i
      → var i ≡ none
      → imps i ≢ []
      → Called (get_fresh T imps rec s var i (imps i)) i (suc i) s var
  unfolding get_fresh
  get_fresh_lem rec i calls s var inv o ne =
      let s1 = (new_var s).0 in
      let v = fresh_lit s var i o inv in
      let var1 = fresh_vars s var i o inv in
      let x1 = fresh-Extends s var i o inv in
      let bound : abs v ≤ vars s1 = omega (arith, fresh_abs s var i o inv, vars-new_var s) in
      let (s2, var2, e2, v2, x2, f2, c2) =
        emit_lem T imps rec i calls (imps i) s1 var1 v (acyclic i) bound
          (fresh-Inv s var i o inv) in
      let x =
        Extends-trans T imps (suc i) s var s1 var1 s2 var2 x1
          (Extends-weaken T imps i (suc i) s1 var1 s2 var2 (omega arith) x2) in
      let here = x2.keeps i v (update_self var i (some v)) in
      (
        s2,
        var2,
        v,
        rw (e2, ◌>>=◌),
        record {
          leaf = λ k h z. elim (below k h) [
            | inl lt ↦ v2.leaf k lt z
            | inr e ↦ absurd (ne (subst (λ t. imps t ≡ []) e z))
          ];
          bounded = v2.bounded;
          within = v2.within;
          justified = λ k w h e. elim (below k h) [
            | inl lt ↦ v2.justified k w lt e
            | inr q ↦ λ a M sat m l t.
                let e' : some w ≡ some v = sym e ∙ ap var2 q ∙ here in
                let same : w ≡ v = cc in rw same (f2 a M sat m l (sym (m i ne) ∙ sym (ap M q) ∙ t))
          ];
        },
        here,
        x,
        λ M m a k.
            let b = update a (suc (vars s)) (M i) in
            let k1 = fresh-Consistent s var i o inv M a k in
            let (d, ag, k2) =
              c2 M m b k1 (λ t. k1.means i v (update_self var i (some v)) ∙ m i ne ∙ t) in
            (
              d,
              Agree-trans {a = a} {b = b} {c = d} x1.grows
                  (λ n h. update_ne a (suc (vars s)) n (M i) (λ e. absurd (omega arith))) ag,
              k2,
            ),
      )
    where
      below : (k : ℕ) → k < suc i → (k < i) ⊎ (k ≡ i)
      below k h = omega arith

  -- The literal of another object, shared.
  get_alias_lem :
      (rec : Rec T imps) (i j : ℕ)
      → Calls T imps rec i
      → (s : State) (var : Vars) → Inv T imps s var i
      → var i ≡ none
      → imps i ≡ (j ∷ []) ∷ []
      → Called (get_new T imps rec s var i ((j ∷ []) ∷ [])) i (suc i) s var
  unfolding get_new
  get_alias_lem rec i j calls s var inv o e =
      let lt : j < i = (subst (All (All (λ k. k < i))) e (acyclic i)).0.0 in
      let (s1, var1, w, e1, v1, g1, x1, c1) = calls j lt s var inv in
      let o1 = x1.frame i (omega arith) ∙ o in
      let keeps = keeps_update var1 i w o1 in
      let var2 = update var1 i (some w) in
      (
        s1,
        var2,
        w,
        rw (e1, ◌>>=◌),
        record {
          leaf = λ k h z. elim (below k h) [
            | inl lt' ↦ let (u, q) = v1.leaf k lt' z in (u, keeps k u q)
            | inr q ↦ (w, ground arith)
          ];
          bounded = λ k u h. elim (Bool-cases (i == k)) [
            | inl y ↦
                let q : some w ≡ some u = rw y at h in
                let q' : w ≡ u = cc in rw (← q') (v1.bounded j w g1)
            | inr n ↦ v1.bounded k u (rw n at h)
          ];
          within = v1.within;
          justified = λ k u h q a M sat m l t.
              let back = LeavesTrue-back T imps var1 var2 M a keeps l in
              elim (below k h) [
                | inl lt' ↦
                    v1.justified k u lt'
                      (sym (update_ne var1 i k _ (λ z. absurd (omega arith))) ∙ q) a M sat m back t
                | inr z ↦
                    let r : some w ≡ some u =
                      sym (update_self var1 i (some w)) ∙ sym (ap var2 z) ∙ q in
                    let r' : w ≡ u = cc in
                    let tj : M j ≡ true = ground (arith, meaning M m, ap M z) in
                    rw (← r') (v1.justified j w lt g1 a M sat m back tj)
              ];
        },
        update_self var1 i (some w),
        record {
          steps = x1.steps;
          grows = x1.grows;
          entails = x1.entails;
          keeps = λ k u h. keeps k u (x1.keeps k u h);
          frame =
              λ k h. update_ne var1 i k _ (λ z. absurd (omega arith)) ∙ x1.frame k (omega arith);
        },
        λ M m a k.
            let (b, ag, k1) = c1 M m a k in
            (
              b,
              ag,
              record {
                sat = k1.sat;
                means = λ p u h. elim (Bool-cases (i == p)) [
                  | inl y ↦
                      let q : some w ≡ some u = rw y at h in
                      let q' : w ≡ u = cc in
                      let z : i ≡ p = ground arith in
                      rw (← q') (k1.means j w g1 ∙ sym (meaning M m) ∙ ap M z)
                  | inr n ↦ k1.means p u (rw n at h)
                ];
              },
            ),
      )
    where
      below : (k : ℕ) → k < suc i → (k < i) ⊎ (k ≡ i)
      below k h = omega arith

      meaning : (M : Meaning) → IsModel imps M → M i ≡ M j
      meaning M m =
          m i (λ z.
            absurd
              (subst (λ (t : List (List ℕ)). elim t [ [] ↦ ⊥ | _ ∷ _ ↦ Unit {0} ]) (sym e ∙ z) tt))
          ∙ ap (value M) e
          ∙ ground arith

  pub get_new_cases :
      (rec : Rec T imps) (s : State) (var : Vars) (i : ℕ) (is : List (List ℕ))
      → ((j : ℕ) × (is ≡ (j ∷ []) ∷ []))
        ⊎ (get_new T imps rec s var i is ≡ get_fresh T imps rec s var i is)
  unfolding get_new
  get_new_cases rec s var i ((j ∷ []) ∷ []) = inl (j, refl)
  get_new_cases rec s var i is = inr refl

  -- An object that has no literal yet.
  get_new_lem :
      (rec : Rec T imps) (j : ℕ)
      → Calls T imps rec j
      → (s : State) (var : Vars) → Inv T imps s var (suc j)
      → var j ≡ none
      → Called (get_new T imps rec s var j (imps j)) j (suc j) s var
  get_new_lem rec j calls s var inv o = elim (get_new_cases rec s var j (imps j)) [
    | inl (k, e) ↦
        subst (λ is. Called (get_new T imps rec s var j is) j (suc j) s var) (sym e)
          (get_alias_lem rec j k calls s var below o e)
    | inr e ↦ rw e (get_fresh_lem rec j calls s var below o ne)
  ]
    where
      below : Inv T imps s var j
      below = Inv-restrict T imps j (suc j) s var (omega arith) inv

      ne : imps j ≢ []
      ne z = let (w, e) = inv.leaf j (omega arith) z in let q : none ≡ some w = sym o ∙ e in cc

  get-some :
      (fuel : ℕ) (s : State) (var : Vars) (j : ℕ) (w : ℤ)
      → var j ≡ some w
      → get T imps (suc fuel) s var j ≡ some (s, var, w)
  unfolding get
  get-some fuel s var j w e = rw (e, get)

  pub get-none :
      (fuel : ℕ) (s : State) (var : Vars) (j : ℕ)
      → var j ≡ none
      → get T imps (suc fuel) s var j ≡ get_new T imps (get T imps fuel) s var j (imps j)
  unfolding get
  get-none fuel s var j e = rw (e, get)

  -- Enough fuel is one more than the object's place in the heap.
  pub get_lem : (fuel n : ℕ) → n ≤ fuel → Calls T imps (get T imps fuel) n
  get_lem zero n le j lt s var inv = absurd (omega arith)
  get_lem (suc fuel) n le j lt s var inv = elim (Option-cases (var j)) [
    | inr (w, e) ↦ (
      s,
      var,
      w,
      get-some fuel s var j w e,
      inv,
      e,
      Extends-refl T imps n s var,
      λ M m a c. (a, λ k h. refl, c),
    )
    | inl o ↦
        let (s1, var1, w, e1, v1, g1, x1, c1) =
          get_new_lem (get T imps fuel) j (get_lem fuel j (omega arith)) s var
            (Inv-restrict T imps (suc j) n s var lt inv) o in
        (
          s1,
          var1,
          w,
          get-none fuel s var j o ∙ e1,
          Inv-lift T imps (suc j) n s var s1 var1 inv x1 v1,
          g1,
          Extends-weaken T imps (suc j) n s var s1 var1 lt x1,
          c1,
        )
  ]
