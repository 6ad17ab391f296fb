-- ===== src/Lazy/Emit.antt =====
-- The clauses that `get` gives the solver for one new variable: made of the literals of older
-- objects, they say exactly that the variable is true if one impliquant is.
use eval_max_sat.Common.{
  ℕ, ◌≤◌, ◌<◌, ◌≡◌, refl, ◌∙◌, List, [], ◌∷◌, ◌++◌, some, All, all, arith, true, false, inl, inr,
  Bool-cases, and_left, and_right,
}
use eval_max_sat.Common.Int.{ℤ, neg, abs, abs-neg}
use eval_max_sat.Common.Assign.{Clause, Assignment, holds, holds_clause, holds_all, holds-neg}
use eval_max_sat.Lazy.{ClauseSink, Vars, Impliquants, Rec, inputs, emit, ◌>>=◌}
use eval_max_sat.Lazy.Invariant.{
  Meaning, value, IsModel, Agree, Within, LeavesTrue, Inv, Consistent, Conservative, Extends,
  Extends-refl, Extends-trans, then_clause, none_yet, Conserves-trans, LeavesTrue-back, holds-Agree,
  Agree-trans,
}

module _ (T : ClauseSink) (imps : Impliquants) where
  open T use {State, vars, clauses, add_clause, clauses-add_clause, vars-add_clause}

  -- What a call on another object does.
  abbrev pub Calls : Rec T imps → ℕ → Type 0
  Calls rec n =
      (j : ℕ)
      → j < n
      → (s : State) (var : Vars) → Inv T imps s var n
      → (s' : State) × (var' : Vars) × (w : ℤ) × (rec s var j ≡ some (s', var', w))
        × Inv T imps s' var' n
        × (var' j ≡ some w)
        × Extends T imps n s var s' var'
        × Conservative T imps s var s' var'

  -- The negated literals of the objects.
  abbrev pub Negated : Vars → List ℕ → Clause → Type 0
  Negated var [] [] = Unit
  Negated var [] (l ∷ c) = ⊥
  Negated var (j ∷ js) [] = ⊥
  Negated var (j ∷ js) (l ∷ c) = ((w : ℤ) × (var j ≡ some w) × (l ≡ neg w)) × Negated var js c

  Negated-keeps :
      (var var' : Vars)
      → ((i : ℕ) (w : ℤ) → var i ≡ some w → var' i ≡ some w)
      → (js : List ℕ) (c : Clause) → Negated var js c
      → Negated var' js c
  Negated-keeps var var' k [] [] h = tt
  Negated-keeps var var' k [] (l ∷ c) h = h
  Negated-keeps var var' k (j ∷ js) [] h = h
  Negated-keeps var var' k (j ∷ js) (l ∷ c) ((w, e, d), h) =
      ((w, k j w e, d), Negated-keeps var var' k js c h)

  Negated-Within :
      (s : State) (var : Vars) (n : ℕ)
      → Inv T imps s var n
      → (js : List ℕ) (c : Clause) → Negated var js c
      → Within (vars s) c
  Negated-Within s var n v [] [] h = tt
  Negated-Within s var n v [] (l ∷ c) h = absurd h
  Negated-Within s var n v (j ∷ js) [] h = absurd h
  Negated-Within s var n v (j ∷ js) (l ∷ c) ((w, e, d), h) =
      (rw (d, abs-neg w) (v.bounded j w e).1, Negated-Within s var n v js c h)

  abbrev Inputs : Rec T imps → ℕ → State → Vars → List ℕ → Type 0
  Inputs rec n s var js =
      (s' : State) × (var' : Vars) × (c : Clause) × (inputs T imps rec s var js
        ≡ some (s', var', c))
      × Inv T imps s' var' n
      × Negated var' js c
      × Extends T imps n s var s' var'
      × Conservative T imps s var s' var'

  Conservative-refl : (s : State) (var : Vars) → Conservative T imps s var s var
  Conservative-refl s var M m a c = (a, λ k h. refl, c)

  inputs_lem :
      (rec : Rec T imps) (n : ℕ)
      → Calls rec n
      → (js : List ℕ) (s : State) (var : Vars) → All (λ j. j < n) js
      → Inv T imps s var n
      → Inputs rec n s var js
  unfolding inputs
  inputs_lem rec n calls [] s var b v =
      (s, var, [], refl, v, tt, Extends-refl T imps n s var, Conservative-refl s var)
  inputs_lem rec n calls (j ∷ js) s var b v =
      let (s1, var1, w, e1, v1, g1, x1, c1) = calls j b.0 s var v in
      let (s2, var2, c, e2, v2, g2, x2, c2) = inputs_lem rec n calls js s1 var1 b.1 v1 in
      (
        s2,
        var2,
        neg w ∷ c,
        rw (e1, ◌>>=◌, e2, ◌>>=◌),
        v2,
        ((w, x2.keeps j w g1, refl), g2),
        Extends-trans T imps n s var s1 var1 s2 var2 x1 x2,
        Conserves-trans T imps s var s1 var1 s2 var2 x1.grows c1 c2,
      )

  -- A clause forces its last literal where all its inputs are true.
  clause_forces :
      (a : Assignment) (M : Meaning) (var : Vars) (v : ℤ) (js : List ℕ) (c : Clause)
      → Negated var js c
      → ((j : ℕ) (w : ℤ) → var j ≡ some w → 0 < abs w)
      → All (λ j. (w : ℤ) → var j ≡ some w → M j ≡ true → holds a w ≡ true) js
      → holds_clause a (c ++ v ∷ []) ≡ true
      → all M js ≡ true
      → holds a v ≡ true
  clause_forces a M var v [] [] h p t sat m = ground arith
  clause_forces a M var v [] (l ∷ c) h p t sat m = absurd h
  clause_forces a M var v (j ∷ js) [] h p t sat m = absurd h
  clause_forces a M var v (j ∷ js) (l ∷ c) ((w, e, d), h) p t sat m =
      let hw = t.0 w e (and_left _ _ m) in
      let fl : holds a l ≡ false = rw (d, holds-neg a w (p j w e), hw) in
      clause_forces a M var v js c h p t.1 (rw fl at sat) (and_right _ _ m)

  -- Where the inputs have their objects' values, the clause asks no more than that.
  clause_holds :
      (a : Assignment) (M : Meaning) (var : Vars) (v : ℤ) (js : List ℕ) (c : Clause)
      → Negated var js c
      → ((j : ℕ) (w : ℤ) → var j ≡ some w → 0 < abs w)
      → ((j : ℕ) (w : ℤ) → var j ≡ some w → holds a w ≡ M j)
      → (all M js ≡ true → holds a v ≡ true)
      → holds_clause a (c ++ v ∷ []) ≡ true
  clause_holds a M var v [] [] h p t f = rw (f refl)
  clause_holds a M var v [] (l ∷ c) h p t f = absurd h
  clause_holds a M var v (j ∷ js) [] h p t f = absurd h
  clause_holds a M var v (j ∷ js) (l ∷ c) ((w, e, d), h) p t f = elim (Bool-cases (M j)) [
    | inl y ↦ let rest = clause_holds a M var v js c h p t (λ q. f (ground arith)) in ground arith
    | inr z ↦ let tl : holds a l ≡ true = rw (d, holds-neg a w (p j w e), t j w e, z) in rw tl
  ]

  All-Justified :
      (s : State) (var : Vars) (n : ℕ) (a : Assignment) (M : Meaning)
      → Inv T imps s var n
      → holds_all a (clauses s) ≡ true
      → IsModel imps M
      → LeavesTrue T imps var M a
      → (js : List ℕ) → All (λ j. j < n) js
      → All (λ j. (w : ℤ) → var j ≡ some w → M j ≡ true → holds a w ≡ true) js
  All-Justified s var n a M v sat m l [] b = tt
  All-Justified s var n a M v sat m l (j ∷ js) b =
      (λ w e t. v.justified j w b.0 e a M sat m l t, All-Justified s var n a M v sat m l js b.1)

  Within-append : (n : ℕ) (c : Clause) (v : ℤ) → Within n c → abs v ≤ n → Within n (c ++ v ∷ [])
  Within-append n [] v w h = (h, tt)
  Within-append n (l ∷ c) v w h = (w.0, Within-append n c v w.1 h)

  -- A further clause over the variables in use keeps the invariant.
  add_clause-Inv :
      (s : State) (var : Vars) (n : ℕ) (c : Clause)
      → Within (vars s) c
      → Inv T imps s var n
      → Inv T imps (add_clause s c) var n
  add_clause-Inv s var n c w v = record {
    leaf = v.leaf;
    bounded = λ i l e. rw (vars-add_clause s c w) (v.bounded i l e);
    within = rw (vars-add_clause s c w, clauses-add_clause s c) (w, v.within);
    justified = λ i l h e a M sat m lt t.
        v.justified i l h e a M (and_right _ _ (rw (clauses-add_clause s c) at sat)) m lt t;
  }

  add_clause-Extends :
      (s : State) (var : Vars) (n : ℕ) (c : Clause)
      → Within (vars s) c
      → Extends T imps n s var (add_clause s c) var
  add_clause-Extends s var n c w = record {
    steps = then_clause c w none_yet;
    grows = rw (vars-add_clause s c w) (omega arith);
    entails = λ a sat. and_right _ _ (rw (clauses-add_clause s c) at sat);
    keeps = λ i l e. e;
    frame = λ i h. refl;
  }

  abbrev pub Emits : Rec T imps → ℕ → State → Vars → ℤ → List (List ℕ) → Type 0
  Emits rec n s var v is =
      (s' : State) × (var' : Vars) × (emit T imps rec s var v is ≡ some (s', var'))
      × Inv T imps s' var' n
      × Extends T imps n s var s' var'
      × ((a : Assignment) (M : Meaning)
          → holds_all a (clauses s') ≡ true
          → IsModel imps M
          → LeavesTrue T imps var' M a
          → value M is ≡ true
          → holds a v ≡ true)
      × ((M : Meaning)
          → IsModel imps M
          → (a : Assignment) → Consistent T imps s var M a
          → (value M is ≡ true → holds a v ≡ true)
          → (b : Assignment) × Agree (vars s) a b × Consistent T imps s' var' M b)

  -- The clauses of one variable: they force it exactly where its impliquants do.
  pub emit_lem :
      (rec : Rec T imps) (n : ℕ)
      → Calls rec n
      → (is : List (List ℕ)) (s : State) (var : Vars) (v : ℤ) → All (All (λ j. j < n)) is
      → abs v ≤ vars s
      → Inv T imps s var n
      → Emits rec n s var v is
  unfolding emit
  emit_lem rec n calls [] s var v b h inv = (
    s,
    var,
    refl,
    inv,
    Extends-refl T imps n s var,
    λ a M sat m l t. cc,
    λ M m a c f. (a, λ k _. refl, c),
  )
  emit_lem rec n calls (js ∷ is) s var v b h inv =
      let (s1, var1, c, e1, v1, g1, x1, c1) = inputs_lem rec n calls js s var b.0 inv in
      let wc =
        Within-append (vars s1) c v (Negated-Within s1 var1 n v1 js c g1)
          (omega (arith, x1.grows)) in
      let s2 = add_clause s1 (c ++ v ∷ []) in
      let v2 = add_clause-Inv s1 var1 n (c ++ v ∷ []) wc v1 in
      let x2 = add_clause-Extends s1 var1 n (c ++ v ∷ []) wc in
      let (s3, var3, e3, v3, x3, f3, c3) =
        emit_lem rec n calls is s2 var1 v b.1 (omega (arith, x1.grows, x2.grows)) v2 in
      (
        s3,
        var3,
        rw (e1, ◌>>=◌) e3,
        v3,
        Extends-trans T imps n s var s1 var1 s3 var3 x1
            (Extends-trans T imps n s1 var1 s2 var1 s3 var3 x2 x3),
        λ a M sat m l t. elim (Bool-cases (all M js)) [
          | inl here ↦
              let back = LeavesTrue-back T imps var1 var3 M a x3.keeps l in
              let sat2 = rw (clauses-add_clause s1 (c ++ v ∷ [])) at (x3.entails a sat) in
              clause_forces a M var1 v js c g1 (λ j w e. (v1.bounded j w e).0)
                (All-Justified s1 var1 n a M v1 (and_right _ _ sat2) m back js b.0)
                (and_left _ _ sat2) here
          | inr there ↦ f3 a M sat m l (rw there at t)
        ],
        λ M m a k f.
            let (a1, ag1, k1) = c1 M m a k in
            let same = holds-Agree (vars s) a a1 v ag1 h in
            let k2 : Consistent T imps s2 var1 M a1 = record {
              sat = rw (clauses-add_clause s1 (c ++ v ∷ [])) (
                  rw
                    (clause_holds a1 M var1 v js c g1 (λ j w e. (v1.bounded j w e).0) k1.means
                      (λ q. same ∙ f (rw q)))
                    k1.sat);
              means = k1.means;
            } in
            let (a3, ag3, k3) = c3 M m a1 k2 (λ q. same ∙ f (ground arith)) in
            (
              a3,
              Agree-trans {a = a} {b = a1} {c = a3} (omega (arith, x1.grows, x2.grows)) ag1 ag3,
              k3,
            ),
      )
