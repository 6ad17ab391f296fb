-- ===== src/Lazy/Invariant.antt =====
-- What holds of the lazy variables and the clauses between calls of `get`, and how a call may change
-- them. A meaning `M` gives each object a truth value; it is a model where an object that has
-- impliquants is true exactly if all of one impliquant is.
use eval_max_sat.Common.{
  ℕ, suc, ◌≤◌, ◌<◌, ◌≡◌, ◌≢◌, refl, sym, ◌∙◌, List, [], ◌∷◌, some, All, all, any, arith, Bool, true,
  ◌⊎◌, inl, inr,
}
use eval_max_sat.Common.Int.{ℤ, pos, negsuc, abs}
use eval_max_sat.Common.Assign.{Clause, Assignment, holds, holds_clause, holds_all}
use eval_max_sat.Lazy.{ClauseSink, Vars, Impliquants}

abbrev pub Meaning : Type 0
Meaning = ℕ → Bool

abbrev pub value : Meaning → List (List ℕ) → Bool
value M is = any (all M) is

abbrev pub IsModel : Impliquants → Meaning → Type 0
IsModel imps M = (i : ℕ) → imps i ≢ [] → M i ≡ value M (imps i)

-- An object refers to older objects only.
abbrev pub IsAcyclic : Impliquants → Type 0
IsAcyclic imps = (i : ℕ) → All (All (λ j. j < i)) (imps i)

-- The two assignments give the variables up to `n` the same values.
abbrev pub Agree : ℕ → Assignment → Assignment → Type 0
Agree n a b = (k : ℕ) → k ≤ n → b k ≡ a k

abbrev pub Within : ℕ → Clause → Type 0
Within n c = All (λ l. abs l ≤ n) c

pub Agree-trans : {m n : ℕ} {a b c : Assignment} → m ≤ n → Agree m a b → Agree n b c → Agree m a c
Agree-trans le f g k h = g k (omega arith) ∙ f k h

pub holds-Agree :
    (n : ℕ) (a b : Assignment) (l : ℤ) → Agree n a b → abs l ≤ n → holds b l ≡ holds a l
holds-Agree n a b (pos k) f h = f k h
holds-Agree n a b (negsuc k) f h = rw (f (suc k) h)

pub holds_clause-Agree :
    (n : ℕ) (a b : Assignment) (c : Clause)
    → Agree n a b
    → Within n c
    → holds_clause b c ≡ holds_clause a c
holds_clause-Agree n a b [] f w = refl
holds_clause-Agree n a b (l ∷ c) f w =
    rw (holds-Agree n a b l f w.0, holds_clause-Agree n a b c f w.1)

pub holds_all-Agree :
    (n : ℕ) (a b : Assignment) (cs : List Clause)
    → Agree n a b
    → All (Within n) cs
    → holds_all b cs ≡ holds_all a cs
holds_all-Agree n a b [] f w = refl
holds_all-Agree n a b (c ∷ cs) f w =
    rw (holds_clause-Agree n a b c f w.0, holds_all-Agree n a b cs f w.1)

pub Within-mono : (m n : ℕ) (c : Clause) → m ≤ n → Within m c → Within n c
Within-mono m n [] h w = tt
Within-mono m n (l ∷ c) h w = (omega (arith, w.0), Within-mono m n c h w.1)

pub All-Within-mono : (m n : ℕ) (cs : List Clause) → m ≤ n → All (Within m) cs → All (Within n) cs
All-Within-mono m n [] h w = tt
All-Within-mono m n (c ∷ cs) h w = (Within-mono m n c h w.0, All-Within-mono m n cs h w.1)

-- What a caller does to the solver: it makes variables, and adds clauses over those in use.
pub data Steps (T : ClauseSink) (s : T.State) : T.State → Type 0 where
  none_yet : Steps T s s
  then_var : {t : T.State} → Steps T s t → Steps T s (T.new_var t).0
  then_clause :
      {t : T.State} (c : Clause) → Within (T.vars t) c → Steps T s t → Steps T s (T.add_clause t c)

pub Steps-trans : (T : ClauseSink) {s t u : T.State} → Steps T s t → Steps T t u → Steps T s u
Steps-trans T r none_yet = r
Steps-trans T r (then_var q) = then_var (Steps-trans T r q)
Steps-trans T r (then_clause c w q) = then_clause c w (Steps-trans T r q)

module _ (T : ClauseSink) (imps : Impliquants) where
  open T use {State, vars, clauses}

  -- The assignment makes every leaf true that the meaning makes true.
  abbrev pub LeavesTrue : Vars → Meaning → Assignment → Type 0
  LeavesTrue var M a =
      (i : ℕ) (w : ℤ) → imps i ≡ [] → var i ≡ some w → M i ≡ true → holds a w ≡ true

  -- The clauses force the literal to be true where the object is.
  abbrev pub Justified : State → Vars → ℕ → ℤ → Type 0
  Justified s var i w =
      (a : Assignment) (M : Meaning)
      → holds_all a (clauses s) ≡ true
      → IsModel imps M
      → LeavesTrue var M a
      → M i ≡ true
      → holds a w ≡ true

  pub record Inv (s : State) (var : Vars) (n : ℕ) : Type 0 where
    pub leaf : (i : ℕ) → i < n → imps i ≡ [] → (w : ℤ) × (var i ≡ some w)
    pub bounded : (i : ℕ) (w : ℤ) → var i ≡ some w → (0 < abs w) × (abs w ≤ vars s)
    pub within : All (Within (vars s)) (clauses s)
    pub justified : (i : ℕ) (w : ℤ) → i < n → var i ≡ some w → Justified s var i w

  -- The literals made so far have the values that the meaning gives their objects.
  pub record Consistent (s : State) (var : Vars) (M : Meaning) (a : Assignment) : Type 0 where
    pub sat : holds_all a (clauses s) ≡ true
    pub means : (i : ℕ) (w : ℤ) → var i ≡ some w → holds a w ≡ M i

  abbrev pub Conserves : State → Vars → State → Vars → Meaning → Assignment → Type 0
  Conserves s var s' var' M a =
      Consistent s var M a → (b : Assignment) × Agree (vars s) a b × Consistent s' var' M b

  pub record Extends (n : ℕ) (s : State) (var : Vars) (s' : State) (var' : Vars) : Type 0 where
    pub steps : Steps T s s'
    pub grows : vars s ≤ vars s'
    pub entails :
        (a : Assignment) → holds_all a (clauses s') ≡ true → holds_all a (clauses s) ≡ true
    pub keeps : (i : ℕ) (w : ℤ) → var i ≡ some w → var' i ≡ some w
    pub frame : (i : ℕ) → n ≤ i → var' i ≡ var i

  abbrev pub Conservative : State → Vars → State → Vars → Type 0
  Conservative s var s' var' =
      (M : Meaning) → IsModel imps M → (a : Assignment) → Conserves s var s' var' M a

  pub Extends-refl : (n : ℕ) (s : State) (var : Vars) → Extends n s var s var
  Extends-refl n s var = record {
    steps = none_yet;
    grows = omega arith;
    entails = λ a h. h;
    keeps = λ i w h. h;
    frame = λ i h. refl;
  }

  pub Extends-trans :
      (n : ℕ) (s : State) (var : Vars) (s1 : State) (var1 : Vars) (s2 : State) (var2 : Vars)
      → Extends n s var s1 var1
      → Extends n s1 var1 s2 var2
      → Extends n s var s2 var2
  Extends-trans n s var s1 var1 s2 var2 e f = record {
    steps = Steps-trans T e.steps f.steps;
    grows = omega (arith, e.grows, f.grows);
    entails = λ a h. e.entails a (f.entails a h);
    keeps = λ i w h. f.keeps i w (e.keeps i w h);
    frame = λ i h. f.frame i h ∙ e.frame i h;
  }

  pub Extends-weaken :
      (m n : ℕ) (s : State) (var : Vars) (s' : State) (var' : Vars)
      → m ≤ n
      → Extends m s var s' var'
      → Extends n s var s' var'
  Extends-weaken m n s var s' var' le e = record {
    steps = e.steps;
    grows = e.grows;
    entails = e.entails;
    keeps = e.keeps;
    frame = λ i h. e.frame i (omega arith);
  }

  pub Conserves-trans :
      (s : State) (var : Vars) (s1 : State) (var1 : Vars) (s2 : State) (var2 : Vars)
      → vars s ≤ vars s1
      → Conservative s var s1 var1
      → Conservative s1 var1 s2 var2
      → Conservative s var s2 var2
  Conserves-trans s var s1 var1 s2 var2 le f g M m a c =
      let (b, ab, cb) = f M m a c in
      let (d, bd, cd) = g M m b cb in (d, Agree-trans {a = a} {b = b} {c = d} le ab bd, cd)

  pub LeavesTrue-back :
      (var var' : Vars) (M : Meaning) (a : Assignment)
      → ((i : ℕ) (w : ℤ) → var i ≡ some w → var' i ≡ some w)
      → LeavesTrue var' M a
      → LeavesTrue var M a
  LeavesTrue-back var var' M a keeps l i w e h m = l i w e (keeps i w h) m

  -- What was justified stays so while the clauses grow.
  pub Justified-mono :
      (n : ℕ) (s : State) (var : Vars) (s' : State) (var' : Vars) (i : ℕ) (w : ℤ)
      → Extends n s var s' var'
      → Justified s var i w
      → Justified s' var' i w
  Justified-mono n s var s' var' i w e j a M sat m l t =
      j a M (e.entails a sat) m (LeavesTrue-back var var' M a e.keeps l) t

  pub Inv-restrict : (m n : ℕ) (s : State) (var : Vars) → m ≤ n → Inv s var n → Inv s var m
  Inv-restrict m n s var le v = record {
    leaf = λ i h e. v.leaf i (omega arith) e;
    bounded = v.bounded;
    within = v.within;
    justified = λ i w h e. v.justified i w (omega arith) e;
  }

  -- The objects at and above the bound are untouched, so the invariant reaches as far as it did.
  pub Inv-lift :
      (m n : ℕ) (s : State) (var : Vars) (s' : State) (var' : Vars)
      → Inv s var n
      → Extends m s var s' var'
      → Inv s' var' m
      → Inv s' var' n
  Inv-lift m n s var s' var' v e v' = record {
    leaf = λ i h z. let (w, q) = v.leaf i h z in (w, e.keeps i w q);
    bounded = v'.bounded;
    within = v'.within;
    justified = λ i w h q. elim (split i) [
      | inl below ↦ v'.justified i w below q
      | inr above ↦
          Justified-mono m s var s' var' i w e (v.justified i w h (sym (e.frame i above) ∙ q))
    ];
  }
    where
      split : (i : ℕ) → (i < m) ⊎ (m ≤ i)
      split i = omega arith
