-- ===== src/Lazy/Model.antt =====
-- The meaning that given truth values of the literals extend to, on an acyclic heap.
use eval_max_sat.Common.{
  ℕ, zero, suc, ◌<◌, ◌≡◌, ◌≢◌, refl, ◌∙◌, List, [], ◌∷◌, Bool, false, All, all, arith,
}
use eval_max_sat.Lazy.{Impliquants}
use eval_max_sat.Lazy.Invariant.{Meaning, value, IsModel, IsAcyclic}

module _ (imps : Impliquants) (literal : ℕ → Bool) where
  ev_list : List (List ℕ) → (ℕ → Bool) → ℕ → Bool
  ev_list [] below i = literal i
  ev_list (js ∷ is) below i = value below (js ∷ is)

  ev : ℕ → ℕ → Bool
  unfolding ev_list
  ev zero i = false
  ev (suc f) i = ev_list (imps i) (ev f) i

  pub model : Meaning
  unfolding ev
  model i = ev (suc i) i

module _ (f g : ℕ → Bool) (n : ℕ) (same : (j : ℕ) → j < n → f j ≡ g j) where
  all_same : (js : List ℕ) → All (λ j. j < n) js → all f js ≡ all g js
  all_same [] b = refl
  all_same (j ∷ js) b = rw (same j b.0, all_same js b.1)

  value_same : (is : List (List ℕ)) → All (All (λ j. j < n)) is → value f is ≡ value g is
  value_same [] b = refl
  value_same (js ∷ is) b = rw (all_same js b.0, value_same is b.1)

ev_list_same :
    (imps : Impliquants) (lit lit' : ℕ → Bool) (f g : ℕ → Bool) (i : ℕ) (is : List (List ℕ))
    → ((j : ℕ) → j < i → f j ≡ g j)
    → All (All (λ j. j < i)) is
    → (is ≡ [] → lit i ≡ lit' i)
    → ev_list imps lit is f i ≡ ev_list imps lit' is g i
unfolding ev_list
ev_list_same imps lit lit' f g i [] same b l = l refl
ev_list_same imps lit lit' f g i (js ∷ is) same b l = value_same f g i same (js ∷ is) b

-- Enough fuel is one more than the place, and objects further on have no part in it.
ev_same :
    (imps imps' : Impliquants) (lit lit' : ℕ → Bool) (n : ℕ)
    → IsAcyclic imps
    → ((i : ℕ) → i < n → imps' i ≡ imps i)
    → ((i : ℕ) → i < n → imps i ≡ [] → lit i ≡ lit' i)
    → (f g i : ℕ) → i < n
    → i < f
    → i < g
    → ev imps lit f i ≡ ev imps' lit' g i
unfolding ev
ev_same imps imps' lit lit' n ac ei el zero g i ln lf lg = absurd (omega arith)
ev_same imps imps' lit lit' n ac ei el (suc f) zero i ln lf lg = absurd (omega arith)
ev_same imps imps' lit lit' n ac ei el (suc f) (suc g) i ln lf lg = rw (ei i ln) (
    ev_list_same imps lit lit' (ev imps lit f) (ev imps' lit' g) i (imps i)
      (λ j l.
        ev_same imps imps' lit lit' n ac ei el f g j (omega arith) (omega arith) (omega arith))
      (ac i) (el i ln))

-- The meaning of an object depends on the older objects alone.
pub model_same :
    (imps imps' : Impliquants) (lit lit' : ℕ → Bool) (n : ℕ)
    → IsAcyclic imps
    → ((i : ℕ) → i < n → imps' i ≡ imps i)
    → ((i : ℕ) → i < n → imps i ≡ [] → lit i ≡ lit' i)
    → (i : ℕ) → i < n
    → model imps lit i ≡ model imps' lit' i
unfolding model
model_same imps imps' lit lit' n ac ei el i l =
    ev_same imps imps' lit lit' n ac ei el (suc i) (suc i) i l (omega arith) (omega arith)

module _ (imps : Impliquants) (literal : ℕ → Bool) where
  pub model_leaf : (i : ℕ) → imps i ≡ [] → model imps literal i ≡ literal i
  unfolding model ev_list
  model_leaf i e = rw e

  pub model-IsModel : IsAcyclic imps → IsModel imps (model imps literal)
  unfolding model
  model-IsModel ac i ne =
      open_list (imps i) ne
      ∙ value_same (ev imps literal i) (model imps literal) i
          (λ j l.
            ev_same imps imps literal literal (suc i) ac (λ k _. refl) (λ k _ _. refl) i (suc j) j
              (omega arith) l (omega arith))
          (imps i) (ac i)
    where
      open_list :
          (is : List (List ℕ))
          → is ≢ []
          → ev_list imps literal is (ev imps literal i) i ≡ value (ev imps literal i) is
      open_list [] n = absurd (n refl)
      open_list (js ∷ is) n = refl
