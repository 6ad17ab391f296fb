-- ===== src/MaxSat/Minimize/Removal.antt =====
-- Taking literals out of a clause: which ones stay.
use eval_max_sat.Common.{
  All-In, ℕ, zero, suc, ◌-◌, ◌<◌, ◌≡◌, ◌≢◌, refl, sym, ap, ◌∙◌, subst, List, [], ◌∷◌, if◌then◌else◌,
  Bool, true, false, length, get_or, set, In, All, arith, length-set, ◌⊎◌, inl, inr, Bool-cases,
}
use eval_max_sat.Common.Int.{abs, ℤ, pos, eqb_ℤ, eqb_ℤ_iff}
use eval_max_sat.Common.Assign.{Clause}
use eval_max_sat.MaxSat.Oracle.{IsDistinct, IsCore, without}
use eval_max_sat.MaxSat.Clique.{back, pop_back, swap_remove}
use eval_max_sat.MaxSat.Minimize.{sort, sort_insert}

-- The literals of the first clause are in the second.
abbrev pub Within : Clause → Clause → Type 0
Within c d = (l : ℤ) → In l c → In l d

pub IsCore-Within : (cs : List Clause) (c d : Clause) → Within c d → IsCore cs c → IsCore cs d
IsCore-Within cs c d w k a h = let (l, i, f) = k a h in (l, w l i, f)

pub In-without : (e l : ℤ) (c : Clause) → In l (without e c) → In l c × (l ≢ e)
unfolding without
In-without e l [] h = absurd h
In-without e l (k ∷ c) h = by_test (eqb_ℤ k e) refl (λ i. In-without e l c i) h
  where
    by_test :
        (b : Bool)
        → eqb_ℤ k e ≡ b
        → (In l (without e c) → In l c × (l ≢ e))
        → In l (if b then without e c else k ∷ without e c)
        → In l (k ∷ c) × (l ≢ e)
    by_test true y ih h = let (i, ne) = ih h in (inr i, ne)
    by_test false z ih (inl q) = (inl q, λ r. cc (z, (eqb_ℤ_iff k e).1 (sym q ∙ r)))
    by_test false z ih (inr h) = let (i, ne) = ih h in (inr i, ne)

pub In-pop_back : (l : ℤ) (c : Clause) → In l c → (In l (pop_back c)) ⊎ (l ≡ back c)
In-pop_back l [] h = absurd h
In-pop_back l (k ∷ []) (inl e) = inr e
In-pop_back l (k ∷ []) (inr h) = absurd h
In-pop_back l (k ∷ m ∷ c) (inl e) = inl (inl e)
In-pop_back l (k ∷ m ∷ c) (inr h) = elim (In-pop_back l (m ∷ c) h) [
  | inl i ↦ inl (inr i)
  | inr e ↦ inr e
]

pub pop_back-Within : (c : Clause) → Within (pop_back c) c
pop_back-Within [] l h = h
pop_back-Within (k ∷ []) l h = absurd h
pop_back-Within (k ∷ m ∷ c) l (inl e) = inl e
pop_back-Within (k ∷ m ∷ c) l (inr h) = inr (pop_back-Within (m ∷ c) l h)

pub back-In : (k : ℤ) (c : Clause) → In (back (k ∷ c)) (k ∷ c)
back-In k [] = inl refl
back-In k (m ∷ c) = inr (back-In m c)

back-set : (c : Clause) (i : ℕ) → back (set c i (back c)) ≡ back c
back-set [] i = refl
back-set (k ∷ []) zero = refl
back-set (k ∷ []) (suc i) = refl
back-set (k ∷ m ∷ c) zero = refl
back-set (k ∷ m ∷ c) (suc i) = back-set_cons k m c i
  where
    back-set_cons :
        (k m : ℤ) (c : Clause) (i : ℕ) → back (k ∷ set (m ∷ c) i (back (m ∷ c))) ≡ back (m ∷ c)
    back-set_cons k m [] zero = refl
    back-set_cons k m [] (suc i) = refl
    back-set_cons k m (n ∷ c) zero = refl
    back-set_cons k m (n ∷ c) (suc i) = back-set_cons m n c i

In-set : (l v : ℤ) (c : Clause) (i : ℕ) → In l c → (In l (set c i v)) ⊎ (l ≡ get_or c i (pos 0))
In-set l v [] i h = absurd h
In-set l v (k ∷ c) zero (inl e) = inr e
In-set l v (k ∷ c) zero (inr h) = inl (inr h)
In-set l v (k ∷ c) (suc i) (inl e) = inl (inl e)
In-set l v (k ∷ c) (suc i) (inr h) = elim (In-set l v c i h) [ inl j ↦ inl (inr j) | inr e ↦ inr e ]

set-Within : (v : ℤ) (c : Clause) (i : ℕ) (l : ℤ) → In l (set c i v) → (In l c) ⊎ (l ≡ v)
set-Within v [] i l h = absurd h
set-Within v (k ∷ c) zero l (inl e) = inr e
set-Within v (k ∷ c) zero l (inr h) = inl (inr h)
set-Within v (k ∷ c) (suc i) l (inl e) = inl (inl e)
set-Within v (k ∷ c) (suc i) l (inr h) = elim (set-Within v c i l h) [
  | inl j ↦ inl (inr j)
  | inr e ↦ inr e
]

set_self-In : (v : ℤ) (c : Clause) (i : ℕ) → suc i < length c → In v (pop_back (set c i v))
set_self-In v [] i h = elim h [ ]
set_self-In v (k ∷ []) i h = absurd (omega arith)
set_self-In v (k ∷ m ∷ c) zero h = inl refl
set_self-In v (k ∷ m ∷ []) (suc i) h = absurd (omega arith)
set_self-In v (k ∷ m ∷ n ∷ c) (suc zero) h = inr (inl refl)
set_self-In v (k ∷ m ∷ n ∷ c) (suc (suc i)) h =
    inr (set_self-In v (m ∷ n ∷ c) (suc i) (omega arith))

pub In-swap_remove :
    (l : ℤ) (c : Clause) (i : ℕ)
    → suc i < length c
    → In l c
    → l ≢ get_or c i (pos 0)
    → In l (swap_remove c i)
In-swap_remove l c i b h ne = elim (In-set l (back c) c i h) [
  | inl j ↦ elim (In-pop_back l (set c i (back c)) j) [
    | inl k ↦ k
    | inr e ↦
        subst (λ x. In x (swap_remove c i)) (sym (e ∙ back-set c i)) (set_self-In (back c) c i b)
  ]
  | inr e ↦ absurd (ne e)
]

pub swap_remove-Within : (c : Clause) (i : ℕ) → i < length c → Within (swap_remove c i) c
swap_remove-Within [] i b l h = elim b [ ]
swap_remove-Within (k ∷ c) i b l h =
    elim (set-Within (back (k ∷ c)) (k ∷ c) i l
      (pop_back-Within (set (k ∷ c) i (back (k ∷ c))) l h)) [
        | inl j ↦ j
        | inr e ↦ subst (λ x. In x (k ∷ c)) (sym e) (back-In k c)
      ]

In-sort_insert :
    (before : ℤ → ℤ → Bool) (k : ℤ) (c : Clause) (l : ℤ)
    → (In l (k ∷ c) → In l (sort_insert before k c))
      × (In l (sort_insert before k c) → In l (k ∷ c))
unfolding sort_insert
In-sort_insert before k [] l = (λ h. h, λ h. h)
In-sort_insert before k (m ∷ c) l = elim (Bool-cases (before m k)) [
  | inl y ↦ rw y (swap_in (In-sort_insert before k c l).0, swap_out (In-sort_insert before k c l).1)
  | inr z ↦ rw z (λ h. h, λ h. h)
]
  where
    swap_in :
        (In l (k ∷ c) → In l (sort_insert before k c))
        → In l (k ∷ m ∷ c)
        → In l (m ∷ sort_insert before k c)
    swap_in ih (inl e) = inr (ih (inl e))
    swap_in ih (inr (inl e)) = inl e
    swap_in ih (inr (inr h)) = inr (ih (inr h))

    after : In l (k ∷ c) → In l (k ∷ m ∷ c)
    after (inl e) = inl e
    after (inr h) = inr (inr h)

    swap_out :
        (In l (sort_insert before k c) → In l (k ∷ c))
        → In l (m ∷ sort_insert before k c)
        → In l (k ∷ m ∷ c)
    swap_out ih (inl e) = inr (inl e)
    swap_out ih (inr h) = after (ih h)

pub In-sort :
    (before : ℤ → ℤ → Bool) (c : Clause) (l : ℤ)
    → (In l c → In l (sort before c)) × (In l (sort before c) → In l c)
unfolding sort
In-sort before [] l = (λ h. h, λ h. h)
In-sort before (k ∷ c) l = (
  λ h. (In-sort_insert before k (sort before c) l).0 (into h (In-sort before c l).0),
  λ h. out ((In-sort_insert before k (sort before c) l).1 h) (In-sort before c l).1,
)
  where
    into : In l (k ∷ c) → (In l c → In l (sort before c)) → In l (k ∷ sort before c)
    into (inl e) ih = inl e
    into (inr h) ih = inr (ih h)

    out : In l (k ∷ sort before c) → (In l (sort before c) → In l c) → In l (k ∷ c)
    out (inl e) ih = inl e
    out (inr h) ih = inr (ih h)

pub length-pop_back : (k : ℤ) (c : Clause) → length (pop_back (k ∷ c)) ≡ length c
length-pop_back k [] = refl
length-pop_back k (m ∷ c) = ap suc (length-pop_back m c)

pub length-swap_remove : (c : Clause) (i : ℕ) → suc (length (swap_remove c i)) ≡ suc (length c - 1)
length-swap_remove [] i = refl
length-swap_remove (k ∷ c) zero = ap suc (length-pop_back (back (k ∷ c)) c ∙ omega arith)
length-swap_remove (k ∷ c) (suc i) =
    ap suc
      (length-pop_back k (set c i (back (k ∷ c))) ∙ omega (arith, length-set c i (back (k ∷ c))))

-- Nothing but literals of the second clause, and no variable twice if it has none twice.
abbrev pub IsPart : Clause → Clause → Type 0
IsPart c d = Within c d × (IsDistinct d → IsDistinct c)

pub IsPart-refl : (c : Clause) → IsPart c c
IsPart-refl c = (λ l h. h, λ d. d)

pub IsPart-trans : (c d e : Clause) → IsPart c d → IsPart d e → IsPart c e
IsPart-trans c d e (w, p) (v, q) = (λ l h. v l (w l h), λ x. p (q x))

pub All-Within : (P : ℤ → Type 0) (c d : Clause) → Within c d → All P d → All P c
All-Within P [] d w h = tt
All-Within P (k ∷ c) d w h =
    (All-In P d k h (w k (inl refl)), All-Within P c d (λ l i. w l (inr i)) h)

pub pop_back-IsPart : (c : Clause) → IsPart (pop_back c) c
pop_back-IsPart c = (pop_back-Within c, distinct c)
  where
    distinct : (c : Clause) → IsDistinct c → IsDistinct (pop_back c)
    distinct [] d = d
    distinct (k ∷ []) d = tt
    distinct (k ∷ m ∷ c) (a, d) = (
      All-Within (λ x. abs k ≢ abs x) (pop_back (m ∷ c)) (m ∷ c) (pop_back-Within (m ∷ c)) a,
      distinct (m ∷ c) d,
    )

-- The last literal's variable is none of the others'.
back-distinct : (c : Clause) → IsDistinct c → All (λ x. abs (back c) ≢ abs x) (pop_back c)
back-distinct [] d = tt
back-distinct (k ∷ []) d = tt
back-distinct (k ∷ m ∷ c) (a, d) = (
  λ e. All-In (λ x. abs k ≢ abs x) (m ∷ c) (back (m ∷ c)) a (back-In m c) (sym e),
  back-distinct (m ∷ c) d,
)

pub swap_remove-IsPart : (c : Clause) (i : ℕ) → i < length c → IsPart (swap_remove c i) c
swap_remove-IsPart c i b = (swap_remove-Within c i b, distinct c i b)
  where
    distinct : (c : Clause) (i : ℕ) → i < length c → IsDistinct c → IsDistinct (swap_remove c i)
    distinct [] i b d = d
    distinct (k ∷ []) zero b d = tt
    distinct (k ∷ []) (suc i) b d = tt
    distinct (k ∷ m ∷ c) zero b (a, d) = (back-distinct (m ∷ c) d, (pop_back-IsPart (m ∷ c)).1 d)
    distinct (k ∷ m ∷ c) (suc zero) b (a, d) = (
      All-Within (λ x. abs k ≢ abs x) (swap_remove (m ∷ c) 0) (m ∷ c)
          (swap_remove-Within (m ∷ c) 0 (omega arith)) a,
      distinct (m ∷ c) 0 (omega arith) d,
    )
    distinct (k ∷ m ∷ c) (suc (suc i)) b (a, d) = (
      All-Within (λ x. abs k ≢ abs x) (swap_remove (m ∷ c) (suc i)) (m ∷ c)
          (swap_remove-Within (m ∷ c) (suc i) (omega arith)) a,
      distinct (m ∷ c) (suc i) (omega arith) d,
    )

sort_insert-IsDistinct :
    (before : ℤ → ℤ → Bool) (k : ℤ) (c : Clause)
    → IsDistinct (k ∷ c)
    → IsDistinct (sort_insert before k c)
unfolding sort_insert
sort_insert-IsDistinct before k [] d = d
sort_insert-IsDistinct before k (m ∷ c) (a, (e, d)) = elim (Bool-cases (before m k)) [
  | inl y ↦ rw y (
    All-Within (λ x. abs m ≢ abs x) (sort_insert before k c) (k ∷ c)
        (λ l. (In-sort_insert before k c l).1) (λ q. a.0 (sym q), e),
    sort_insert-IsDistinct before k c (a.1, d),
  )
  | inr z ↦ rw z (a, (e, d))
]

sort-IsDistinct : (before : ℤ → ℤ → Bool) (c : Clause) → IsDistinct c → IsDistinct (sort before c)
unfolding sort
sort-IsDistinct before [] d = d
sort-IsDistinct before (k ∷ c) (a, d) = sort_insert-IsDistinct before k (sort before c) (
  All-Within (λ x. abs k ≢ abs x) (sort before c) c (λ l. (In-sort before c l).1) a,
  sort-IsDistinct before c d,
)

pub sort-IsPart : (before : ℤ → ℤ → Bool) (c : Clause) → IsPart (sort before c) c
sort-IsPart before c = (λ l. (In-sort before c l).1, sort-IsDistinct before c)
