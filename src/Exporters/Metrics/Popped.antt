-- ===== src/Exporters/Metrics/Popped.antt =====
-- The rounds of `pop_metrics` are enough to pop all metrics.
use scaphandre.Base.{
  ℕ, zero, suc, ◌-◌, ◌≡◌, refl, sym, ap, ◌∙◌, some, List, [], ◌∷◌, ◌++◌, arith, length, last, pop,
  length-pop,
}
use scaphandre.Exporters.Metrics.{Metric, pop_each}

abbrev pub reversed {ℓ} : {A : Type ℓ} → List A → List A
reversed [] = []
reversed (x ∷ xs) = reversed xs ++ x ∷ []

pub append_assoc {ℓ} : {A : Type ℓ} (xs ys zs : List A) → (xs ++ ys) ++ zs ≡ xs ++ (ys ++ zs)
append_assoc [] ys zs = refl
append_assoc (x ∷ xs) ys zs = ap (λ l. x ∷ l) (append_assoc xs ys zs)

pub append_nil {ℓ} : {A : Type ℓ} (xs : List A) → xs ++ [] ≡ xs
append_nil [] = refl
append_nil (x ∷ xs) = ap (λ l. x ∷ l) (append_nil xs)

-- The last element is the first of the reversed list, and the rest is what the others give.
reversed-pop {ℓ} :
    {A : Type ℓ} (x : A) (xs : List A)
    → (m : A) × (last (x ∷ xs) ≡ some m) × (reversed (x ∷ xs) ≡ m ∷ reversed (pop (x ∷ xs)))
reversed-pop x [] = (x, refl, refl)
reversed-pop x (y ∷ ys) =
    let rest = reversed-pop y ys in (rest.0, rest.1, ap (λ l. l ++ x ∷ []) rest.2)

less_one : (m n : ℕ) → m ≡ suc n → m - 1 ≡ n
less_one m n e = omega arith

-- As many rounds as there are metrics leave none.
pop_each-reversed :
    (n : ℕ) (metrics res : List Metric)
    → length metrics ≡ n
    → pop_each n metrics res ≡ (res ++ reversed metrics, [])
unfolding pop_each
pop_each-reversed zero [] res e = ap (λ l. (l, [])) (sym (append_nil res))
pop_each-reversed zero (x ∷ xs) res e = ground arith
pop_each-reversed (suc n) [] res e = ground arith
pop_each-reversed (suc n) (x ∷ xs) res e =
    let l = reversed-pop x xs in
    rw (pop_each, l.1)
      (pop_each-reversed n (pop (x ∷ xs)) (res ++ l.0 ∷ []) (length-pop (x ∷ xs) ∙ less_one _ n e)
        ∙ ap (λ k. (k, []))
            (append_assoc res (l.0 ∷ []) (reversed (pop (x ∷ xs))) ∙ ap (λ k. res ++ k) (sym l.2)))
