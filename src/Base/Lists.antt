-- ===== src/Base/Lists.antt =====
-- Lists over the native numbers, as the code uses `Vec`.
use Prim.Native.Nat.{ℕ, zero, suc, ◌+◌, ◌-◌, ◌≤◌}
use mathlib.Core.Path.{◌≡◌, refl, ap}
use mathlib.Core.Bool.{Bool, true, false, ◌&&◌, ◌||◌}
use mathlib.Core.Option.{Option, none, some}
use mathlib.Core.List.{List, [], ◌∷◌, ◌++◌}
use native.Mathlib.Omega.{arith}
use scaphandre.Base.Tests.{if◌then◌else◌}

module _ {ℓ} {A : Type ℓ} where
  abbrev pub length : List A → ℕ
  length [] = 0
  length (x ∷ xs) = suc (length xs)

  abbrev pub get_elem? : List A → ℕ → Option A
  get_elem? [] i = none
  get_elem? (x ∷ xs) zero = some x
  get_elem? (x ∷ xs) (suc i) = get_elem? xs i

  -- A write out of bounds changes nothing.
  abbrev pub set : List A → ℕ → A → List A
  set [] i v = []
  set (x ∷ xs) zero v = v ∷ xs
  set (x ∷ xs) (suc i) v = x ∷ set xs i v

  abbrev pub drop : ℕ → List A → List A
  drop zero xs = xs
  drop (suc n) [] = []
  drop (suc n) (x ∷ xs) = drop n xs

  abbrev pub take : ℕ → List A → List A
  take zero xs = []
  take (suc n) [] = []
  take (suc n) (x ∷ xs) = x ∷ take n xs

  abbrev pub replicate : ℕ → A → List A
  replicate zero x = []
  replicate (suc n) x = x ∷ replicate n x

  -- `iter().any(p)`
  abbrev pub any : (A → Bool) → List A → Bool
  any p [] = false
  any p (x ∷ xs) = p x || any p xs

  -- `iter().all(p)`
  abbrev pub all : (A → Bool) → List A → Bool
  all p [] = true
  all p (x ∷ xs) = p x && all p xs

  -- `iter().find(p)`
  abbrev pub find : (A → Bool) → List A → Option A
  find p [] = none
  find p (x ∷ xs) = if p x then some x else find p xs

  -- `last()`
  abbrev pub last : List A → Option A
  last [] = none
  last (x ∷ []) = some x
  last (x ∷ y ∷ xs) = last (y ∷ xs)

  -- `get(len - 2)`, for a vector of at least two elements
  abbrev pub before_last : List A → Option A
  before_last [] = none
  before_last (x ∷ []) = none
  before_last (x ∷ y ∷ []) = some x
  before_last (x ∷ y ∷ z ∷ xs) = before_last (y ∷ z ∷ xs)

  -- `pop()`, without the popped element
  abbrev pub pop : List A → List A
  pop [] = []
  pop (x ∷ []) = []
  pop (x ∷ y ∷ xs) = x ∷ pop (y ∷ xs)

  pub length-append : (xs ys : List A) → length (xs ++ ys) ≡ length xs + length ys
  length-append [] ys = omega arith
  length-append (x ∷ xs) ys = omega (arith, length-append xs ys)

  pub length-drop : (n : ℕ) (xs : List A) → length (drop n xs) ≡ length xs - n
  length-drop zero xs = omega arith
  length-drop (suc n) [] = omega arith
  length-drop (suc n) (x ∷ xs) = omega (arith, length-drop n xs)

  pub last-append : (xs : List A) (x : A) → last (xs ++ x ∷ []) ≡ some x
  last-append [] x = refl
  last-append (y ∷ []) x = refl
  last-append (y ∷ z ∷ xs) x = last-append (z ∷ xs) x

  pub length-pop : (xs : List A) → length (pop xs) ≡ length xs - 1
  length-pop [] = omega arith
  length-pop (x ∷ []) = omega arith
  length-pop (x ∷ y ∷ xs) = omega (arith, length-pop (y ∷ xs))

  pub drop-nil : (n : ℕ) → drop n [] ≡ []
  drop-nil zero = refl
  drop-nil (suc n) = refl

  pub take-append-drop : (n : ℕ) (xs : List A) → take n xs ++ drop n xs ≡ xs
  take-append-drop zero xs = refl
  take-append-drop (suc n) [] = refl
  take-append-drop (suc n) (x ∷ xs) = ap (λ ys. x ∷ ys) (take-append-drop n xs)

  -- The last elements of a long enough right part.
  pub last-append_right : (xs ys : List A) → 1 ≤ length ys → last (xs ++ ys) ≡ last ys
  last-append_right [] ys h = refl
  last-append_right (x ∷ []) [] h = elim h [ ]
  last-append_right (x ∷ []) (y ∷ ys) h = refl
  last-append_right (x ∷ z ∷ xs) ys h = last-append_right (z ∷ xs) ys h

  pub before_last-append_right :
      (xs ys : List A) → 2 ≤ length ys → before_last (xs ++ ys) ≡ before_last ys
  before_last-append_right [] ys h = refl
  before_last-append_right (x ∷ []) [] h = elim h [ ]
  before_last-append_right (x ∷ []) (y ∷ []) h = absurd (omega arith)
  before_last-append_right (x ∷ []) (y ∷ z ∷ ys) h = refl
  before_last-append_right (x ∷ w ∷ []) [] h = elim h [ ]
  before_last-append_right (x ∷ w ∷ []) (y ∷ ys) h = before_last-append_right (w ∷ []) (y ∷ ys) h
  before_last-append_right (x ∷ w ∷ v ∷ xs) ys h = before_last-append_right (w ∷ v ∷ xs) ys h

  pub before_last-push : (xs : List A) (x : A) → before_last (xs ++ x ∷ []) ≡ last xs
  before_last-push [] x = refl
  before_last-push (y ∷ []) x = refl
  before_last-push (y ∷ z ∷ []) x = refl
  before_last-push (y ∷ z ∷ w ∷ xs) x = before_last-push (z ∷ w ∷ xs) x
