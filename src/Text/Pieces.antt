-- ===== src/Text/Pieces.antt =====
-- What the pieces of a split string say of the string.
use mathlib.Core.Bool.{true≢false}
use scaphandre.Base.{
  ℕ, ◌≡◌, refl, sym, inl, inr, Bool, true, false, ◌&&◌, ◌||◌, List, [], ◌∷◌, ◌++◌, ◌==◌, eqb_refl,
  eqb→eq, Bool-cases, length, drop, any,
}
use scaphandre.Text.{Text}
use scaphandre.Text.Split.{cons_first, split, starts_with, contains}

and-both : (p q : Bool) → p ≡ true → q ≡ true → (p && q) ≡ true
and-both p q e f = rw (e, f) refl

and-left : (p q : Bool) → (p && q) ≡ true → p ≡ true
and-left true q e = refl
and-left false q e = absurd (true≢false (sym e))

pub and-second : (p q : Bool) → (p && q) ≡ true → q ≡ true
and-second true q e = e
and-second false q e = absurd (true≢false (sym e))

pub or-first : (p q : Bool) → p ≡ true → (p || q) ≡ true
or-first p q e = rw e refl

pub or-second : (p q : Bool) → q ≡ true → (p || q) ≡ true
or-second true q e = refl
or-second false q e = e

pub starts_with-append :
    (a b t : Text)
    → starts_with a t ≡ true
    → starts_with b (drop (length a) t) ≡ true
    → starts_with (a ++ b) t ≡ true
unfolding starts_with
starts_with-append [] b t e f = f
starts_with-append (x ∷ a) b [] e f = absurd (true≢false (sym e))
starts_with-append (x ∷ a) b (c ∷ t) e f =
    and-both (x == c) _ (and-left (x == c) _ e)
      (starts_with-append a b t (and-second (x == c) _ e) f)

starts_with_trans :
    (x p t : Text) → starts_with x p ≡ true → starts_with p t ≡ true → starts_with x t ≡ true
unfolding starts_with
starts_with_trans [] p t e f = refl
starts_with_trans (a ∷ x) [] t e f = absurd (true≢false (sym e))
starts_with_trans (a ∷ x) (b ∷ p) [] e f = absurd (true≢false (sym f))
starts_with_trans (a ∷ x) (b ∷ p) (c ∷ t) e f =
    let same = eqb→eq a b (and-left (a == b) _ e) in
    and-both (a == c) _ (rw same (and-left (b == c) _ f))
      (starts_with_trans x p t (and-second (a == b) _ e) (and-second (b == c) _ f))

starts_with-shorten :
    (a x p t : Text)
    → starts_with x p ≡ true
    → starts_with (a ++ p) t ≡ true
    → starts_with (a ++ x) t ≡ true
unfolding starts_with
starts_with-shorten [] x p t e f = starts_with_trans x p t e f
starts_with-shorten (b ∷ a) x p [] e f = absurd (true≢false (sym f))
starts_with-shorten (b ∷ a) x p (c ∷ t) e f =
    and-both (b == c) _ (and-left (b == c) _ f)
      (starts_with-shorten a x p t e (and-second (b == c) _ f))

pub contains-shorten :
    (a x p t : Text)
    → starts_with x p ≡ true
    → contains (a ++ p) t ≡ true
    → contains (a ++ x) t ≡ true
unfolding contains
contains-shorten a x p [] e f = starts_with-shorten a x p [] e f
contains-shorten a x p (c ∷ t) e f = elim (Bool-cases (starts_with (a ++ p) (c ∷ t))) [
  | inl here ↦ rw (starts_with-shorten a x p (c ∷ t) e here) refl
  | inr later ↦ or-second _ _ (contains-shorten a x p t e (rw later at f))
]

-- The first of several pieces stands in front of a separator, and has none in it.
abbrev pub FirstIs : ℕ → Text → List Text → Type 0
FirstIs sep t [] = Unit
FirstIs sep t (p ∷ []) = Unit
FirstIs sep t (p ∷ q ∷ ps) =
    (starts_with (p ++ sep ∷ []) t ≡ true) × (any (λ c. c == sep) p ≡ false)

FirstIs-cons :
    (sep c : ℕ) (t : Text) (ps : List Text)
    → c == sep ≡ false
    → FirstIs sep t ps
    → FirstIs sep (c ∷ t) (cons_first c ps)
unfolding cons_first starts_with
FirstIs-cons sep c t [] ne h = tt
FirstIs-cons sep c t (p ∷ []) ne h = tt
FirstIs-cons sep c t (p ∷ q ∷ ps) ne h = (and-both (c == c) _ (eqb_refl c) h.0, rw ne h.1)

split-nonempty : (sep : ℕ) (t : Text) → (p : Text) × (ps : List Text) × (split sep t ≡ p ∷ ps)
unfolding split cons_first
split-nonempty sep [] = ([], [], refl)
split-nonempty sep (c ∷ t) =
    let rest = split-nonempty sep t in
    elim (Bool-cases (c == sep)) [
      | inl here ↦ ([], split sep t, rw here refl)
      | inr other ↦ (c ∷ rest.0, rest.1, rw (other, rest.2) refl)
    ]

pub split-FirstIs : (sep : ℕ) (t : Text) → FirstIs sep t (split sep t)
unfolding split starts_with
split-FirstIs sep [] = tt
split-FirstIs sep (c ∷ t) = elim (Bool-cases (c == sep)) [
  | inl here ↦
      let rest = split-nonempty sep t in
      rw (here, rest.2) (rw (eqb→eq c sep here) (and-both (sep == sep) _ (eqb_refl sep) refl), refl)
  | inr other ↦ rw other (FirstIs-cons sep c t (split sep t) other (split-FirstIs sep t))
]
