-- ===== src/Text/Digits.antt =====
-- The text of a number: its characters are digits, and the parser's loop reads them back.
use mathlib.Core.List.{append_assoc}
use scaphandre.Base.{
  ℕ, zero, suc, ◌+◌, ◌-◌, ◌*◌, ◌/◌, ◌≤◌, ◌<◌, ◌≡◌, refl, ◌≢◌, inl, inr, true, false, some, [], ◌∷◌,
  ◌++◌, arith, ltb, ◌==◌, Bool-cases, ◌>>=◌,
}
use scaphandre.Text.{
  Text, is_whitespace, trim_start, cons_unless_blank, trim_end, trim, show_digits, show,
  parse_digits, parse_nonempty, parse_unsigned,
}

parse_digits-append :
    (limit acc c : ℕ) (t : Text)
    → parse_digits limit acc (t ++ c ∷ [])
      ≡ (parse_digits limit acc t >>= λ a. parse_digits limit a (c ∷ []))
unfolding parse_digits
parse_digits-append limit acc c [] = ground arith
parse_digits-append limit acc c (d ∷ t) =
    ground (arith, parse_digits-append limit (acc * 10 + (d - 48)) c t)

pub parse_digits-show_digits :
    (limit fuel n : ℕ) → n < fuel → n < limit → parse_digits limit 0 (show_digits fuel n) ≡ some n
unfolding show_digits
parse_digits-show_digits limit zero n h k = elim h [ ]
parse_digits-show_digits limit (suc fuel) n h k = elim (Bool-cases (ltb n 10)) [
  | inl small ↦ rw small (unfold parse_digits in ground arith)
  | inr large ↦
      rw (large, parse_digits-append)
        (rw (parse_digits-show_digits limit fuel (n / 10) (ground arith) (omega arith))
          (unfold parse_digits in ground arith))
]

parse_digits_lt : (limit acc n : ℕ) (t : Text) → parse_digits limit acc t ≡ some n → n < limit
unfolding parse_digits
parse_digits_lt limit acc n [] h = ground arith
parse_digits_lt limit acc n (c ∷ t) h =
    ground (arith, parse_digits_lt limit (acc * 10 + (c - 48)) n t)

parse_nonempty_lt : (limit n : ℕ) (t : Text) → parse_nonempty limit t ≡ some n → n < limit
unfolding parse_nonempty
parse_nonempty_lt limit n [] h = cc
parse_nonempty_lt limit n (c ∷ t) h = parse_digits_lt limit 0 n (c ∷ t) h

-- What a parser returns is a value of its type.
pub parse_unsigned_lt : (limit n : ℕ) (t : Text) → parse_unsigned limit t ≡ some n → n < limit
unfolding parse_unsigned
parse_unsigned_lt limit n [] h = cc
parse_unsigned_lt limit n (c ∷ t) h = elim (Bool-cases (c == b'+')) [
  | inl sign ↦ parse_nonempty_lt limit n t (rw sign at h)
  | inr digit ↦ parse_nonempty_lt limit n (c ∷ t) (rw digit at h)
]

-- The characters of a number's text.
abbrev pub AllDigits : Text → Type 0
AllDigits [] = Unit
AllDigits (c ∷ t) = (48 ≤ c) × (c ≤ 57) × AllDigits t

AllDigits-append : (t : Text) (c : ℕ) → AllDigits t → 48 ≤ c → c ≤ 57 → AllDigits (t ++ c ∷ [])
AllDigits-append [] c h k l = (k, l, tt)
AllDigits-append (d ∷ t) c h k l = (h.0, h.1, AllDigits-append t c h.2 k l)

show_digits-AllDigits : (fuel n : ℕ) → AllDigits (show_digits fuel n)
unfolding show_digits
show_digits-AllDigits zero n = tt
show_digits-AllDigits (suc fuel) n = elim (Bool-cases (ltb n 10)) [
  | inl small ↦ rw small (omega arith, ground arith, tt)
  | inr large ↦
      rw large
        (AllDigits-append _ _ (show_digits-AllDigits fuel (n / 10)) (omega arith) (omega arith))
]

pub show-AllDigits : (n : ℕ) → AllDigits (show n)
unfolding show
show-AllDigits n = show_digits-AllDigits (suc n) n

append-ne-nil : (t : Text) (c : ℕ) → t ++ c ∷ [] ≢ []
append-ne-nil [] c e = cc
append-ne-nil (d ∷ t) c e = cc

pub show-ne-nil : (n : ℕ) → show n ≢ []
unfolding show show_digits
show-ne-nil n = elim (Bool-cases (ltb n 10)) [
  | inl small ↦ rw small (λ e. cc)
  | inr large ↦ rw large (append-ne-nil _ _)
]

-- Blank on the outside of a text of digits is all that `trim` removes.
abbrev pub IsBlank : Text → Type 0
IsBlank [] = Unit
IsBlank (c ∷ t) = (is_whitespace c ≡ true) × IsBlank t

digit_not_blank : (c : ℕ) → 48 ≤ c → c ≤ 57 → is_whitespace c ≡ false
unfolding is_whitespace
digit_not_blank c h k = ground arith

trim_start-blank : (w t : Text) → IsBlank w → trim_start (w ++ t) ≡ trim_start t
unfolding trim_start
trim_start-blank [] t h = refl
trim_start-blank (c ∷ w) t h = rw h.0 (trim_start-blank w t h.1)

trim_start-digits : (t u : Text) → AllDigits t → t ≢ [] → trim_start (t ++ u) ≡ t ++ u
unfolding trim_start
trim_start-digits [] u h ne = absurd (ne refl)
trim_start-digits (c ∷ t) u h ne = rw (digit_not_blank c h.0 h.1)

trim_end-blank : (w : Text) → IsBlank w → trim_end w ≡ []
unfolding trim_end
trim_end-blank [] h = refl
trim_end-blank (c ∷ w) h = rw (trim_end-blank w h.1, cons_unless_blank, h.0)

trim_end-digits : (t w : Text) → AllDigits t → IsBlank w → trim_end (t ++ w) ≡ t
unfolding trim_end cons_unless_blank
trim_end-digits [] w h b = trim_end-blank w b
trim_end-digits (c ∷ []) w h b = rw (trim_end-blank w b) (rw (digit_not_blank c h.0 h.1))
trim_end-digits (c ∷ d ∷ t) w h b = rw (trim_end-digits (d ∷ t) w h.2 b)

pub trim-digits :
    (v t w : Text) → IsBlank v → AllDigits t → t ≢ [] → IsBlank w → trim (v ++ t ++ w) ≡ t
unfolding trim
trim-digits v t w hv ht ne hw = rw (append_assoc v t w) (
    rw (trim_start-blank v (t ++ w) hv)
      (rw (trim_start-digits t w ht ne) (trim_end-digits t w ht hw)))
