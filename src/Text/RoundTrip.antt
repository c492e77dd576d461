-- ===== src/Text/RoundTrip.antt =====
-- A printed number is read back, also with blanks around it.
use scaphandre.Base.{
  ℕ, suc, ◌^◌, ◌≤◌, ◌<◌, ◌≡◌, refl, ◌≢◌, false, some, [], ◌∷◌, ◌++◌, arith, ◌==◌, map_option,
}
use scaphandre.Base.Int.{pos}
use scaphandre.Text.{Text, trim, show, parse_digits, parse_nonempty, parse_unsigned, parse_i128}
use scaphandre.Text.Digits.{
  parse_digits-show_digits, AllDigits, show-AllDigits, show-ne-nil, IsBlank, trim-digits,
}

parse_unsigned-digits :
    (limit : ℕ) (t : Text) → AllDigits t → t ≢ [] → parse_unsigned limit t ≡ parse_digits limit 0 t
unfolding parse_unsigned parse_nonempty
parse_unsigned-digits limit [] h ne = absurd (ne refl)
parse_unsigned-digits limit (c ∷ t) h ne = ground arith

-- Every value of an unsigned type is printed to a text that the type's parser reads as that value.
pub parse-show : (limit n : ℕ) → n < limit → parse_unsigned limit (show n) ≡ some n
parse-show limit n h =
    rw (parse_unsigned-digits limit (show n) (show-AllDigits n) (show-ne-nil n))
      (unfold show in parse_digits-show_digits limit (suc n) n (omega arith) h)

-- The content of a sysfs file, a number with blanks such as a newline around it, is read by `trim`
-- and `parse` as that number, for every value of the type.
pub parse-trim-show :
    (limit n : ℕ) (v w : Text)
    → n < limit
    → IsBlank v
    → IsBlank w
    → parse_unsigned limit (trim (v ++ show n ++ w)) ≡ some n
parse-trim-show limit n v w h hv hw =
    rw (trim-digits v (show n) w hv (show-AllDigits n) (show-ne-nil n) hw) (parse-show limit n h)

parse_i128-digit :
    (c : ℕ) (t : Text)
    → 48 ≤ c
    → parse_i128 (c ∷ t) ≡ map_option pos (parse_unsigned (2 ^ 127) (c ∷ t))
unfolding parse_i128
parse_i128-digit c t h = let not_minus : c == b'-' ≡ false = ground arith in rw not_minus

parse_i128-digits :
    (n : ℕ) (t : Text)
    → AllDigits t
    → t ≢ []
    → parse_unsigned (2 ^ 127) t ≡ some n
    → parse_i128 t ≡ some (pos n)
parse_i128-digits n [] h ne e = absurd (ne refl)
parse_i128-digits n (c ∷ t) h ne e = rw (parse_i128-digit c t h.0, e)

-- A printed number below 2 ^ 127 is read back by the parser of `i128` as that number.
pub parse_i128-show : (n : ℕ) → n < 2 ^ 127 → parse_i128 (show n) ≡ some (pos n)
parse_i128-show n h =
    parse_i128-digits n (show n) (show-AllDigits n) (show-ne-nil n) (parse-show (2 ^ 127) n h)
