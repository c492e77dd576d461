-- ===== src/Text.antt =====
-- Rust strings whose characters are read: numbers in decimal, as `to_string` prints them and
-- `str::parse` reads them, and `str::trim`. A text is the list of its code points.
-- A string that the code only compares or uses as a key is a native `String` elsewhere.
pub mod Digits
pub mod RoundTrip
pub mod Split
pub mod Pieces
mod Examples
use Prim.Native.Char.{code}
use scaphandre.Base.{
  ℕ, zero, suc, ◌+◌, ◌-◌, ◌*◌, ◌/◌, ◌%◌, ◌^◌, String, Bool, ◌&&◌, ◌||◌, Option, none, some, List,
  [], ◌∷◌, ◌++◌, ltb, leb, ◌==◌, if◌then◌else◌, map_option, u16_mod, u64_mod, u128_mod,
}
use scaphandre.Base.Int.{ℤ, pos, negsuc}

abbrev pub Text : Type 0
Text = List ℕ

-- The code points of a literal
abbrev pub codes : String → Text
codes String.[] = []
codes (String.◌∷◌ c s) = code c ∷ codes s

-- `char::is_whitespace`: the code points with the Unicode property White_Space
unfoldable pub is_whitespace : ℕ → Bool
is_whitespace c =
    (leb 9 c && leb c 13)
    || c == 32
    || c == 0x85
    || c == 0xA0
    || c == 0x1680
    || (leb 0x2000 c && leb c 0x200A)
    || c == 0x2028
    || c == 0x2029
    || c == 0x202F
    || c == 0x205F
    || c == 0x3000

unfoldable pub trim_start : Text → Text
trim_start [] = []
trim_start (c ∷ cs) = let rest = trim_start cs in if is_whitespace c then rest else c ∷ cs

unfoldable pub cons_unless_blank : ℕ → Text → Text
cons_unless_blank c [] = if is_whitespace c then [] else c ∷ []
cons_unless_blank c (d ∷ ds) = c ∷ d ∷ ds

unfoldable pub trim_end : Text → Text
unfolding cons_unless_blank
trim_end [] = []
trim_end (c ∷ cs) = cons_unless_blank c (trim_end cs)

-- `str::trim`
unfoldable pub trim : Text → Text
unfolding trim_start trim_end is_whitespace
trim t = trim_end (trim_start t)

-- The digits of a number, most significant first; the fuel is more than the digits.
unfoldable pub show_digits : ℕ → ℕ → Text
show_digits zero n = []
show_digits (suc fuel) n =
    let rest = show_digits fuel (n / 10) ++ (48 + n % 10) ∷ [] in
    if ltb n 10 then (48 + n) ∷ [] else rest

-- `to_string` of an unsigned integer
unfoldable pub show : ℕ → Text
unfolding show_digits
show n = show_digits (suc n) n

is_digit : ℕ → Bool
is_digit c = leb 48 c && leb c 57

-- The loop of `from_str`: `limit` is the modulus of the type, and a value that reaches it is the
-- error `PosOverflow`.
unfoldable pub parse_digits : ℕ → ℕ → Text → Option ℕ
unfolding is_digit
parse_digits limit acc [] = if ltb acc limit then some acc else none
parse_digits limit acc (c ∷ cs) =
    let rest = parse_digits limit (acc * 10 + (c - 48)) cs in
    if is_digit c && ltb acc limit then rest else none

-- `from_str` refuses the empty text and a sign alone.
unfoldable pub parse_nonempty : ℕ → Text → Option ℕ
unfolding parse_digits
parse_nonempty limit [] = none
parse_nonempty limit (c ∷ cs) = parse_digits limit 0 (c ∷ cs)

-- `parse` into an unsigned type whose modulus is `limit`: one leading `+` is skipped.
unfoldable pub parse_unsigned : ℕ → Text → Option ℕ
parse_unsigned limit [] = none
parse_unsigned limit (c ∷ cs) =
    if c == b'+' then parse_nonempty limit cs else parse_nonempty limit (c ∷ cs)

abbrev pub parse_u16 : Text → Option ℕ
parse_u16 = parse_unsigned u16_mod

abbrev pub parse_u64 : Text → Option ℕ
parse_u64 = parse_unsigned u64_mod

abbrev pub parse_u128 : Text → Option ℕ
parse_u128 = parse_unsigned u128_mod

-- - n
unfoldable pub negate : ℕ → ℤ
negate zero = pos 0
negate (suc n) = negsuc n

-- `parse::<i128>`: the values from - 2 ^ 127 up to 2 ^ 127 - 1
unfoldable pub parse_i128 : Text → Option ℤ
unfolding parse_nonempty parse_unsigned negate
parse_i128 [] = none
parse_i128 (c ∷ cs) =
    if c == b'-'
    then map_option negate (parse_nonempty (2 ^ 127 + 1) cs)
    else map_option pos (parse_unsigned (2 ^ 127) (c ∷ cs))

-- `to_string` of a signed integer
unfoldable pub show_ℤ : ℤ → Text
unfolding show
show_ℤ (pos n) = show n
show_ℤ (negsuc n) = b'-' ∷ show (suc n)
