-- ===== src/Text/Examples.antt =====
-- Runs of the parser and the printer, and the round trip at a concrete text.
use scaphandre.Base.{◌≡◌, refl, none, some, [], ◌∷◌, ◌++◌, arith, u64_mod}
use scaphandre.Base.Int.{pos, negsuc}
use scaphandre.Text.{
  is_whitespace, trim, show, parse_nonempty, parse_unsigned, parse_u16, parse_u64, parse_i128,
}
use scaphandre.Text.RoundTrip.{parse-trim-show}

show_runs : show 1234 ≡ b'1' ∷ b'2' ∷ b'3' ∷ b'4' ∷ []
unfolding show
show_runs = refl

parse_runs : parse_u64 (b'+' ∷ b'7' ∷ []) ≡ some 7
unfolding parse_unsigned parse_nonempty
parse_runs = refl

parse_refuses :
    (parse_u64 (b'-' ∷ b'7' ∷ []) ≡ none)
    × (parse_u64 [] ≡ none)
    × (parse_u64 (b'7' ∷ 10 ∷ []) ≡ none)
    × (parse_u16 (show 65536) ≡ none)
unfolding parse_unsigned parse_nonempty show
parse_refuses = (refl, refl, refl, refl)

parse_i128_runs :
    (parse_i128 (b'-' ∷ b'7' ∷ []) ≡ some (negsuc 6)) × (parse_i128 (b'7' ∷ []) ≡ some (pos 7))
unfolding parse_i128 parse_unsigned
parse_i128_runs = (refl, refl)

blanks_around : parse_u64 (trim ((32 ∷ []) ++ show 42 ++ 10 ∷ [])) ≡ some 42
unfolding is_whitespace
blanks_around = parse-trim-show u64_mod 42 (32 ∷ []) (10 ∷ []) (omega arith) (refl, tt) (refl, tt)
