-- ===== src/Units/Examples.antt =====
-- The conversions that the tests of units.rs name, and the theorem at one of them.
use scaphandre.Base.{◌≡◌, refl, none, some}
use scaphandre.Float.Fractions.{fractions}
use scaphandre.Units.{joule, kilo_watt, watt, position, get_mult, to}
use scaphandre.Units.Conversion.{to-by_rank}

kilo_watt_to_watt : to fractions (1, 1) kilo_watt watt ≡ some (1000, 1)
unfolding to position get_mult
kilo_watt_to_watt = refl

joule_to_watt : to fractions (1, 1) joule watt ≡ none
unfolding to position
joule_to_watt = refl

to-by_rank_example : to fractions (1, 1) kilo_watt watt ≡ some (1000, 1)
to-by_rank_example = to-by_rank fractions (1, 1) kilo_watt watt
