-- ===== src/Topology/Names.antt =====
-- The sorted list of the names of all domains (`build_domains_names`).
-- The order of strings, by their bytes: UTF-8 keeps the order of the code points.
use scaphandre.Base.{Bool, true, false, ◌&&◌, ◌||◌, List, [], ◌∷◌, ltb, ◌==◌, if◌then◌else◌}
use scaphandre.Float.{Float}
use scaphandre.Sensor.Domain.{Domain}
use scaphandre.Sensor.Socket.{CpuSocket}
use scaphandre.Text.{Text}

unfoldable pub text_lt : Text → Text → Bool
text_lt [] [] = false
text_lt [] (d ∷ u) = true
text_lt (c ∷ t) [] = false
text_lt (c ∷ t) (d ∷ u) = ltb c d || (c == d && text_lt t u)

-- A name is put at its place in a sorted list, where it is not there.
unfoldable pub insert_name : Text → List Text → List Text
insert_name name [] = name ∷ []
insert_name name (n ∷ ns) =
    if text_lt name n
    then name ∷ n ∷ ns
    else (if text_lt n name then n ∷ insert_name name ns else n ∷ ns)

module _ {fl : Float} where
  -- The keys of the map, sorted
  unfoldable pub names_of : List (Domain fl) → List Text → List Text
  names_of [] names = names
  names_of (d ∷ ds) names = insert_name d.name (names_of ds names)

  unfoldable pub names_of_sockets : List (CpuSocket fl) → List Text
  names_of_sockets [] = []
  names_of_sockets (s ∷ ss) = names_of s.domains (names_of_sockets ss)
