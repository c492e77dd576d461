-- ===== src/Text/Split.antt =====
-- Searching and cutting strings: `str::split` by a character or a string, `starts_with`, `contains`.
use scaphandre.Base.{
  ℕ, zero, suc, ◌-◌, Bool, true, false, ◌&&◌, ◌||◌, List, [], ◌∷◌, ◌==◌, if◌then◌else◌, length,
}
use scaphandre.Text.{Text}

-- A piece goes on with the character: in front of the first of the pieces behind it.
unfoldable pub cons_first : ℕ → List Text → List Text
cons_first c [] = (c ∷ []) ∷ []
cons_first c (piece ∷ pieces) = (c ∷ piece) ∷ pieces

-- `split` by a character: the pieces between its occurrences, at least one
unfoldable pub split : ℕ → Text → List Text
split sep [] = [] ∷ []
split sep (c ∷ t) = let rest = split sep t in if c == sep then [] ∷ rest else cons_first c rest

-- `starts_with`
unfoldable pub starts_with : Text → Text → Bool
starts_with [] t = true
starts_with (p ∷ ps) [] = false
starts_with (p ∷ ps) (c ∷ t) = p == c && starts_with ps t

-- `contains`
unfoldable pub contains : Text → Text → Bool
unfolding starts_with
contains pattern_text [] = starts_with pattern_text []
contains pattern_text (c ∷ t) = starts_with pattern_text (c ∷ t) || contains pattern_text t

-- `split` by a string that is not empty: the number is that of the characters to skip of an occurrence.
unfoldable pub split_from : Text → ℕ → Text → List Text
split_from sep skip [] = [] ∷ []
split_from sep (suc skip) (c ∷ t) = split_from sep skip t
split_from sep zero (c ∷ t) = elim (starts_with sep (c ∷ t)) [
  | true ↦ [] ∷ split_from sep (length sep - 1) t
  | false ↦ cons_first c (split_from sep 0 t)
]

unfoldable pub split_by : Text → Text → List Text
split_by sep t = split_from sep 0 t
