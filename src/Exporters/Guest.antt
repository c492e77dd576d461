-- ===== src/Exporters/Guest.antt =====
-- The name of a virtual machine in a command line of qemu (`filter_qemu_cmdline`).
use mathlib.Core.Bool.{true≢false}
use mathlib.Core.Path.{subst}
use scaphandre.Base.{
  ℕ, zero, suc, ◌-◌, ◌≡◌, refl, sym, inl, inr, true, false, ◌&&◌, Option, none, some, List, [], ◌∷◌,
  ◌++◌, arith, ltb, ◌==◌, eqb_refl, Bool-cases, length, get_elem?, drop, any,
}
use scaphandre.Exporters.{name_of_pieces, filter_qemu_cmdline}
use scaphandre.Text.{Text, codes}
use scaphandre.Text.Pieces.{
  and-second, or-first, or-second, starts_with-append, contains-shorten, FirstIs, split-FirstIs,
}
use scaphandre.Text.Split.{cons_first, split, starts_with, contains, split_from, split_by}

-- The first piece is a prefix.
abbrev PrefixIs : Text → List Text → Type 0
PrefixIs t [] = Unit
PrefixIs t (p ∷ ps) = starts_with p t ≡ true

PrefixIs-cons :
    (c : ℕ) (t : Text) (ps : List Text) → PrefixIs t ps → PrefixIs (c ∷ t) (cons_first c ps)
unfolding cons_first starts_with
PrefixIs-cons c t [] h = rw (eqb_refl c) refl
PrefixIs-cons c t (p ∷ ps) h = rw (eqb_refl c) h

-- Behind the characters to skip, the first piece is a prefix.
split_from-PrefixIs :
    (sep : Text) (skip : ℕ) (t : Text) → PrefixIs (drop skip t) (split_from sep skip t)
unfolding split_from starts_with
split_from-PrefixIs sep zero [] = refl
split_from-PrefixIs sep (suc skip) [] = refl
split_from-PrefixIs sep (suc skip) (c ∷ t) = split_from-PrefixIs sep skip t
split_from-PrefixIs sep zero (c ∷ t) = elim (Bool-cases (starts_with sep (c ∷ t))) [
  | inl here ↦ rw (split_from, here) refl
  | inr other ↦
      rw (split_from, other)
        (PrefixIs-cons c t (split_from sep 0 t) (split_from-PrefixIs sep zero t))
]

split_from-nonempty :
    (sep : Text) (skip : ℕ) (t : Text)
    → (p : Text) × (ps : List Text) × (split_from sep skip t ≡ p ∷ ps)
unfolding split_from cons_first
split_from-nonempty sep skip [] = ([], [], refl)
split_from-nonempty sep (suc skip) (c ∷ t) = split_from-nonempty sep skip t
split_from-nonempty sep zero (c ∷ t) =
    let rest = split_from-nonempty sep zero t in
    elim (Bool-cases (starts_with sep (c ∷ t))) [
      | inl here ↦ ([], split_from sep (length sep - 1) t, rw (split_from, here) refl)
      | inr other ↦ (c ∷ rest.0, rest.1, rw (split_from, other, rest.2) refl)
    ]

less_one : (n : ℕ) → suc n - 1 ≡ n
less_one n = omega arith

-- Where the separator is in the text, there is a second piece, and it stands behind the separator.
second_piece :
    (s : ℕ) (sep t : Text)
    → contains (s ∷ sep) t ≡ true
    → (p : Text) × (get_elem? (split_by (s ∷ sep) t) 1 ≡ some p)
      × (contains ((s ∷ sep) ++ p) t ≡ true)
unfolding split_by split_from contains cons_first
second_piece s sep [] h = absurd (true≢false (sym h))
second_piece s sep (c ∷ t) h = elim (Bool-cases (starts_with (s ∷ sep) (c ∷ t))) [
  | inl here ↦
      let skip = length (s ∷ sep) - 1 in
      let rest = split_from-nonempty (s ∷ sep) skip t in
      let prefix = split_from-PrefixIs (s ∷ sep) skip t in
      (
        rest.0,
        rw (split_from, here, rest.2) refl,
        or-first _ _ (
            starts_with-append (s ∷ sep) rest.0 (c ∷ t) here (
              subst (λ n. starts_with rest.0 (drop n t) ≡ true) (less_one (length sep))
                (rw rest.2 at prefix))),
      )
  | inr other ↦
      let rest = split_from-nonempty (s ∷ sep) zero t in
      let later = second_piece s sep t (rw other at h) in
      let piece = later.1 in
      (later.0, rw (split_from, other, rest.2) (rw rest.2 at piece), or-second _ _ later.2)
]

-- The name is not empty, has no comma, and stands between `guest=` and a comma.
abbrev pub IsGuestName : Text → Option Text → Type 0
IsGuestName cmdline none = Unit
IsGuestName cmdline (some name) =
    (contains (codes "guest=" ++ name ++ b',' ∷ []) cmdline ≡ true)
    × (any (λ c. c == b',') name ≡ false)
    × (ltb 0 (length name) ≡ true)

named_pieces :
    (piece cmdline : Text) (ps : List Text)
    → contains (codes "guest=" ++ piece) cmdline ≡ true
    → FirstIs b',' piece ps
    → IsGuestName cmdline (name_of_pieces ps)
unfolding name_of_pieces
named_pieces piece cmdline [] h f = tt
named_pieces piece cmdline (p ∷ []) h f = tt
named_pieces piece cmdline ([] ∷ q ∷ ps) h f = tt
named_pieces piece cmdline ((c ∷ p) ∷ q ∷ ps) h f = (
  contains-shorten (codes "guest=") ((c ∷ p) ++ b',' ∷ []) piece cmdline f.0 h,
  f.1,
  ground arith,
)

-- For any command line the name is looked for without a panic, and what is found is a name that is
-- not empty, has no comma in it, and stands in the command line between `guest=` and a comma.
pub filter_qemu_cmdline-IsGuestName :
    (cmdline : Text)
    → (r : Option Text) × (filter_qemu_cmdline cmdline ≡ some r) × IsGuestName cmdline r
unfolding filter_qemu_cmdline
filter_qemu_cmdline-IsGuestName cmdline =
    elim (Bool-cases
      (contains (codes "qemu-system") cmdline && contains (codes "guest=") cmdline)) [
        | inl both ↦
            let piece =
              second_piece b'g' (codes "uest=") cmdline
                (and-second (contains (codes "qemu-system") cmdline) _ both) in
            (
              name_of_pieces (split b',' piece.0),
              rw (both, piece.1) refl,
              named_pieces piece.0 cmdline (split b',' piece.0) piece.2
                  (split-FirstIs b',' piece.0),
            )
        | inr missing ↦ (none, rw missing refl, tt)
      ]
