-- ===== src/Buffer/Bounds.antt =====
-- What the cleaning routines keep, and how many bytes are left.
use native.Mathlib.Nat.{div-mul-le_self, le-div_iff_mul-le, le_of_mul-le-mul_right, mod-eq_of_lt}
use scaphandre.Base.{
  ℕ, zero, suc, ◌+◌, ◌-◌, ◌*◌, ◌/◌, ◌^◌, ◌≤◌, ◌<◌, ◌≡◌, refl, sym, ap, ◌∙◌, ◌⊎◌, inl, inr, List, [],
  ◌∷◌, ◌++◌, arith, ltb, Bool-cases, length, drop, take, length-drop, drop-nil, take-append-drop,
}
use scaphandre.Buffer.{limit_bytes, remove_front, clean_old_records, clean_topology_records}
use scaphandre.F32.{quotient_as_u32}
use scaphandre.F32.Exact.{quotient_as_u32-eq-div}

module _ {ℓ} {A : Type ℓ} where
  pub remove_front-eq-drop : (n : ℕ) (xs : List A) → remove_front n xs ≡ drop n xs
  unfolding remove_front
  remove_front-eq-drop zero xs = refl
  remove_front-eq-drop (suc n) [] = remove_front-eq-drop n [] ∙ drop-nil n
  remove_front-eq-drop (suc n) (x ∷ xs) = remove_front-eq-drop n xs

-- `after` is `before` less its first elements; it takes less than the limit and two elements more,
-- and where anything was removed at least the limit and one element are left.
pub record IsCut {ℓ} {A : Type ℓ} (size limit : ℕ) (before after : List A) : Type ℓ where
  pub older : List A
  pub splits : before ≡ older ++ after
  pub bound : size * length after < limit + 2 * size
  pub kept : (older ≡ []) ⊎ (limit + size ≤ size * length after)

-- The bytes that r elements take, where n - 1 of len are gone and n is the whole number of surplus
-- elements.
bytes_left :
    (size limit len n r : ℕ)
    → r + n ≡ len + 1
    → n * size + limit ≤ size * len
    → size * len < n * size + size + limit
    → (size * r < limit + 2 * size) × (limit + size ≤ size * r)
bytes_left size limit len n r e low high =
    let e' = ap (λ k. size * k) e in (omega (arith, e'), omega (arith, e'))

-- The whole number of surplus elements.
pub surplus :
    (size limit len : ℕ)
    → 0 < size
    → limit + size < size * len
    → let n = (size * len - limit) / size in
      (1 ≤ n) × (n ≤ len) × (n * size + limit ≤ size * len) × (size * len < n * size + size + limit)
surplus size limit len h over =
    let n = (size * len - limit) / size in
    let low : n * size ≤ size * len - limit = div-mul-le_self (size * len - limit) size in
    let high : size * len - limit < n * size + size = grind arith in
    let one : 1 ≤ n = (le-div_iff_mul-le h).1 (omega arith) in
    (
      one,
      le_of_mul-le-mul_right {m = n} {n = len} {k = size} (omega arith) h,
      omega arith,
      omega arith,
    )

module _ {ℓ} {A : Type ℓ} (size limit : ℕ) (buffer : List A) where
  uncut : size * length buffer < limit + 2 * size → IsCut size limit buffer buffer
  uncut h = record { older = []; splits = refl; bound = h; kept = inl refl }

  dropped :
      (n : ℕ)
      → (size * (length buffer - n) < limit + 2 * size)
        × (limit + size ≤ size * (length buffer - n))
      → IsCut size limit buffer (remove_front n buffer)
  dropped n h = rw (remove_front-eq-drop n buffer) (record {
    older = take n buffer;
    splits = sym (take-append-drop n buffer);
    bound = rw (length-drop n buffer) (h.0);
    kept = inr (rw (length-drop n buffer) (h.1));
  })

  pub surplus_quotient :
      0 < size
      → size * length buffer < 2 ^ 24
      → limit + size < size * length buffer
      → quotient_as_u32 (size * length buffer - limit) size ≡ (size * length buffer - limit) / size
  surplus_quotient positive small h =
      quotient_as_u32-eq-div (size * length buffer - limit) size positive (omega arith)
        (omega arith)

  pub surplus_left :
      0 < size
      → limit + size < size * length buffer
      → let left = length buffer - ((size * length buffer - limit) / size - 1) in
        (size * left < limit + 2 * size) × (limit + size ≤ size * left)
  surplus_left positive h =
      let s = surplus size limit (length buffer) positive h in
      bytes_left size limit (length buffer) ((size * length buffer - limit) / size) _
        (omega (arith, s.0, s.1)) s.2 s.3

  cut :
      0 < size
      → size * length buffer < 2 ^ 24
      → limit + size < size * length buffer
      → IsCut size limit buffer
          (remove_front (quotient_as_u32 (size * length buffer - limit) size - 1) buffer)
  cut positive small h =
      rw (surplus_quotient positive small h) (dropped _ (surplus_left positive h))

module _ {ℓ} {A : Type ℓ} (size kbytes : ℕ) where
  -- For a buffer of less than 2 ^ 24 bytes, cleaning removes the oldest elements only, leaves less
  -- than the limit and two elements more, and removes none unless the limit and one element more
  -- stay.
  pub clean_old_records-IsCut :
      (buffer : List A)
      → 0 < size
      → size * length buffer < 2 ^ 24
      → IsCut size (limit_bytes kbytes) buffer (clean_old_records size kbytes buffer)
  unfolding clean_old_records
  clean_old_records-IsCut buffer positive small =
      elim (Bool-cases (ltb (limit_bytes kbytes) (size * length buffer))) [
        | inr fits ↦ rw fits (uncut size (limit_bytes kbytes) buffer (ground arith))
        | inl over ↦
            rw over (elim (Bool-cases (ltb size (size * length buffer - limit_bytes kbytes))) [
              | inr fits ↦ rw fits (uncut size (limit_bytes kbytes) buffer (ground arith))
              | inl more ↦
                  rw more (cut size (limit_bytes kbytes) buffer positive small (ground arith))
            ])
      ]

  -- Below 2 ^ 16 bytes the cast of `Topology` changes nothing.
  pub clean_topology_records-eq :
      (buffer : List A)
      → size * length buffer < 2 ^ 16
      → clean_topology_records size kbytes buffer ≡ clean_old_records size kbytes buffer
  unfolding clean_topology_records clean_old_records
  clean_topology_records-eq buffer small = rw (mod-eq_of_lt small)
