-- ===== src/Buffer/Back.antt =====
-- The buffers that keep their newest element first, and the buffer of CPU times.
use mathlib.Core.List.{append_assoc, append-nil}
use scaphandre.Base.{
  ℕ, zero, suc, ◌+◌, ◌-◌, ◌*◌, ◌/◌, ◌^◌, ◌≤◌, ◌<◌, ◌≡◌, refl, sym, ap, ◌∙◌, ◌⊎◌, inl, inr, List, [],
  ◌∷◌, ◌++◌, arith, ltb, Bool-cases, length, drop, pop, length-drop, length-pop,
}
use scaphandre.Buffer.{
  limit_bytes, remove_front, remove_back, clean_old_cpu_time_records, clean_old_stats,
}
use scaphandre.Buffer.Bounds.{remove_front-eq-drop, surplus, surplus_quotient, surplus_left}
use scaphandre.F32.{quotient_as_usize, quotient_as_u32}
use scaphandre.F32.Exact.{quotient_as_usize-eq-div}

-- `after` is `before` less its last elements, which are the oldest ones; sizes as in `IsCut`.
pub record IsCutBack {ℓ} {A : Type ℓ} (size limit : ℕ) (before after : List A) : Type ℓ where
  pub older : List A
  pub splits : before ≡ after ++ older
  pub bound : size * length after < limit + 2 * size
  pub kept : (older ≡ []) ⊎ (limit + size ≤ size * length after)

module _ {ℓ} {A : Type ℓ} where
  pop-splits : (xs : List A) → (older : List A) × (xs ≡ pop xs ++ older)
  pop-splits [] = ([], refl)
  pop-splits (x ∷ []) = (x ∷ [], refl)
  pop-splits (x ∷ y ∷ xs) = let (older, e) = pop-splits (y ∷ xs) in (older, ap (λ zs. x ∷ zs) e)

  remove_back-splits : (n : ℕ) (xs : List A) → (older : List A) × (xs ≡ remove_back n xs ++ older)
  unfolding remove_back
  remove_back-splits zero xs = ([], sym (append-nil xs))
  remove_back-splits (suc n) xs =
      let (last_one, e) = pop-splits xs in
      let (older, e') = remove_back-splits n (pop xs) in
      (
        older ++ last_one,
        e ∙ ap (λ zs. zs ++ last_one) e' ∙ append_assoc (remove_back n (pop xs)) older last_one,
      )

  length-remove_back : (n : ℕ) (xs : List A) → length (remove_back n xs) ≡ length xs - n
  unfolding remove_back
  length-remove_back zero xs = omega arith
  length-remove_back (suc n) xs = omega (arith, length-remove_back n (pop xs), length-pop xs)

module _ {ℓ} {A : Type ℓ} (size limit : ℕ) (buffer : List A) where
  uncut_back : size * length buffer < limit + 2 * size → IsCutBack size limit buffer buffer
  uncut_back h = record { older = []; splits = sym (append-nil buffer); bound = h; kept = inl refl }

  popped :
      (n : ℕ)
      → (size * (length buffer - n) < limit + 2 * size)
        × (limit + size ≤ size * (length buffer - n))
      → IsCutBack size limit buffer (remove_back n buffer)
  popped n h = record {
    older = (remove_back-splits n buffer).0;
    splits = (remove_back-splits n buffer).1;
    bound = rw (length-remove_back n buffer) (h.0);
    kept = inr (rw (length-remove_back n buffer) (h.1));
  }

  cut_back :
      0 < size
      → size * length buffer < 2 ^ 24
      → limit + size < size * length buffer
      → IsCutBack size limit buffer
          (remove_back (quotient_as_u32 (size * length buffer - limit) size - 1) buffer)
  cut_back positive small h =
      rw (surplus_quotient size limit buffer positive small h)
        (popped _ (surplus_left size limit buffer positive h))

module _ {ℓ} {A : Type ℓ} (size kbytes : ℕ) (buffer : List A) where
  -- For a buffer of less than 2 ^ 24 bytes, cleaning the usage statistics removes the oldest ones
  -- only, from the end, leaves less than the limit and two elements more, and removes none unless
  -- the limit and one element more stay.
  pub clean_old_stats-IsCutBack :
      0 < size
      → size * length buffer < 2 ^ 24
      → IsCutBack size (limit_bytes kbytes) buffer (clean_old_stats size kbytes buffer)
  unfolding clean_old_stats
  clean_old_stats-IsCutBack positive small =
      elim (Bool-cases (ltb (limit_bytes kbytes) (size * length buffer))) [
        | inr fits ↦ rw fits (uncut_back size (limit_bytes kbytes) buffer (ground arith))
        | inl over ↦
            rw over (elim (Bool-cases (ltb size (size * length buffer - limit_bytes kbytes))) [
              | inr fits ↦ rw fits (uncut_back size (limit_bytes kbytes) buffer (ground arith))
              | inl more ↦
                  rw more (cut_back size (limit_bytes kbytes) buffer positive small (ground arith))
            ])
      ]

  -- The bytes that are left when all surplus elements go.
  all_surplus_gone :
      0 < size
      → limit_bytes kbytes + size < size * length buffer
      → size * (length buffer - (size * length buffer - limit_bytes kbytes) / size)
        < limit_bytes kbytes + size
  all_surplus_gone positive h =
      let n = (size * length buffer - limit_bytes kbytes) / size in
      let s = surplus size (limit_bytes kbytes) (length buffer) positive h in
      let e : size * (length buffer - n + n) ≡ size * length buffer =
        ap (λ k. size * k) (omega (arith, s.1)) in
      omega (arith, e, s.3)

  snapshots_cut :
      0 < size
      → size * length buffer < 2 ^ 24
      → limit_bytes kbytes + size < size * length buffer
      → let n = quotient_as_usize (size * length buffer - limit_bytes kbytes) size in
        (m : ℕ) × (remove_front n buffer ≡ drop m buffer)
        × (size * length (remove_front n buffer) ≤ limit_bytes kbytes + size)
  snapshots_cut positive small h =
      let n = (size * length buffer - limit_bytes kbytes) / size in
      rw
        (quotient_as_usize-eq-div (size * length buffer - limit_bytes kbytes) size positive
          (omega arith) (omega arith))
        (
          n,
          remove_front-eq-drop n buffer,
          rw (remove_front-eq-drop n buffer, length-drop n buffer)
              (omega (arith, all_surplus_gone positive h)),
        )

  -- For a buffer of less than 2 ^ 24 bytes, cleaning the snapshots of CPU time removes the oldest
  -- ones only and leaves at most the limit and one element more.
  pub clean_old_cpu_time_records_lem :
      0 < size
      → size * length buffer < 2 ^ 24
      → let after = clean_old_cpu_time_records size kbytes buffer in
        (n : ℕ) × (after ≡ drop n buffer) × (size * length after ≤ limit_bytes kbytes + size)
  unfolding clean_old_cpu_time_records
  clean_old_cpu_time_records_lem positive small =
      elim (Bool-cases (ltb (limit_bytes kbytes) (size * length buffer))) [
        | inr fits ↦ rw fits (0, refl, ground arith)
        | inl over ↦
            rw over (elim (Bool-cases (ltb size (size * length buffer - limit_bytes kbytes))) [
              | inr fits ↦ rw fits (0, refl, ground arith)
              | inl more ↦ rw more (snapshots_cut positive small (ground arith))
            ])
      ]
