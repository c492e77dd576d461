-- ===== src/Tracker/Insert.antt =====
-- One vector of records: a new record goes to the front, and the oldest beyond the maximum go.
use scaphandre.Base.{
  ℕ, zero, suc, ◌+◌, ◌-◌, ◌≤◌, ◌≡◌, refl, sym, ap, ◌⊎◌, inl, inr, [], ◌∷◌, arith, ltb, ltb→lt,
  Bool-cases, length, take, pop, length-pop,
}
use scaphandre.Float.{Float}
use scaphandre.Tracker.{
  Records, sort_newest_first, pop_oldest, clean_old_process_records, same_program, insert_record,
}
use scaphandre.Tracker.Process.{ProcessRecord}

module _ {fs : Float} where
  abbrev pub IsNewestFirst : Records fs → Type 0
  IsNewestFirst [] = Unit
  IsNewestFirst (r ∷ []) = Unit
  IsNewestFirst (r ∷ x ∷ xs) = (x.timestamp ≤ r.timestamp) × IsNewestFirst (x ∷ xs)

  -- No record is later than the clock.
  abbrev pub IsPast : ℕ → Records fs → Type 0
  IsPast now [] = Unit
  IsPast now (r ∷ rs) = r.timestamp ≤ now

  abbrev pub HasPid : ℕ → Records fs → Type 0
  HasPid pid [] = Unit
  HasPid pid (r ∷ rs) = (r.process.pid ≡ pid) × HasPid pid rs

  abbrev pub IsUniform : Records fs → Type 0
  IsUniform [] = Unit
  IsUniform (r ∷ rs) = HasPid r.process.pid rs

  sort-of_sorted : (v : Records fs) → IsNewestFirst v → sort_newest_first fs v ≡ v
  unfolding sort_newest_first
  sort-of_sorted [] h = refl
  sort-of_sorted (r ∷ []) h = refl
  sort-of_sorted (r ∷ x ∷ xs) h = rw (sort-of_sorted (x ∷ xs) h.1) (ground arith)

  pop-IsNewestFirst : (v : Records fs) → IsNewestFirst v → IsNewestFirst (pop v)
  pop-IsNewestFirst [] h = tt
  pop-IsNewestFirst (r ∷ []) h = tt
  pop-IsNewestFirst (r ∷ x ∷ []) h = tt
  pop-IsNewestFirst (r ∷ x ∷ y ∷ xs) h = (h.0, pop-IsNewestFirst (x ∷ y ∷ xs) h.1)

  take-pop : (n : ℕ) (v : Records fs) → n + 1 ≤ length v → take n (pop v) ≡ take n v
  take-pop zero v h = refl
  take-pop (suc n) [] h = absurd (omega arith)
  take-pop (suc n) (r ∷ []) h = absurd (omega arith)
  take-pop (suc n) (r ∷ x ∷ xs) h = ap (λ ys. r ∷ ys) (take-pop n (x ∷ xs) (omega arith))

  take_all : (n : ℕ) (v : Records fs) → length v ≤ n → take n v ≡ v
  take_all zero [] h = refl
  take_all zero (r ∷ rs) h = absurd (omega arith)
  take_all (suc n) [] h = refl
  take_all (suc n) (r ∷ rs) h = ap (λ ys. r ∷ ys) (take_all n rs (omega arith))

  pop_oldest-eq-take :
      (diff : ℕ) (v : Records fs)
      → IsNewestFirst v
      → diff ≤ length v
      → pop_oldest fs diff v ≡ take (length v - diff) v
  unfolding pop_oldest
  pop_oldest-eq-take zero v h k = sym (take_all (length v - 0) v (omega arith))
  pop_oldest-eq-take (suc diff) v h k =
      let e : length v - 1 - diff ≡ length v - suc diff = omega arith in
      rw (sort-of_sorted v h) (
        rw (pop_oldest-eq-take diff (pop v) (pop-IsNewestFirst v h) (omega (arith, length-pop v)))
          (rw (length-pop v, e) (take-pop (length v - suc diff) v (omega arith))))

  pub clean-eq-take :
      (max_records : ℕ) (v : Records fs)
      → IsNewestFirst v
      → clean_old_process_records fs max_records v ≡ take max_records v
  unfolding clean_old_process_records
  clean-eq-take max_records v h = elim (Bool-cases (ltb max_records (length v))) [
    | inl more ↦
        let lt = ltb→lt _ _ more in
        let e : length v - (length v - max_records) ≡ max_records = omega arith in
        rw more (rw (pop_oldest-eq-take (length v - max_records) v h (omega arith), e) refl)
    | inr fits ↦ rw fits (sym (take_all max_records v (ground arith)))
  ]

  pub same_program-cases :
      (r : ProcessRecord fs) (v : Records fs)
      → (same_program fs r v ≡ []) ⊎ (same_program fs r v ≡ v)
  unfolding same_program
  same_program-cases r [] = inl refl
  same_program-cases r (x ∷ xs) = ground arith

  cons-IsNewestFirst :
      (r : ProcessRecord fs) (v : Records fs)
      → IsNewestFirst v
      → IsPast r.timestamp v
      → IsNewestFirst (r ∷ v)
  cons-IsNewestFirst r [] h k = tt
  cons-IsNewestFirst r (x ∷ xs) h k = (k, h)

  pub kept-IsNewestFirst :
      (r : ProcessRecord fs) (v : Records fs)
      → IsNewestFirst v
      → IsPast r.timestamp v
      → IsNewestFirst (r ∷ same_program fs r v)
  kept-IsNewestFirst r v h k = elim (same_program-cases r v) [
    | inl gone ↦ rw gone tt
    | inr stays ↦ rw stays (cons-IsNewestFirst r v h k)
  ]

  -- Into a vector with its newest record first, none of them later than the new one, the new record
  -- is put in front, behind it the records of the same program, and of these at most the maximum stay.
  pub insert_record-eq-take :
      (max_records : ℕ) (r : ProcessRecord fs) (v : Records fs)
      → IsNewestFirst v
      → IsPast r.timestamp v
      → insert_record fs max_records r v ≡ take max_records (r ∷ same_program fs r v)
  unfolding insert_record
  insert_record-eq-take max_records r v h k =
      clean-eq-take max_records (r ∷ same_program fs r v) (kept-IsNewestFirst r v h k)
