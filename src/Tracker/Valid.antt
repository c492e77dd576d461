-- ===== src/Tracker/Valid.antt =====
-- The invariant of the tracked vectors, and that adding a record keeps it.
use mathlib.Core.Path.{subst}
use native.Mathlib.Nat.{le_refl}
use scaphandre.Base.{
  ℕ, zero, suc, ◌≤◌, ◌<◌, ◌≡◌, inl, inr, true, false, List, [], ◌∷◌, arith, ◌==◌, eqb→eq, eqb_flip,
  Bool-cases, length, take,
}
use scaphandre.Float.{Float}
use scaphandre.Tracker.{
  ProcessTracker, Records, tracks, same_program, insert_record, add_to, add_process_record,
}
use scaphandre.Tracker.Insert.{
  IsNewestFirst, IsPast, HasPid, IsUniform, same_program-cases, kept-IsNewestFirst,
  insert_record-eq-take,
}
use scaphandre.Tracker.Process.{IProcess, ProcessRecord}

module _ {fs : Float} where
  -- What holds of each vector: its newest record is first and none is later than the clock, it is
  -- within the maximum, and all its records are of one pid.
  abbrev pub IsKept : ℕ → ℕ → Records fs → Type 0
  IsKept max_records now v = IsNewestFirst v × IsPast now v × (length v ≤ max_records) × IsUniform v

  abbrev pub AllKept : ℕ → ℕ → List (Records fs) → Type 0
  AllKept max_records now [] = Unit
  AllKept max_records now (v ∷ vs) = IsKept max_records now v × AllKept max_records now vs

  -- No vector tracks the pid.
  abbrev pub IsAbsent : ℕ → List (Records fs) → Type 0
  IsAbsent pid [] = Unit
  IsAbsent pid (v ∷ vs) = (tracks fs pid v ≡ false) × IsAbsent pid vs

  -- No two vectors track one pid.
  abbrev pub IsUnique : List (Records fs) → Type 0
  IsUnique [] = Unit
  IsUnique ([] ∷ vs) = IsUnique vs
  IsUnique ((r ∷ rs) ∷ vs) = IsAbsent r.process.pid vs × IsUnique vs

  take-IsNewestFirst : (n : ℕ) (v : Records fs) → IsNewestFirst v → IsNewestFirst (take n v)
  take-IsNewestFirst zero v h = tt
  take-IsNewestFirst (suc n) [] h = tt
  take-IsNewestFirst (suc n) (r ∷ []) h = take_one n r
    where
      take_one : (n : ℕ) (r : ProcessRecord fs) → IsNewestFirst (take (suc n) (r ∷ []))
      take_one zero r = tt
      take_one (suc n) r = tt
  take-IsNewestFirst (suc zero) (r ∷ x ∷ xs) h = tt
  take-IsNewestFirst (suc (suc n)) (r ∷ x ∷ xs) h = (h.0, take-IsNewestFirst (suc n) (x ∷ xs) h.1)

  length-take-le : (n : ℕ) (v : Records fs) → length (take n v) ≤ n
  length-take-le zero v = omega arith
  length-take-le (suc n) [] = omega arith
  length-take-le (suc n) (r ∷ rs) = omega (arith, length-take-le n rs)

  take-HasPid : (n pid : ℕ) (v : Records fs) → HasPid pid v → HasPid pid (take n v)
  take-HasPid zero pid v h = tt
  take-HasPid (suc n) pid [] h = tt
  take-HasPid (suc n) pid (r ∷ rs) h = (h.0, take-HasPid n pid rs h.1)

  same_program-HasPid :
      (pid : ℕ) (r : ProcessRecord fs) (v : Records fs)
      → HasPid pid v
      → HasPid pid (same_program fs r v)
  same_program-HasPid pid r v h = elim (same_program-cases r v) [
    | inl gone ↦ rw gone tt
    | inr stays ↦ rw stays h
  ]

  tracked-HasPid : (pid : ℕ) (v : Records fs) → tracks fs pid v ≡ true → IsUniform v → HasPid pid v
  tracked-HasPid pid [] h u = tt
  tracked-HasPid pid (x ∷ xs) h u =
      let e = eqb→eq x.process.pid pid h in (e, subst (λ p. HasPid p xs) e u)

  pub IsPast-later : (t now : ℕ) (v : Records fs) → t ≤ now → IsPast t v → IsPast now v
  IsPast-later t now [] h k = tt
  IsPast-later t now (r ∷ rs) h k = omega arith

  -- A vector that tracks the pid of a new record stays as it should be when the record is put in, and
  -- has the record in front.
  pub insert_record-IsKept :
      (m : ℕ) (r : ProcessRecord fs) (v : Records fs)
      → IsKept (suc m) r.timestamp v
      → tracks fs r.process.pid v ≡ true
      → (insert_record fs (suc m) r v ≡ r ∷ take m (same_program fs r v))
        × IsKept (suc m) r.timestamp (insert_record fs (suc m) r v)
  insert_record-IsKept m r v k t =
      let e = insert_record-eq-take (suc m) r v k.0 k.1 in
      (
        e,
        rw e (
          take-IsNewestFirst (suc m) (r ∷ same_program fs r v) (kept-IsNewestFirst r v k.0 k.1),
          le_refl r.timestamp,
          length-take-le (suc m) (r ∷ same_program fs r v),
          take-HasPid m r.process.pid (same_program fs r v)
              (same_program-HasPid r.process.pid r v (tracked-HasPid r.process.pid v t k.3)),
        ),
      )

  later-IsKept :
      (max_records t now : ℕ) (v : Records fs)
      → t ≤ now
      → IsKept max_records t v
      → IsKept max_records now v
  later-IsKept max_records t now v h k = (k.0, IsPast-later t now v h k.1, k.2, k.3)

  pub later-AllKept :
      (max_records t now : ℕ) (vs : List (Records fs))
      → t ≤ now
      → AllKept max_records t vs
      → AllKept max_records now vs
  later-AllKept max_records t now [] h k = tt
  later-AllKept max_records t now (v ∷ vs) h k =
      (later-IsKept max_records t now v h k.0, later-AllKept max_records t now vs h k.1)

  add_to-AllKept :
      (m : ℕ) (r : ProcessRecord fs) (vs : List (Records fs))
      → AllKept (suc m) r.timestamp vs
      → AllKept (suc m) r.timestamp (add_to fs (suc m) r vs)
  unfolding add_to
  add_to-AllKept m r [] k = ((tt, le_refl r.timestamp, omega arith, tt), tt)
  add_to-AllKept m r (v ∷ vs) k = elim (Bool-cases (tracks fs r.process.pid v)) [
    | inl t ↦ rw t ((insert_record-IsKept m r v k.0 t).1, k.1)
    | inr f ↦ rw f (k.0, add_to-AllKept m r vs k.1)
  ]

  pub add_to-IsAbsent :
      (m q : ℕ) (r : ProcessRecord fs) (vs : List (Records fs))
      → AllKept (suc m) r.timestamp vs
      → r.process.pid == q ≡ false
      → IsAbsent q vs
      → IsAbsent q (add_to fs (suc m) r vs)
  unfolding add_to
  add_to-IsAbsent m q r [] k ne a = (ne, tt)
  add_to-IsAbsent m q r (v ∷ vs) k ne a = elim (Bool-cases (tracks fs r.process.pid v)) [
    | inl t ↦ rw t (rw (insert_record-IsKept m r v k.0 t).0 ne, a.1)
    | inr f ↦ rw f (a.0, add_to-IsAbsent m q r vs k.1 ne a.1)
  ]

  add_to-IsUnique :
      (m : ℕ) (r : ProcessRecord fs) (vs : List (Records fs))
      → AllKept (suc m) r.timestamp vs
      → IsUnique vs
      → IsUnique (add_to fs (suc m) r vs)
  unfolding add_to
  add_to-IsUnique m r [] k u = (tt, tt)
  add_to-IsUnique m r ([] ∷ vs) k u = add_to-IsUnique m r vs k.1 u
  add_to-IsUnique m r ((x ∷ xs) ∷ vs) k u = elim (Bool-cases (x.process.pid == r.process.pid)) [
    | inl t ↦
        let e = eqb→eq x.process.pid r.process.pid t in
        rw t
          (rw (insert_record-IsKept m r (x ∷ xs) k.0 t).0 (subst (λ p. IsAbsent p vs) e u.0, u.1))
    | inr f ↦ rw f (
      add_to-IsAbsent m x.process.pid r vs k.1 (eqb_flip _ _ f) u.0,
      add_to-IsUnique m r vs k.1 u.1,
    )
  ]

  -- The invariant of the tracker at a time: it may keep one record at least, every vector is as it
  -- should be, and no two track one pid.
  pub record IsValid (now : ℕ) (t : ProcessTracker fs) : Type 0 where
    pub positive : 0 < t.max_records_per_process
    pub kept : AllKept t.max_records_per_process now t.procs
    pub unique : IsUnique t.procs

  added :
      (m : ℕ) (r : ProcessRecord fs) (vs : List (Records fs))
      → 0 < m
      → AllKept m r.timestamp vs
      → IsUnique vs
      → AllKept m r.timestamp (add_to fs m r vs) × IsUnique (add_to fs m r vs)
  added zero r vs h k u = elim h [ ]
  added (suc m) r vs h k u = (add_to-AllKept m r vs k, add_to-IsUnique m r vs k u)

  -- Adding the record of a process at a time not before the last one keeps the invariant: every
  -- vector has its newest record first, at most the maximum of records and records of one pid only,
  -- and no two vectors are of one pid.
  pub add_process_record-IsValid :
      (before now : ℕ) (process : IProcess fs) (t : ProcessTracker fs)
      → before ≤ now
      → IsValid before t
      → IsValid now (add_process_record fs now process t)
  unfolding add_process_record
  add_process_record-IsValid before now process t h v =
      let r : ProcessRecord fs = record { process = process; timestamp = now } in
      let k = later-AllKept t.max_records_per_process before now t.procs h v.kept in
      let a = added t.max_records_per_process r t.procs v.positive k v.unique in
      record { positive = v.positive; kept = a.0; unique = a.1 }
