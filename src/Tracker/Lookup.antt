-- ===== src/Tracker/Lookup.antt =====
-- Lookups after a record was added.
use mathlib.Core.Path.{subst, ◌∙◌}
use scaphandre.Base.{
  ℕ, zero, suc, ◌≤◌, ◌<◌, ◌≡◌, refl, sym, ap, inl, inr, true, false, str_eq, Option, none, some,
  List, [], ◌∷◌, arith, ◌==◌, if◌then◌else◌, eqb→eq, eqb_flip, Bool-cases, take,
}
use scaphandre.Float.{Float}
use scaphandre.Tracker.{
  ProcessTracker, Records, tracks, same_program, add_to, add_process_record, find_from,
  find_records,
}
use scaphandre.Tracker.Process.{IProcess, ProcessRecord}
use scaphandre.Tracker.Valid.{
  AllKept, IsAbsent, IsUnique, insert_record-IsKept, later-AllKept, add_to-IsAbsent, IsValid,
}

module _ {fs : Float} where
  pub find_from-absent :
      (pid : ℕ) (refer : Option (Records fs)) (vs : List (Records fs))
      → IsAbsent pid vs
      → find_from fs pid refer vs ≡ refer
  unfolding find_from
  find_from-absent pid refer [] a = refl
  find_from-absent pid refer (v ∷ vs) a = rw a.0 (find_from-absent pid refer vs a.1)

  -- The vector of a pid after its record was added, given the one before.
  abbrev pub vector_after : ℕ → ProcessRecord fs → Option (Records fs) → Records fs
  vector_after m r none = r ∷ []
  vector_after m r (some v) = take m (r ∷ same_program fs r v)

  -- In place of a vector of the pid of `r`, where no later one is of it
  find_from-replaced :
      (q : ℕ) (r x : ProcessRecord fs) (w xs : Records fs) (vs : List (Records fs))
      → x.process.pid ≡ r.process.pid
      → IsAbsent r.process.pid vs
      → find_from fs q none ((r ∷ w) ∷ vs)
        ≡ (if r.process.pid == q then some (r ∷ w) else find_from fs q none ((x ∷ xs) ∷ vs))
  unfolding find_from
  find_from-replaced q r x w xs vs e a = elim (Bool-cases (r.process.pid == q)) [
    | inl same ↦
        let a' = subst (λ p. IsAbsent p vs) (eqb→eq r.process.pid q same) a in
        rw same (find_from-absent q (some (r ∷ w)) vs a')
    | inr other ↦ rw (e, other) refl
  ]

  pub find_from-tracked :
      (pid : ℕ) (v : Records fs) (vs : List (Records fs))
      → tracks fs pid v ≡ true
      → IsAbsent pid vs
      → find_from fs pid none (v ∷ vs) ≡ some v
  unfolding find_from
  find_from-tracked pid v vs t a = rw t (find_from-absent pid (some v) vs a)

  pub find_from-skipped :
      (pid : ℕ) (v : Records fs) (vs : List (Records fs))
      → tracks fs pid v ≡ false
      → find_from fs pid none (v ∷ vs) ≡ find_from fs pid none vs
  unfolding find_from
  find_from-skipped pid v vs t = rw t refl

  -- Behind a vector of another pid
  find_from-behind :
      (m q : ℕ) (r x : ProcessRecord fs) (xs : Records fs) (vs : List (Records fs))
      → AllKept (suc m) r.timestamp vs
      → IsAbsent x.process.pid vs
      → x.process.pid == r.process.pid ≡ false
      → find_from fs q none (add_to fs (suc m) r vs) ≡ (
          if r.process.pid == q
          then some (vector_after (suc m) r (find_from fs r.process.pid none vs))
          else find_from fs q none vs)
      → find_from fs q none ((x ∷ xs) ∷ add_to fs (suc m) r vs) ≡ (
          if r.process.pid == q
          then some (vector_after (suc m) r (find_from fs r.process.pid none vs))
          else find_from fs q none ((x ∷ xs) ∷ vs))
  unfolding find_from
  find_from-behind m q r x xs vs k a ne ih = elim (Bool-cases (x.process.pid == q)) [
    | inr other ↦
        rw
          (
            find_from-skipped q (x ∷ xs) (add_to fs (suc m) r vs) other,
            find_from-skipped q (x ∷ xs) vs other,
          )
          ih
    | inl same ↦
        let e = eqb→eq x.process.pid q same in
        let flipped = eqb_flip _ _ ne in
        let aq = subst (λ p. IsAbsent p vs) e a in
        let rq = subst (λ p. r.process.pid == p ≡ false) e flipped in
        rw rq (
          find_from-tracked q (x ∷ xs) (add_to fs (suc m) r vs) same
            (add_to-IsAbsent m q r vs k rq aq)
          ∙ sym (find_from-tracked q (x ∷ xs) vs same aq))
  ]

  find_from-add_to :
      (m q : ℕ) (r : ProcessRecord fs) (vs : List (Records fs))
      → AllKept (suc m) r.timestamp vs
      → IsUnique vs
      → find_from fs q none (add_to fs (suc m) r vs) ≡ (
          if r.process.pid == q
          then some (vector_after (suc m) r (find_from fs r.process.pid none vs))
          else find_from fs q none vs)
  unfolding find_from add_to
  find_from-add_to m q r [] k u = refl
  find_from-add_to m q r ([] ∷ vs) k u = find_from-add_to m q r vs k.1 u
  find_from-add_to m q r ((x ∷ xs) ∷ vs) k u = elim (Bool-cases (x.process.pid == r.process.pid)) [
    | inl same ↦
        let e = eqb→eq x.process.pid r.process.pid same in
        let a = subst (λ p. IsAbsent p vs) e u.0 in
        let old = find_from-absent r.process.pid (some (x ∷ xs)) vs a in
        rw same (
          rw (insert_record-IsKept m r (x ∷ xs) k.0 same).0
            (rw old (find_from-replaced q r x (take m (same_program fs r (x ∷ xs))) xs vs e a)))
    | inr other ↦
        rw other (find_from-behind m q r x xs vs k.1 u.0 other (find_from-add_to m q r vs k.1 u.1))
  ]

  found_after :
      (m q : ℕ) (r : ProcessRecord fs) (vs : List (Records fs))
      → 0 < m
      → AllKept m r.timestamp vs
      → IsUnique vs
      → find_from fs q none (add_to fs m r vs) ≡ (
          if r.process.pid == q
          then some (vector_after m r (find_from fs r.process.pid none vs))
          else find_from fs q none vs)
  found_after zero q r vs h k u = absurd (omega arith)
  found_after (suc m) q r vs h k u = find_from-add_to m q r vs k u

  -- The records that a lookup should find for the pid of a new record, given those found before: the
  -- new one, and behind it the older ones where the newest of these is of the same program.
  abbrev pub records_after : ℕ → ProcessRecord fs → Option (Records fs) → Records fs
  records_after m r none = r ∷ []
  records_after m r (some []) = take m (r ∷ [])
  records_after m r (some (x ∷ xs)) =
      if str_eq r.process.comm x.process.comm then take m (r ∷ x ∷ xs) else take m (r ∷ [])

  vector_after-eq-records_after :
      (m : ℕ) (r : ProcessRecord fs) (o : Option (Records fs))
      → vector_after m r o ≡ records_after m r o
  unfolding same_program
  vector_after-eq-records_after m r none = refl
  vector_after-eq-records_after m r (some []) = refl
  vector_after-eq-records_after m r (some (x ∷ xs)) =
      elim (Bool-cases (str_eq r.process.comm x.process.comm)) [
        | inl same ↦ rw same refl
        | inr other ↦ rw other refl
      ]

  -- In a tracker that is valid at a time not after now, adding a process puts its record in front of
  -- what was found for its pid before: all of these stay behind it when the newest of them is of the
  -- same program, and none otherwise, and the whole is cut to the maximum. What is found for another
  -- pid does not change.
  pub find_records-add_process_record :
      (before now q : ℕ) (process : IProcess fs) (t : ProcessTracker fs)
      → before ≤ now
      → IsValid before t
      → find_records fs q (add_process_record fs now process t) ≡ (
          if process.pid == q
          then some (
              records_after t.max_records_per_process
                (record { process = process; timestamp = now })
                (find_records fs process.pid t))
          else find_records fs q t)
  unfolding find_records add_process_record
  find_records-add_process_record before now q process t h v =
      let r : ProcessRecord fs = record { process = process; timestamp = now } in
      let m = t.max_records_per_process in
      found_after m q r t.procs v.positive (later-AllKept m before now t.procs h v.kept) v.unique
      ∙ ap (λ v'. if process.pid == q then some v' else find_from fs q none t.procs)
          (vector_after-eq-records_after m r (find_from fs process.pid none t.procs))
