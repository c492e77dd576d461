-- ===== src/Tracker/Terminated.antt =====
-- What the cleaning of terminated processes keeps.
use mathlib.Core.Bool.{false≢true}
use scaphandre.Base.{
  ℕ, zero, suc, ◌-◌, ◌≡◌, refl, sym, ap, ◌∙◌, inl, inr, Bool, true, false, Option, none, some, List,
  [], ◌∷◌, ◌==◌, if◌then◌else◌, eqb→eq, Bool-cases, length,
}
use scaphandre.Float.{Float}
use scaphandre.Tracker.{ProcessTracker, Records, tracks, find_from, find_records}
use scaphandre.Tracker.Cleaning.{
  ProcessStatus, keeps, remove_at, is_empty_at, drop_empty_from, drop_empty_process_records_vectors,
  clean_vector, clean_vectors, clean_terminated_process_records_vectors,
}
use scaphandre.Tracker.Process.{ProcessRecord}

if-same {ℓ} : {A : Type ℓ} (b : Bool) (a : A) → (if b then a else a) ≡ a
if-same true a = refl
if-same false a = refl

module _ {fs : Float} where
  -- The lookups do not see a vector without records.
  find_from-remove_at :
      (q i : ℕ) (refer : Option (Records fs)) (vs : List (Records fs))
      → is_empty_at i vs ≡ true
      → find_from fs q refer (remove_at i vs) ≡ find_from fs q refer vs
  unfolding find_from
  find_from-remove_at q i refer [] e = refl
  find_from-remove_at q zero refer ([] ∷ vs) e = refl
  find_from-remove_at q zero refer ((r ∷ rs) ∷ vs) e = absurd (false≢true e)
  find_from-remove_at q (suc i) refer (v ∷ vs) e = find_from-remove_at q i _ vs e

  drop_empty_from-keeps :
      (P : List (Records fs) → Type 0) (rounds i : ℕ) (vs : List (Records fs))
      → ((i : ℕ) (vs : List (Records fs)) → is_empty_at i vs ≡ true → P vs → P (remove_at i vs))
      → P vs
      → P (drop_empty_from rounds i vs)
  unfolding drop_empty_from
  drop_empty_from-keeps P zero i vs step p = p
  drop_empty_from-keeps P (suc rounds) i vs step p =
      drop_empty_from-keeps P rounds (suc i) _ step (elim (Bool-cases (is_empty_at i vs)) [
        | inl empty ↦ rw empty (step i vs empty p)
        | inr other ↦ rw other p
      ])

  -- What a lookup takes from one vector
  found-clean_vector :
      (status : ℕ → Option ProcessStatus) (q : ℕ) (refer : Option (Records fs))
      (r : ProcessRecord fs) (rs : Records fs)
      → (if tracks fs q (clean_vector status (r ∷ rs))
          then some (clean_vector status (r ∷ rs))
          else (if keeps (status q) then refer else none))
        ≡ (if keeps (status q) then (if r.process.pid == q then some (r ∷ rs) else refer) else none)
  unfolding clean_vector
  found-clean_vector status q refer r rs = elim (Bool-cases (r.process.pid == q)) [
    | inl same ↦
        let e = ap (λ p. keeps (status p)) (eqb→eq r.process.pid q same) in
        elim (Bool-cases (keeps (status q))) [
          | inl stays ↦ rw (e, stays, same) refl
          | inr gone ↦ rw (e, gone) refl
        ]
    | inr other ↦ elim (Bool-cases (keeps (status r.process.pid))) [
      | inl stays ↦ rw (stays, other) refl
      | inr gone ↦ rw (gone, other) refl
    ]
  ]

  find_from-clean_vectors :
      (status : ℕ → Option ProcessStatus) (q : ℕ) (refer : Option (Records fs))
      (vs : List (Records fs))
      → find_from fs q (if keeps (status q) then refer else none) (clean_vectors status vs)
        ≡ (if keeps (status q) then find_from fs q refer vs else none)
  unfolding find_from clean_vectors clean_vector
  find_from-clean_vectors status q refer [] = refl
  find_from-clean_vectors status q refer ([] ∷ vs) = find_from-clean_vectors status q refer vs
  find_from-clean_vectors status q refer ((r ∷ rs) ∷ vs) =
      ap (λ f. find_from fs q f (clean_vectors status vs)) (found-clean_vector status q refer r rs)
      ∙ find_from-clean_vectors status q (if r.process.pid == q then some (r ∷ rs) else refer) vs

  -- Whatever the tracker holds, after `clean_terminated_process_records_vectors` the records of a pid are
  -- found as before where sysinfo knows its process with any status but stop, also with dead and zombie,
  -- and not at all where it is stopped or sysinfo does not know it.
  pub find_records-clean_terminated :
      (status : ℕ → Option ProcessStatus) (q : ℕ) (t : ProcessTracker fs)
      → find_records fs q (clean_terminated_process_records_vectors status t)
        ≡ (if keeps (status q) then find_records fs q t else none)
  unfolding find_records clean_terminated_process_records_vectors drop_empty_process_records_vectors
  find_records-clean_terminated status q t =
      let cleaned = clean_vectors status t.procs in
      drop_empty_from-keeps
        (λ vs.
          find_from fs q none vs ≡ (if keeps (status q) then find_from fs q none t.procs else none))
        (length cleaned - 1) 0 cleaned (λ i vs e p. find_from-remove_at q i none vs e ∙ p)
        (ap (λ f. find_from fs q f cleaned) (sym (if-same (keeps (status q)) none))
          ∙ find_from-clean_vectors status q none t.procs)
