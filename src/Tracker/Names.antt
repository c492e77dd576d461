-- ===== src/Tracker/Names.antt =====
-- The name of a tracked process.
use mathlib.Core.Path.{subst}
use mathlib.Core.Option.{some-injective, none-ne-some}
use scaphandre.Base.{
  ℕ, ◌≡◌, refl, sym, ap, ◌∙◌, inl, inr, none, some, List, [], ◌∷◌, ◌==◌, eqb→eq, Bool-cases,
}
use scaphandre.Float.{Float}
use scaphandre.Tracker.{
  ProcessTracker, Records, find_from, find_records, filter_tracking, name_of, get_process_name,
}
use scaphandre.Tracker.Lookup.{find_from-tracked, find_from-skipped}
use scaphandre.Tracker.Process.{ProcessRecord}
use scaphandre.Tracker.Valid.{IsAbsent, IsUnique, IsValid}

module _ {fs : Float} where
  pub filter_tracking-absent :
      (pid : ℕ) (vs : List (Records fs)) → IsAbsent pid vs → filter_tracking fs pid vs ≡ []
  unfolding filter_tracking
  filter_tracking-absent pid [] a = refl
  filter_tracking-absent pid (v ∷ vs) a = rw a.0 (filter_tracking-absent pid vs a.1)

  -- `name_of` on the vectors of one pid, given what a lookup finds
  name_of-found :
      (pid : ℕ) (r : ProcessRecord fs) (rs : Records fs) (vs : List (Records fs))
      → IsUnique vs
      → find_from fs pid none vs ≡ some (r ∷ rs)
      → filter_tracking fs pid vs ≡ (r ∷ rs) ∷ []
  unfolding find_from filter_tracking
  name_of-found pid r rs [] u e = absurd (none-ne-some (r ∷ rs) e)
  name_of-found pid r rs ([] ∷ vs) u e = name_of-found pid r rs vs u e
  name_of-found pid r rs ((x ∷ xs) ∷ vs) u e = elim (Bool-cases (x.process.pid == pid)) [
    | inl same ↦
        let a = subst (λ p. IsAbsent p vs) (eqb→eq x.process.pid pid same) u.0 in
        let f = sym (find_from-tracked pid (x ∷ xs) vs same a) ∙ e in
        rw same (
          rw (filter_tracking-absent pid vs a)
            (ap (λ v. v ∷ []) (some-injective (x ∷ xs) (r ∷ rs) f)))
    | inr other ↦
        rw other (name_of-found pid r rs vs u.1 (sym (find_from-skipped pid (x ∷ xs) vs other) ∙ e))
  ]

  -- In a valid tracker the name of a pid that a lookup finds is that of its newest record, and asking
  -- for it does not panic.
  pub get_process_name-found :
      (now pid : ℕ) (r : ProcessRecord fs) (rs : Records fs) (t : ProcessTracker fs)
      → IsValid now t
      → find_records fs pid t ≡ some (r ∷ rs)
      → get_process_name fs pid t ≡ some r.process.comm
  unfolding find_records get_process_name name_of
  get_process_name-found now pid r rs t v e = rw (name_of-found pid r rs t.procs v.unique e) refl
