-- ===== src/Tracker/Ranked.antt =====
-- The consumers are ranked, and no more than asked for.
use scaphandre.Base.SortBy.{
  sort_by, IsSortedBy, sorted_nil, length-sort_by, pop-IsSortedBy, sort_by-IsSortedBy,
}
use scaphandre.Base.{
  ℕ, ◌≤◌, ◌≡◌, refl, inl, inr, Bool, true, false, Option, some, List, [], ◌∷◌, ◌++◌, arith, ltb,
  Bool-cases, Option-cases, bind-some, length, length-append, length-pop,
}
use scaphandre.Float.{Float}
use scaphandre.Tracker.{ProcessTracker}
use scaphandre.Tracker.Consumers.{
  above, get_cpu_usage_percentage, count_above, place, consider, consider_all, get_top_consumers,
}
use scaphandre.Tracker.Created.{SystemProcess, System, IsNamed, new_process-IsNamed}
use scaphandre.Tracker.Process.{IProcess, ProcessRecord}

not_above : (a b : ℕ) → ltb a b ≡ false → b ≤ a
not_above a b h = ground arith

module _ (fs fl : Float) (widen : fs.F → fl.F) (at_least : fl.F → fl.F → Bool)
    (sys : System fs) where
  -- The programs of the processes that sysinfo knows have a path that is Unicode.
  abbrev pub AllNamed : Type 0
  AllNamed = (pid : ℕ) (p : SystemProcess fs) → sys.process pid ≡ some p → IsNamed p

  -- The consumers are sorted, the greatest usage first, and are not too many.
  abbrev pub IsRanked : ℕ → List (IProcess fs × fl.F) → Type 0
  IsRanked top consumers =
      IsSortedBy (above fs fl widen at_least sys) consumers × (length consumers ≤ top)

  module _ (total : (x y : fl.F) → at_least x y ≡ false → at_least y x ≡ true) where
    above_total :
        (x y : IProcess fs × fl.F)
        → above fs fl widen at_least sys x y ≡ false
        → above fs fl widen at_least sys y x ≡ true
    above_total x y h = total x.1 y.1 h

    place-IsRanked :
        (top : ℕ) (c : IProcess fs × fl.F) (consumers : List (IProcess fs × fl.F))
        → length consumers ≤ top
        → IsRanked top (place fs fl widen at_least sys top c consumers)
    unfolding place
    place-IsRanked top c consumers h =
        let extended = consumers ++ c ∷ [] in
        let sorted = sort_by (above fs fl widen at_least sys) extended in
        let s = sort_by-IsSortedBy (above fs fl widen at_least sys) above_total extended in
        let l = length-sort_by (above fs fl widen at_least sys) extended in
        let m = length-append consumers (c ∷ []) in
        elim (Bool-cases (ltb top (length sorted))) [
          | inl many ↦
              rw (place, many)
                (
                  pop-IsSortedBy (above fs fl widen at_least sys) sorted s,
                  omega (arith, length-pop sorted, l, m),
                )
          | inr few ↦ rw (place, few) (s, not_above top (length sorted) few)
        ]

    consider-IsRanked :
        AllNamed
        → (core_times : ℕ → Option (List ℕ)) (nb_cores top : ℕ) (v : List (ProcessRecord fs))
          (consumers : List (IProcess fs × fl.F))
        → IsRanked top consumers
        → (result : List (IProcess fs × fl.F)) × (consider fs fl widen at_least sys core_times
              nb_cores top v consumers
            ≡ some result)
          × IsRanked top result
    unfolding consider
    consider-IsRanked named core_times nb_cores top [] consumers h = (consumers, refl, h)
    consider-IsRanked named core_times nb_cores top (r ∷ []) consumers h = (consumers, refl, h)
    consider-IsRanked named core_times nb_cores top (r ∷ q ∷ rs) consumers h =
        let pid = r.process.pid in
        let diff = get_cpu_usage_percentage fs fl widen at_least sys pid nb_cores in
        elim (Bool-cases (ltb (count_above fs fl widen at_least sys diff consumers) top)) [
          | inr full ↦ (consumers, rw (consider, full) refl, h)
          | inl free ↦ elim (Option-cases (sys.process pid)) [
            | inl missing ↦ (consumers, rw (consider, free, missing) refl, h)
            | inr (p, known) ↦
                let c = new_process-IsNamed sys p (core_times pid) (named pid p known) in
                (
                  _,
                  rw (consider, free, known, c.1) refl,
                  place-IsRanked top (c.0, widen diff) consumers h.1,
                )
          ]
        ]

    consider_all-IsRanked :
        AllNamed
        → (core_times : ℕ → Option (List ℕ)) (nb_cores top : ℕ)
          (vs : List (List (ProcessRecord fs))) (consumers : List (IProcess fs × fl.F))
        → IsRanked top consumers
        → (result : List (IProcess fs × fl.F)) × (consider_all fs fl widen at_least sys core_times
              nb_cores top vs consumers
            ≡ some result)
          × IsRanked top result
    unfolding consider_all
    consider_all-IsRanked named core_times nb_cores top [] consumers h = (consumers, refl, h)
    consider_all-IsRanked named core_times nb_cores top (v ∷ vs) consumers h =
        let first = consider-IsRanked named core_times nb_cores top v consumers h in
        let rest = consider_all-IsRanked named core_times nb_cores top vs first.0 first.2 in
        (rest.0, bind-some _ first.1 rest.1, rest.2)

    -- Where the programs of the processes that sysinfo knows have a path that is Unicode, and the order
    -- of the usages is total, the consumers are found without a panic; they are sorted, the greatest
    -- usage first, and not more than were asked for.
    pub get_top_consumers-IsRanked :
        AllNamed
        → (core_times_map : Option (ℕ → Option (List ℕ))) (top : ℕ) (t : ProcessTracker fs)
        → (result : List (IProcess fs × fl.F)) × (get_top_consumers fs fl widen at_least sys
              core_times_map top t
            ≡ some result)
          × IsRanked top result
    unfolding get_top_consumers
    get_top_consumers-IsRanked named core_times_map top t =
        consider_all-IsRanked named _ t.nb_cores top t.procs [] (sorted_nil, omega arith)
