-- ===== src/Topology/Events.antt =====
-- Each socket gets its own events, once, in order.
use mathlib.Core.Path.{subst}
use scaphandre.Base.{
  ℕ, ◌≡◌, refl, sym, ap, ap₂, ◌∙◌, inl, inr, false, List, [], ◌∷◌, ◌++◌, map, ◌==◌, if◌then◌else◌,
  eqb→eq, eqb_flip, Bool-cases,
}
use scaphandre.Float.{Float}
use scaphandre.Sensor.Event.{CpuStateEvent}
use scaphandre.Topology.{push_event, push_events, events_of, without, collect_events}

unfoldable pub of_socket : ℕ → List CpuStateEvent → List CpuStateEvent
of_socket q [] = []
of_socket q (e ∷ es) = if e.socket_id == q then e ∷ of_socket q es else of_socket q es

append-nil {ℓ} : {A : Type ℓ} (xs : List A) → xs ++ [] ≡ xs
append-nil [] = refl
append-nil (x ∷ xs) = ap (λ ys. x ∷ ys) (append-nil xs)

append_assoc {ℓ} : {A : Type ℓ} (xs ys zs : List A) → (xs ++ ys) ++ zs ≡ xs ++ (ys ++ zs)
append_assoc [] ys zs = refl
append_assoc (x ∷ xs) ys zs = ap (λ vs. x ∷ vs) (append_assoc xs ys zs)

events_of-push_event :
    (q : ℕ) (e : CpuStateEvent) (m : List (ℕ × List CpuStateEvent))
    → events_of q (push_event e m) ≡ events_of q m ++ of_socket q (e ∷ [])
unfolding push_event events_of of_socket
events_of-push_event q e [] = elim (Bool-cases (e.socket_id == q)) [
  | inl mine ↦ rw mine refl
  | inr other ↦ rw other refl
]
events_of-push_event q e ((id, es) ∷ m) = elim (Bool-cases (id == e.socket_id)) [
  | inl same ↦ elim (Bool-cases (e.socket_id == q)) [
    | inl mine ↦ rw (same, eqb→eq id e.socket_id same, mine) refl
    | inr other ↦ rw (same, eqb→eq id e.socket_id same, other) (sym (append-nil (events_of q m)))
  ]
  | inr away ↦ elim (Bool-cases (id == q)) [
    | inl mine ↦
        let ne : e.socket_id == q ≡ false =
          subst (λ p. e.socket_id == p ≡ false) (eqb→eq id q mine) (eqb_flip id e.socket_id away) in
        rw (away, mine, ne) (sym (append-nil es))
    | inr other ↦ rw (away, other) (events_of-push_event q e m)
  ]
]

of_socket-append :
    (q : ℕ) (e : CpuStateEvent) (es : List CpuStateEvent)
    → of_socket q (e ∷ []) ++ of_socket q es ≡ of_socket q (e ∷ es)
unfolding of_socket
of_socket-append q e es = elim (Bool-cases (e.socket_id == q)) [
  | inl mine ↦ rw mine refl
  | inr other ↦ rw other refl
]

events_of-push_events :
    (q : ℕ) (es : List CpuStateEvent) (m : List (ℕ × List CpuStateEvent))
    → events_of q (push_events es m) ≡ events_of q m ++ of_socket q es
unfolding push_events
events_of-push_events q [] m = unfold of_socket in sym (append-nil (events_of q m))
events_of-push_events q (e ∷ es) m =
    events_of-push_events q es (push_event e m)
    ∙ ap (λ xs. xs ++ of_socket q es) (events_of-push_event q e m)
    ∙ append_assoc (events_of q m) (of_socket q (e ∷ [])) (of_socket q es)
    ∙ ap (λ xs. events_of q m ++ xs) (of_socket-append q e es)

events_of-taken :
    (p q : ℕ) (m : List (ℕ × List CpuStateEvent))
    → p == q ≡ false
    → events_of q (without p m) ≡ events_of q m
unfolding events_of without
events_of-taken p q [] ne = refl
events_of-taken p q ((id, es) ∷ m) ne = elim (Bool-cases (id == p)) [
  | inl first ↦ rw (first, subst (λ i. i == q ≡ false) (sym (eqb→eq id p first)) ne) refl
  | inr away ↦ elim (Bool-cases (id == q)) [
    | inl mine ↦ rw (away, mine) refl
    | inr other ↦ rw (away, other) (events_of-taken p q m ne)
  ]
]

abbrev pub IsApart : ℕ → List ℕ → Type 0
IsApart p [] = Unit
IsApart p (q ∷ qs) = (p == q ≡ false) × IsApart p qs

abbrev pub IsDistinct : List ℕ → Type 0
IsDistinct [] = Unit
IsDistinct (p ∷ ps) = IsApart p ps × IsDistinct ps

abbrev Holds : (ℕ → List CpuStateEvent) → List (ℕ × List CpuStateEvent) → List ℕ → Type 0
Holds f m [] = Unit
Holds f m (q ∷ qs) = (events_of q m ≡ f q) × Holds f m qs

Holds-taken :
    (f : ℕ → List CpuStateEvent) (m : List (ℕ × List CpuStateEvent)) (p : ℕ) (qs : List ℕ)
    → IsApart p qs
    → Holds f m qs
    → Holds f (without p m) qs
Holds-taken f m p [] a h = tt
Holds-taken f m p (q ∷ qs) a h = (events_of-taken p q m a.0 ∙ h.0, Holds-taken f m p qs a.1 h.1)

Holds-all :
    (f : ℕ → List CpuStateEvent) (m : List (ℕ × List CpuStateEvent)) (qs : List ℕ)
    → ((q : ℕ) → events_of q m ≡ f q)
    → Holds f m qs
Holds-all f m [] h = tt
Holds-all f m (q ∷ qs) h = (h q, Holds-all f m qs h)

module _ (fs fl : Float) where
  collect_events-Holds :
      (f : ℕ → List CpuStateEvent) (ids : List ℕ) (m : List (ℕ × List CpuStateEvent))
      → IsDistinct ids
      → Holds f m ids
      → (collect_events fs fl ids m).0 ≡ map f ids
  unfolding collect_events
  collect_events-Holds f [] m d h = refl
  collect_events-Holds f (p ∷ ps) m d h =
      ap₂ (λ x xs. x ∷ xs) h.0
        (collect_events-Holds f ps (without p m) d.1 (Holds-taken f m p ps d.0 h.1))

  -- Where the socket ids are distinct, each socket is given what was kept for it before, followed by
  -- those of the drained events that carry its id, in the order in which they were sent.
  pub collect_events-of_sockets :
      (ids : List ℕ) (drained : List CpuStateEvent) (m : List (ℕ × List CpuStateEvent))
      → IsDistinct ids
      → (collect_events fs fl ids (push_events drained m)).0
        ≡ map (λ q. events_of q m ++ of_socket q drained) ids
  collect_events-of_sockets ids drained m d =
      collect_events-Holds (λ q. events_of q m ++ of_socket q drained) ids (push_events drained m) d
        (Holds-all (λ q. events_of q m ++ of_socket q drained) (push_events drained m) ids
          (λ q. events_of-push_events q drained m))
