-- ===== src/Topology/Sorted.antt =====
-- The list of domain names is sorted and has each name once.
use mathlib.Core.Bool.{true≢false}
use scaphandre.Base.{
  ℕ, ◌≡◌, refl, inl, inr, Bool, true, false, ◌||◌, some, List, [], ◌∷◌, arith, Bool-cases, any,
}
use scaphandre.Float.{Float}
use scaphandre.Sensor.Domain.{Domain}
use scaphandre.Sensor.Measure.{same_text, SensorData}
use scaphandre.Sensor.Socket.{CpuSocket}
use scaphandre.Text.{Text}
use scaphandre.Topology.{Topology, build_domains_names, safe_add_domain_to_socket}
use scaphandre.Topology.Names.{text_lt, insert_name, names_of, names_of_sockets}

abbrev pub IsSortedNames : List Text → Type 0
IsSortedNames [] = Unit
IsSortedNames (n ∷ []) = Unit
IsSortedNames (n ∷ m ∷ ns) = (text_lt n m ≡ true) × IsSortedNames (m ∷ ns)

abbrev pub has_name : Text → List Text → Bool
has_name x ns = any (same_text x) ns

-- Whether a domain of the name is among the domains, and among those of the sockets
abbrev pub has_domain : {fl : Float} → Text → List (Domain fl) → Bool
has_domain x ds = any (λ d. same_text x d.name) ds

abbrev pub has_domain_in : {fl : Float} → Text → List (CpuSocket fl) → Bool
has_domain_in x ss = any (λ s. has_domain x s.domains) ss

text_lt-total : (t u : Text) → text_lt t u ≡ false → text_lt u t ≡ false → t ≡ u
unfolding text_lt
text_lt-total [] [] h k = refl
text_lt-total [] (d ∷ u) h k = absurd (true≢false h)
text_lt-total (c ∷ t) [] h k = absurd (true≢false k)
text_lt-total (c ∷ t) (d ∷ u) h k = ground (arith, text_lt-total t u)

-- What is smaller than the name and than the list stays in front of them.
front-insert_name :
    (n name : Text) (ns : List Text)
    → text_lt n name ≡ true
    → IsSortedNames (n ∷ ns)
    → IsSortedNames (insert_name name ns)
    → IsSortedNames (n ∷ insert_name name ns)
unfolding insert_name
front-insert_name n name [] h s r = (h, tt)
front-insert_name n name (m ∷ ns) h s r = elim (Bool-cases (text_lt name m)) [
  | inl before ↦ rw before (h, (rw before at r))
  | inr behind ↦ elim (Bool-cases (text_lt m name)) [
    | inl after ↦ rw (behind, after) (s.0, (rw (behind, after) at r))
    | inr same ↦ rw (behind, same) s
  ]
]

rest-IsSortedNames : (n : Text) (ns : List Text) → IsSortedNames (n ∷ ns) → IsSortedNames ns
rest-IsSortedNames n [] s = tt
rest-IsSortedNames n (m ∷ ns) s = s.1

front-IsSortedNames :
    (name n : Text) (ns : List Text)
    → text_lt name n ≡ true
    → IsSortedNames (n ∷ ns)
    → IsSortedNames (name ∷ n ∷ ns)
front-IsSortedNames name n ns h s = (h, s)

insert_name-IsSortedNames :
    (name : Text) (ns : List Text) → IsSortedNames ns → IsSortedNames (insert_name name ns)
unfolding insert_name
insert_name-IsSortedNames name [] s = tt
insert_name-IsSortedNames name (n ∷ ns) s = elim (Bool-cases (text_lt name n)) [
  | inl before ↦ rw before (front-IsSortedNames name n ns before s)
  | inr behind ↦ elim (Bool-cases (text_lt n name)) [
    | inl after ↦
        rw (behind, after)
          (front-insert_name n name ns after s
            (insert_name-IsSortedNames name ns (rest-IsSortedNames n ns s)))
    | inr same ↦ rw (behind, same) s
  ]
]

or-swap : (a b c : Bool) → (a || (b || c)) ≡ (b || (a || c))
or-swap true true c = refl
or-swap true false c = refl
or-swap false b c = refl

or-twice : (a b : Bool) → (a || b) ≡ (a || (a || b))
or-twice true b = refl
or-twice false b = refl

or_assoc : (a b c : Bool) → (a || (b || c)) ≡ ((a || b) || c)
or_assoc true b c = refl
or_assoc false b c = refl

-- The three cases of the insertion, and what each leaves of the question
has_name-insert_name :
    (x name : Text) (ns : List Text)
    → has_name x (insert_name name ns) ≡ (same_text x name || has_name x ns)
unfolding insert_name
has_name-insert_name x name [] = refl
has_name-insert_name x name (n ∷ ns) = elim (Bool-cases (text_lt name n)) [
  | inl before ↦ rw before refl
  | inr behind ↦ elim (Bool-cases (text_lt n name)) [
    | inl after ↦
        rw (behind, after, has_name-insert_name x name ns)
          (or-swap (same_text x n) (same_text x name) (has_name x ns))
    | inr same ↦
        rw (behind, same, text_lt-total name n behind same)
          (or-twice (same_text x n) (has_name x ns))
  ]
]

module _ {fl : Float} where
  has_name-names_of :
      (x : Text) (ds : List (Domain fl)) (names : List Text)
      → has_name x (names_of ds names) ≡ (has_domain x ds || has_name x names)
  unfolding names_of
  has_name-names_of x [] names = refl
  has_name-names_of x (d ∷ ds) names =
      rw (has_name-insert_name x d.name (names_of ds names), has_name-names_of x ds names)
        (or_assoc (same_text x d.name) (has_domain x ds) (has_name x names))

  has_name-names_of_sockets :
      (x : Text) (ss : List (CpuSocket fl)) → has_name x (names_of_sockets ss) ≡ has_domain_in x ss
  unfolding names_of_sockets
  has_name-names_of_sockets x [] = refl
  has_name-names_of_sockets x (s ∷ ss) =
      rw (has_name-names_of x s.domains (names_of_sockets ss), has_name-names_of_sockets x ss) refl

  names_of-IsSortedNames :
      (ds : List (Domain fl)) (names : List Text)
      → IsSortedNames names
      → IsSortedNames (names_of ds names)
  unfolding names_of
  names_of-IsSortedNames [] names s = s
  names_of-IsSortedNames (d ∷ ds) names s =
      insert_name-IsSortedNames d.name (names_of ds names) (names_of-IsSortedNames ds names s)

  names_of_sockets-IsSortedNames : (ss : List (CpuSocket fl)) → IsSortedNames (names_of_sockets ss)
  unfolding names_of_sockets
  names_of_sockets-IsSortedNames [] = tt
  names_of_sockets-IsSortedNames (s ∷ ss) =
      names_of-IsSortedNames s.domains (names_of_sockets ss) (names_of_sockets-IsSortedNames ss)

-- After `safe_add_domain_to_socket` the topology has the names of its domains in a list that is
-- strictly sorted, and a name is in that list exactly when a domain of one of the sockets has it.
pub safe_add_domain_to_socket-names :
    (fs fl : Float) (t : Topology fs fl) (socket_id domain_id : ℕ) (name uj_counter : Text)
    (buffer_max_kbytes : ℕ) (sensor_data : SensorData)
    → let after =
        safe_add_domain_to_socket fs fl socket_id domain_id name uj_counter buffer_max_kbytes
          sensor_data t in
      (names : List Text) × (after.domains_names ≡ some names)
      × IsSortedNames names
      × ((x : Text) → has_name x names ≡ has_domain_in x after.sockets)
unfolding safe_add_domain_to_socket build_domains_names
safe_add_domain_to_socket-names fs fl t socket_id domain_id name uj_counter buffer_max_kbytes
      sensor_data =
    (_, refl, names_of_sockets-IsSortedNames _, λ x. has_name-names_of_sockets x _)
