-- ===== src/Topology/Attributed.antt =====
-- As many powers and times as there are cores.
use mathlib.Core.Option.{some-injective, none-ne-some}
use scaphandre.Base.{
  ℕ, suc, ◌+◌, ◌≡◌, refl, sym, ap, ap₂, ◌∙◌, inl, inr, some, List, [], ◌∷◌, map, arith,
  Option-cases, unwrap_or, length, get_elem?, length-append,
}
use scaphandre.Base.Sorting.{insert_by_key, sort_by_key}
use scaphandre.Float.{Float}
use scaphandre.Sensor.Core.{CpuCore}
use scaphandre.Sensor.Measure.{MultiValuedRecord}
use scaphandre.Sensor.Socket.{CpuSocket, get_records_diff_power_microwatts_per_domain}
use scaphandre.Text.{Text}
use scaphandre.Topology.Attribution.{process_times, core_shares, shared_powers}
use scaphandre.Topology.Shares.{
  cpu_name, socket_cores, core_coef, socket_core_coefs, proportions_of, socket_core_proportions,
  socket_core_powers, with_ids, cores_of, all_cores, powers_of, all_core_powers,
}

length-insert_by_key {ℓ} :
    {A : Type ℓ} (key : A → ℕ) (x : A) (xs : List A)
    → length (insert_by_key key x xs) ≡ suc (length xs)
unfolding insert_by_key
length-insert_by_key key x [] = refl
length-insert_by_key key x (y ∷ ys) = ground (arith, length-insert_by_key key x ys)

length-sort_by_key {ℓ} :
    {A : Type ℓ} (key : A → ℕ) (xs : List A) → length (sort_by_key key xs) ≡ length xs
unfolding sort_by_key
length-sort_by_key key [] = refl
length-sort_by_key key (x ∷ xs) =
    length-insert_by_key key x (sort_by_key key xs) ∙ ap suc (length-sort_by_key key xs)

pub length-map {ℓ κ} :
    {A : Type ℓ} {B : Type κ} (f : A → B) (xs : List A) → length (map f xs) ≡ length xs
length-map f [] = refl
length-map f (x ∷ xs) = ap suc (length-map f xs)

-- The map of the kernel part has the cores.
abbrev pub AllListed : List ℕ → List CpuCore → Type 0
AllListed deltas [] = Unit
AllListed deltas (c ∷ cs) = ((ns : ℕ) × (get_elem? deltas c.id ≡ some ns)) × AllListed deltas cs

pub process_times-total :
    (deltas : List ℕ) (cs : List CpuCore)
    → AllListed deltas cs
    → (ns : List ℕ) × (process_times deltas cs ≡ some ns) × (length ns ≡ length cs)
unfolding process_times
process_times-total deltas [] h = ([], refl, refl)
process_times-total deltas (c ∷ cs) h =
    let rest = process_times-total deltas cs h.1 in
    (h.0.0 ∷ rest.0, rw (h.0.1, rest.1) refl, ap suc rest.2)

module _ (fl : Float) where
  length-with_ids {ℓ} :
      {A : Type ℓ} (cs : List CpuCore) (xs : List A)
      → length xs ≡ length cs
      → length (with_ids fl cs xs) ≡ length cs
  unfolding with_ids
  length-with_ids [] xs e = refl
  length-with_ids (c ∷ cs) [] e = ground arith
  length-with_ids (c ∷ cs) (x ∷ xs) e = ap suc (length-with_ids cs xs (omega (arith)))

  pub length-core_shares :
      (ps ts : List ℕ) → length ps ≡ length ts → length (core_shares fl ps ts) ≡ length ts
  unfolding core_shares
  length-core_shares [] [] e = refl
  length-core_shares [] (t ∷ ts) e = ground arith
  length-core_shares (p ∷ ps) [] e = refl
  length-core_shares (p ∷ ps) (t ∷ ts) e = ap suc (length-core_shares ps ts (omega arith))

  pub shared_powers-total :
      (consos : List Text) (shares : List fl.F)
      → length consos ≡ length shares
      → (es : List fl.F) × (shared_powers fl consos shares ≡ some es)
  unfolding shared_powers
  shared_powers-total [] shares e = ([], refl)
  shared_powers-total (conso ∷ consos) [] e = ground arith
  shared_powers-total (conso ∷ consos) (share ∷ shares) e =
      let rest = shared_powers-total consos shares (omega arith) in
      (fl.mul (unwrap_or (fl.of_ℕ 0) (fl.parse_f64 conso)) share ∷ rest.0, rw rest.1 refl)

  length-proportions_of : (coefs : List fl.F) → length (proportions_of fl coefs) ≡ length coefs
  unfolding proportions_of
  length-proportions_of coefs = length-map _ coefs

  length-socket_core_proportions :
      (s : CpuSocket fl) → length (socket_core_proportions fl s) ≡ length (socket_cores fl s)
  unfolding socket_core_proportions socket_core_coefs
  length-socket_core_proportions s =
      length-proportions_of (map (core_coef fl) (socket_cores fl s))
      ∙ length-map (core_coef fl) (socket_cores fl s)

  length-socket_core_powers :
      (now : ℕ) (s : CpuSocket fl) (r : MultiValuedRecord)
      → socket_core_powers fl now s ≡ some r
      → length r.values ≡ length (socket_cores fl s)
  unfolding socket_core_powers
  length-socket_core_powers now s r e =
      elim (Option-cases (get_records_diff_power_microwatts_per_domain fl now cpu_name s)) [
        | inl no_power ↦ absurd (none-ne-some r (rw (socket_core_powers, no_power) at e))
        | inr (found, known) ↦ elim (Option-cases (fl.parse_f64 found.value)) [
          | inl no_number ↦ absurd (none-ne-some r (rw (socket_core_powers, known, no_number) at e))
          | inr (conso, number) ↦
              let shares = socket_core_proportions fl s in
              ap (λ (x : MultiValuedRecord). length x.values)
                (sym (some-injective _ r (rw (socket_core_powers, known, number) at e)))
              ∙ length-map fl.show_f64 (map (λ p. fl.mul p conso) shares)
              ∙ length-map (λ p. fl.mul p conso) shares
              ∙ length-socket_core_proportions s
        ]
      ]

  length-powers_of :
      (now : ℕ) (ss : List (CpuSocket fl)) (v : List (ℕ × Text))
      → powers_of fl now ss ≡ some v
      → length v ≡ length (cores_of fl ss)
  unfolding powers_of cores_of
  length-powers_of now [] v e = ap length (sym (some-injective _ _ e))
  length-powers_of now (s ∷ ss) v e = elim (Option-cases (socket_core_powers fl now s)) [
    | inl missing ↦ absurd (none-ne-some v (rw missing at e))
    | inr (r, known) ↦ elim (Option-cases (powers_of fl now ss)) [
      | inl no_rest ↦ absurd (none-ne-some v (rw (known, no_rest) at e))
      | inr (rest, found) ↦
          ap length (sym (some-injective _ v (rw (known, found) at e)))
          ∙ length-append (with_ids fl (socket_cores fl s) r.values) rest
          ∙ ap₂ (λ m n. m + n)
              (length-with_ids (socket_cores fl s) r.values
                (length-socket_core_powers now s r known))
              (length-powers_of now ss rest found)
          ∙ sym (length-append (socket_cores fl s) (cores_of fl ss))
    ]
  ]

  pub length-all_core_powers :
      (now : ℕ) (ss : List (CpuSocket fl)) (r : MultiValuedRecord)
      → all_core_powers fl now ss ≡ some r
      → length r.values ≡ length (all_cores fl ss)
  unfolding all_core_powers all_cores
  length-all_core_powers now ss r e = elim (Option-cases (powers_of fl now ss)) [
    | inl missing ↦ absurd (none-ne-some r (rw (all_core_powers, missing) at e))
    | inr (v, known) ↦
        ap (λ (x : MultiValuedRecord). length x.values)
          (sym (some-injective _ r (rw (all_core_powers, known) at e)))
        ∙ length-map (λ (x : ℕ × Text). x.1) (sort_by_key (λ (x : ℕ × Text). x.0) v)
        ∙ length-sort_by_key (λ (x : ℕ × Text). x.0) v
        ∙ length-powers_of now ss v known
        ∙ sym (length-sort_by_key CpuCore.id (cores_of fl ss))
  ]
