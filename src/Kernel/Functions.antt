-- ===== src/Kernel/Functions.antt =====
-- Maps as functions, which are never full: an instance of the interface.
use mathlib.Core.Option.{none-ne-some, some-ne-none}
use scaphandre.Base.{
  ℕ, ◌≡◌, refl, ap, true, false, Option, none, some, ◌==◌, if◌then◌else◌, eqb_refl, unwrap_or,
  map_option,
}
use scaphandre.Kernel.PerCpu.{Maps}

abbrev pub Slots : Type 0
Slots = ℕ → Option (ℕ → ℕ)

abbrev pub written : ℕ → ℕ → (ℕ → ℕ) → ℕ → ℕ
written cpu v f c = if cpu == c then v else f c

abbrev pub f_slot : ℕ → ℕ → Slots → Option ℕ
f_slot cpu key h = map_option (λ f. f cpu) (h key)

abbrev pub f_store : ℕ → ℕ → ℕ → Slots → Slots
f_store cpu key v h key' = if key == key' then map_option (written cpu v) (h key) else h key'

abbrev pub f_insert : ℕ → ℕ → ℕ → Slots → Slots
f_insert cpu key v h key' =
    if key == key' then some (written cpu v (unwrap_or (λ c. 0) (h key))) else h key'

abbrev pub f_remove : ℕ → Slots → Slots
f_remove key h key' = if key == key' then none else h key'

abbrev pub f_put : ℕ → ℕ → (ℕ → Option ℕ) → ℕ → Option ℕ
f_put i v a j = if i == j then map_option (λ old. v) (a i) else a j

of_written :
    (cpu v old : ℕ) (o : Option (ℕ → ℕ))
    → map_option (λ (f : ℕ → ℕ). f cpu) o ≡ some old
    → map_option (λ (f : ℕ → ℕ). f cpu) (map_option (written cpu v) o) ≡ some v
of_written cpu v old none e = absurd (none-ne-some old e)
of_written cpu v old (some f) e = rw (eqb_refl cpu) refl

of_none :
    (cpu other : ℕ) (o : Option (ℕ → ℕ))
    → map_option (λ (f : ℕ → ℕ). f cpu) o ≡ none
    → unwrap_or (λ c. 0) o other ≡ 0
of_none cpu other none e = refl
of_none cpu other (some f) e = absurd (some-ne-none (f cpu) e)

of_some :
    (other old : ℕ) (o : Option (ℕ → ℕ))
    → map_option (λ (f : ℕ → ℕ). f other) o ≡ some old
    → some (unwrap_or (λ c. 0) o other) ≡ some old
of_some other old none e = absurd (none-ne-some old e)
of_some other old (some f) e = e

pub slot-store :
    (cpu key v old : ℕ) (h : Slots)
    → f_slot cpu key h ≡ some old
    → f_slot cpu key (f_store cpu key v h) ≡ some v
slot-store cpu key v old h e = rw (eqb_refl key) (of_written cpu v old (h key) e)

pub slot-insert : (cpu key v : ℕ) (h : Slots) → f_slot cpu key (f_insert cpu key v h) ≡ some v
slot-insert cpu key v h = rw (eqb_refl key, eqb_refl cpu) refl

pub slot-new :
    (cpu other key v : ℕ) (h : Slots)
    → cpu == other ≡ false
    → f_slot cpu key h ≡ none
    → f_slot other key (f_insert cpu key v h) ≡ some 0
slot-new cpu other key v h ne e = rw (eqb_refl key, ne) (ap some (of_none cpu other (h key) e))

pub slot-kept :
    (cpu other key v old : ℕ) (h : Slots)
    → cpu == other ≡ false
    → f_slot other key h ≡ some old
    → f_slot other key (f_insert cpu key v h) ≡ some old
slot-kept cpu other key v old h ne e = rw (eqb_refl key, ne) (of_some other old (h key) e)

pub put-same : (i v old : ℕ) (a : ℕ → Option ℕ) → a i ≡ some old → f_put i v a i ≡ some v
put-same i v old a e = rw (eqb_refl i, e) refl

abbrev pub functions : Maps
functions = record {
  Hash = Slots;
  slot = f_slot;
  store = f_store;
  insert = f_insert;
  has_room = λ key h. true;
  remove = f_remove;
  Array = ℕ → Option ℕ;
  at = λ i a. a i;
  put = f_put;
  slot-store_same = slot-store;
  slot-insert_same = λ cpu key v h room. slot-insert cpu key v h;
  slot-insert_new = λ cpu other key v h room ne e. slot-new cpu other key v h ne e;
  slot-insert_kept = slot-kept;
  slot-insert_other = λ cpu other key key' v h ne. rw ne refl;
  slot-remove_same = λ cpu key h. rw (eqb_refl key) refl;
  slot-remove_other = λ cpu key key' h ne. rw ne refl;
  at-put_same = put-same;
  at-put_other = λ i j v a ne. rw ne refl;
}
