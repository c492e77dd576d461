-- ===== src/Buffer/Newest.antt =====
-- A record buffer through a history of refreshes: it holds the newest readings, in order.
use mathlib.Core.List.{append_assoc, append-nil}
use native.Mathlib.Nat.{le_of_mul-le-mul_left}
use scaphandre.Base.{
  ℕ, ◌+◌, ◌*◌, ◌^◌, ◌≤◌, ◌<◌, ◌≡◌, refl, sym, ap, ◌∙◌, ◌⊎◌, inl, inr, Option, none, some, List, [],
  ◌∷◌, ◌++◌, arith, length, last, before_last, length-append, last-append, last-append_right,
  before_last-append_right, before_last-push,
}
use scaphandre.Buffer.{
  limit_bytes, clean_old_records, push_reading, clean_unless_empty, refresh_buffer,
}
use scaphandre.Buffer.Bounds.{IsCut, clean_old_records-IsCut}
-- A cut never takes the two newest elements away, where the limit is an element at least.
use scaphandre.Base.{
  ℕ, ◌+◌, ◌*◌, ◌≤◌, ◌<◌, ◌≡◌, ◌⊎◌, inl, inr, Option, none, some, List, [], ◌∷◌, length, last,
  before_last,
}
use scaphandre.Buffer.{clean_old_records, refresh_buffer}
use scaphandre.Buffer.Bounds.{IsCut}

IsCut-newest {ℓ} :
    {A : Type ℓ} (size limit : ℕ) {before after : List A}
    → IsCut size limit before after
    → size ≤ limit
    → 0 < size
    → (last after ≡ last before) × (before_last after ≡ before_last before)
IsCut-newest size limit {before} {after} c h positive = cases c.kept
  where
    cases :
        (c.older ≡ []) ⊎ (limit + size ≤ size * length after)
        → (last after ≡ last before) × (before_last after ≡ before_last before)
    cases (inl none_gone) =
        let e : before ≡ after = c.splits ∙ ap (λ o. o ++ after) none_gone in rw e (refl, refl)
    cases (inr enough) =
        let two : 2 ≤ length after =
          le_of_mul-le-mul_left {m = 2} {n = length after} {k = size} (omega arith) positive in
        rw c.splits (
          sym (last-append_right c.older after (omega arith)),
          sym (before_last-append_right c.older after two),
        )

module _ {ℓ} {A : Type ℓ} (size kbytes : ℕ) where
  abbrev refresh : Option A → List A → List A
  refresh = refresh_buffer (clean_old_records size kbytes)

  -- The buffer after the readings, the oldest reading first.
  pub history : List (Option A) → List A → List A
  history [] buffer = buffer
  history (r ∷ rs) buffer = history rs (refresh r buffer)

  -- The readings that succeeded.
  abbrev pub successes : List (Option A) → List A
  successes [] = []
  successes (none ∷ rs) = successes rs
  successes (some r ∷ rs) = r ∷ successes rs

  refresh-IsCut :
      (reading : Option A) (buffer : List A)
      → 0 < size
      → size * length (push_reading reading buffer) < 2 ^ 24
      → IsCut size (limit_bytes kbytes) (push_reading reading buffer) (refresh reading buffer)
  unfolding refresh_buffer
  refresh-IsCut reading buffer positive small = pushed (push_reading reading buffer) small
    where
      pushed :
          (b : List A)
          → size * length b < 2 ^ 24
          → IsCut size (limit_bytes kbytes) b (clean_unless_empty (clean_old_records size kbytes) b)
      pushed [] h = record { older = []; splits = refl; bound = omega arith; kept = inl refl }
      pushed (x ∷ xs) h = clean_old_records-IsCut size kbytes (x ∷ xs) positive h

  pub refresh_newest :
      (reading previous : A) (buffer : List A)
      → 0 < size
      → size ≤ limit_bytes kbytes
      → size * (length buffer + 1) < 2 ^ 24
      → last buffer ≡ some previous
      → let after = refresh_buffer (clean_old_records size kbytes) (some reading) buffer in
        (last after ≡ some reading) × (before_last after ≡ some previous)
  refresh_newest reading previous buffer positive room small e =
      let c =
        refresh-IsCut (some reading) buffer positive
          (rw (length-append buffer (reading ∷ [])) small) in
      let n = IsCut-newest size (limit_bytes kbytes) c room positive in
      (n.0 ∙ last-append buffer reading, n.1 ∙ before_last-push buffer reading ∙ e)

  pub refresh_last :
      (reading : A) (buffer : List A)
      → 0 < size
      → size ≤ limit_bytes kbytes
      → size * (length buffer + 1) < 2 ^ 24
      → let after = refresh_buffer (clean_old_records size kbytes) (some reading) buffer in
        (last after ≡ some reading) × (size * length after < limit_bytes kbytes + 2 * size)
  refresh_last reading buffer positive room small =
      let c =
        refresh-IsCut (some reading) buffer positive
          (rw (length-append buffer (reading ∷ [])) small) in
      (
        (IsCut-newest size (limit_bytes kbytes) c room positive).0 ∙ last-append buffer reading,
        c.bound,
      )

  -- Cleaning alone keeps the newest element too, and the bound.
  pub clean_newest :
      (buffer : List A)
      → 0 < size
      → size ≤ limit_bytes kbytes
      → size * length buffer < 2 ^ 24
      → let after = clean_unless_empty (clean_old_records size kbytes) buffer in
        (last after ≡ last buffer) × (size * length after < limit_bytes kbytes + 2 * size)
  unfolding refresh_buffer
  clean_newest buffer positive room small =
      let c = refresh-IsCut none buffer positive small in
      ((IsCut-newest size (limit_bytes kbytes) c room positive).0, c.bound)

  pub refresh_buffer-some :
      (reading : A) (buffer : List A)
      → refresh_buffer (clean_old_records size kbytes) (some reading) buffer
        ≡ clean_old_records size kbytes (buffer ++ reading ∷ [])
  unfolding refresh_buffer
  refresh_buffer-some reading [] = refl
  refresh_buffer-some reading (x ∷ xs) = refl

  length_pushed :
      (r : Option A) (b : List A)
      → size < 2 ^ 16
      → size * length b < limit_bytes kbytes + 2 * size
      → size * length (push_reading r b) < 2 ^ 24
  length_pushed none b h k = omega arith
  length_pushed (some r) b h k = rw (length-append b (r ∷ [])) (omega arith)

  pushed-successes :
      (r : Option A) (rs : List (Option A)) (b : List A)
      → b ++ successes (r ∷ rs) ≡ push_reading r b ++ successes rs
  pushed-successes none rs b = refl
  pushed-successes (some r) rs b = sym (append_assoc b (r ∷ []) (successes rs))

  history_from :
      (rs : List (Option A)) (b : List A)
      → 0 < size
      → size < 2 ^ 16
      → size * length b < limit_bytes kbytes + 2 * size
      → (older : List A) × (b ++ successes rs ≡ older ++ history rs b)
        × (size * length (history rs b) < limit_bytes kbytes + 2 * size)
  unfolding history
  history_from [] b positive width h = ([], append-nil b, h)
  history_from (r ∷ rs) b positive width h =
      let c = refresh-IsCut r b positive (length_pushed r b width h) in
      let (older, e, bound) = history_from rs (refresh r b) positive width c.bound in
      (
        c.older ++ older,
        pushed-successes r rs b
            ∙ ap (λ xs. xs ++ successes rs) c.splits
            ∙ append_assoc c.older (refresh r b) (successes rs)
            ∙ ap (λ xs. c.older ++ xs) e
            ∙ sym (append_assoc c.older older (history rs (refresh r b))),
        bound,
      )

  -- After any readings, some of them failed, the buffer holds the newest of the successful ones in
  -- their order, and takes less than the limit and two elements more.
  pub history_newest :
      (readings : List (Option A))
      → 0 < size
      → size < 2 ^ 16
      → (older : List A) × (successes readings ≡ older ++ history readings [])
        × (size * length (history readings []) < limit_bytes kbytes + 2 * size)
  history_newest readings positive width = history_from readings [] positive width (omega arith)
