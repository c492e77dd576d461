-- ===== src/Buffer.antt =====
-- The measurement buffers of scaphandre/src/sensors/mod.rs: every `Vec` of records is cut back
-- after a push, by the bytes that its elements take. `size` stands for `size_of_val` of an
-- element, which the compiler's layout fixes; `kbytes` is the field `buffer_max_kbytes: u16`.
-- The removed elements are only logged.
pub mod Bounds
pub mod Newest
pub mod Back
mod Examples
use scaphandre.Base.{
  ℕ, zero, suc, ◌-◌, ◌*◌, ◌%◌, Option, none, some, List, [], ◌∷◌, ◌++◌, ltb, if◌then◌else◌, length,
  pop, u16_mod,
}
use scaphandre.F32.{quotient_as_usize, quotient_as_u32}

-- `buffer_max_kbytes * 1000`, a product of `u16` values
abbrev pub limit_bytes : ℕ → ℕ
limit_bytes kbytes = (kbytes * 1000) % u16_mod

module _ {ℓ} {A : Type ℓ} where
  -- `for _ in 0..n { if !buffer.is_empty() { buffer.remove(0); } }`
  unfoldable pub remove_front : ℕ → List A → List A
  remove_front zero xs = xs
  remove_front (suc n) [] = remove_front n []
  remove_front (suc n) (x ∷ xs) = remove_front n xs

  -- `for _ in 0..n { if !buffer.is_empty() { buffer.pop(); } }`
  unfoldable pub remove_back : ℕ → List A → List A
  remove_back zero xs = xs
  remove_back (suc n) xs = remove_back n (pop xs)

  -- `clean_old_records` of `Domain` and `CPUCore`, and each of the two halves of `CPUSocket`'s:
  -- the loop runs over `1..nb_records_to_delete as u32`
  unfoldable pub clean_old_records : ℕ → ℕ → List A → List A
  unfolding remove_front
  clean_old_records size kbytes buffer =
      let curr_size = size * length buffer in
      if ltb (limit_bytes kbytes) curr_size
      then (let size_diff = curr_size - limit_bytes kbytes in
          if ltb size size_diff
          then remove_front (quotient_as_u32 size_diff size - 1) buffer
          else buffer)
      else buffer

  -- `clean_old_records` of `Topology`: the test reads the size `as u16`
  unfoldable pub clean_topology_records : ℕ → ℕ → List A → List A
  unfolding remove_front
  clean_topology_records size kbytes buffer =
      let curr_size = size * length buffer in
      if ltb (limit_bytes kbytes) (curr_size % u16_mod)
      then (let size_diff = curr_size - limit_bytes kbytes in
          if ltb size size_diff
          then remove_front (quotient_as_u32 size_diff size - 1) buffer
          else buffer)
      else buffer

  -- `clean_old_cpu_time_records` of `Topology`: the loop runs over `0..nb_to_delete`, the
  -- quotient being cast to `usize`
  unfoldable pub clean_old_cpu_time_records : ℕ → ℕ → List A → List A
  unfolding remove_front
  clean_old_cpu_time_records size kbytes buffer =
      let curr_size = size * length buffer in
      if ltb (limit_bytes kbytes) curr_size
      then (let size_diff = curr_size - limit_bytes kbytes in
          if ltb size size_diff
          then remove_front (quotient_as_usize size_diff size) buffer
          else buffer)
      else buffer

  -- `clean_old_stats` of `Topology` and of `CPUSocket`: the newest element is the first one
  unfoldable pub clean_old_stats : ℕ → ℕ → List A → List A
  unfolding remove_back
  clean_old_stats size kbytes buffer =
      let curr_size = size * length buffer in
      if ltb (limit_bytes kbytes) curr_size
      then (let size_diff = curr_size - limit_bytes kbytes in
          if ltb size size_diff
          then remove_back (quotient_as_u32 size_diff size - 1) buffer
          else buffer)
      else buffer

  -- The shape of every `refresh_record`: a reading is pushed, a failed one is only logged, and a
  -- buffer that is not empty is cleaned.
  abbrev pub push_reading : Option A → List A → List A
  push_reading none buffer = buffer
  push_reading (some reading) buffer = buffer ++ reading ∷ []

  abbrev pub clean_unless_empty : (List A → List A) → List A → List A
  clean_unless_empty clean [] = []
  clean_unless_empty clean (x ∷ xs) = clean (x ∷ xs)

  unfoldable pub refresh_buffer : (List A → List A) → Option A → List A → List A
  refresh_buffer clean reading buffer = clean_unless_empty clean (push_reading reading buffer)
