-- ===== src/Kernel/PerCpu.antt =====
-- The maps of the kernel that the handlers use, with what is documented of them.
-- `Hash` is a `PerCpuHashMap<u32, u64>`, in which each key has one value for each CPU; `Array` is an
-- `Array` of numbers.
use scaphandre.Base.{ℕ, ◌≡◌, Bool, true, false, Option, none, some, ◌==◌}

pub record Maps : Type 1 where
  pub Hash : Type 0
  -- `get_ptr` on a CPU, of a key, read
  pub slot : ℕ → ℕ → Hash → Option ℕ
  -- A write of a value through `get_ptr_mut` on a CPU, of a key
  pub store : ℕ → ℕ → ℕ → Hash → Hash
  -- `insert` on a CPU, of a key and a value; a full map does not change
  pub insert : ℕ → ℕ → ℕ → Hash → Hash
  pub has_room : ℕ → Hash → Bool
  -- `remove` of a key, which is of all CPUs
  pub remove : ℕ → Hash → Hash
  pub Array : Type 0
  pub at : ℕ → Array → Option ℕ
  pub put : ℕ → ℕ → Array → Array
  pub slot-store_same :
      (cpu key v old : ℕ) (h : Hash)
      → slot cpu key h ≡ some old
      → slot cpu key (store cpu key v h) ≡ some v
  pub slot-insert_same :
      (cpu key v : ℕ) (h : Hash)
      → has_room key h ≡ true
      → slot cpu key (insert cpu key v h) ≡ some v
  -- A key that is new on one CPU has 0 on the others.
  pub slot-insert_new :
      (cpu other key v : ℕ) (h : Hash)
      → has_room key h ≡ true
      → cpu == other ≡ false
      → slot cpu key h ≡ none
      → slot other key (insert cpu key v h) ≡ some 0
  pub slot-insert_kept :
      (cpu other key v old : ℕ) (h : Hash)
      → cpu == other ≡ false
      → slot other key h ≡ some old
      → slot other key (insert cpu key v h) ≡ some old
  pub slot-insert_other :
      (cpu other key key' v : ℕ) (h : Hash)
      → key == key' ≡ false
      → slot other key' (insert cpu key v h) ≡ slot other key' h
  pub slot-remove_same : (cpu key : ℕ) (h : Hash) → slot cpu key (remove key h) ≡ none
  pub slot-remove_other :
      (cpu key key' : ℕ) (h : Hash)
      → key == key' ≡ false
      → slot cpu key' (remove key h) ≡ slot cpu key' h
  pub at-put_same : (i v old : ℕ) (a : Array) → at i a ≡ some old → at i (put i v a) ≡ some v
  pub at-put_other : (i j v : ℕ) (a : Array) → i == j ≡ false → at j (put i v a) ≡ at j a
