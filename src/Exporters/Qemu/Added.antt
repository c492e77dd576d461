-- ===== src/Exporters/Qemu/Added.antt =====
-- The energy that the file of a virtual machine has after additions (`add_or_create`).
use scaphandre.Base.{
  ℕ, ◌+◌, ◌%◌, ◌<◌, ◌≡◌, refl, ap, ◌∙◌, inl, inr, Bool, Option, none, some, List, [], ◌∷◌, arith,
  Bool-cases, bind-some, u64_mod, ◌>>=◌,
}
use scaphandre.Exporters.Qemu.{new_content, ensure_folder, energy_file, add_or_create}
use scaphandre.Exporters.Qemu.Files.{FileSystem, FileLaws}
use scaphandre.Text.{Text, show}
use scaphandre.Text.RoundTrip.{parse-show}

abbrev pub sum : List ℕ → ℕ
sum [] = 0
sum (n ∷ ns) = n + sum ns

zero_add : (n : ℕ) → 0 + n ≡ n
zero_add n = omega arith

add_zero : (n : ℕ) → n + 0 ≡ n
add_zero n = omega arith

add_assoc : (a b c : ℕ) → a + b + c ≡ a + (b + c)
add_assoc a b c = omega arith

new_content-show : (m n : ℕ) → n + m < u64_mod → new_content m (some (show n)) ≡ some (n + m)
unfolding new_content
new_content-show m n h = rw (parse-show u64_mod n (omega arith)) (ap some (below n m h))
  where
    below : (n m : ℕ) → n + m < u64_mod → (n + m) % u64_mod ≡ n + m
    below n m h = ground arith

module _ (files : FileSystem) where
  open files use {State, is_dir, create_dir_all, read_to_string, write}

  -- Additions to one file, one after the other; `none` is a panic
  unfoldable pub add_all : Text → List ℕ → State → Option State
  add_all path [] s = some s
  add_all path (n ∷ ns) s = do r ← add_or_create files path n s; add_all path ns r.0

module _ (files : FileSystem) (laws : FileLaws files) where
  open files use {State, is_dir, create_dir_all, read_to_string, write}

  -- The folder is there, and no file has changed.
  ensure_folder-total :
      (path : Text) (s : State)
      → (s' : State) × (ensure_folder files path s ≡ some s')
        × ((file : Text) → read_to_string file s' ≡ read_to_string file s)
  unfolding ensure_folder
  ensure_folder-total path s = elim (Bool-cases (is_dir path s)) [
    | inl there ↦ (s, rw there refl, λ file. refl)
    | inr missing ↦
        let made = laws.created path s in
        (made.0, rw missing made.1, λ file. laws.read-created path file s made.0 made.1)
  ]

  -- The file holds the new content after an addition.
  add_or_create-writes :
      (path : Text) (m content : ℕ) (s : State)
      → new_content m (read_to_string (energy_file files path) s) ≡ some content
      → (r : State × Bool) × (add_or_create files path m s ≡ some r)
        × (read_to_string (energy_file files path) r.0 ≡ some (show content))
  unfolding add_or_create
  add_or_create-writes path m content s e =
      let made = ensure_folder-total path s in
      (
        write (energy_file files path) (show content) made.0,
        bind-some _ made.1
            (bind-some _ (ap (new_content m) (made.2 (energy_file files path)) ∙ e) refl),
        laws.read-written (energy_file files path) (show content) made.0,
      )

  add_all-adds :
      (path : Text) (ns : List ℕ) (n : ℕ) (s : State)
      → read_to_string (energy_file files path) s ≡ some (show n)
      → n + sum ns < u64_mod
      → (s' : State) × (add_all files path ns s ≡ some s')
        × (read_to_string (energy_file files path) s' ≡ some (show (n + sum ns)))
  unfolding add_all
  add_all-adds path [] n s e h = (s, refl, rw (add_zero n) e)
  add_all-adds path (m ∷ ns) n s e h =
      let first =
        add_or_create-writes path m (n + m) s
          (ap (new_content m) e ∙ new_content-show m n (omega arith)) in
      let rest = add_all-adds path ns (n + m) first.0.0 first.2 (omega arith) in
      (
        rest.0,
        bind-some _ first.1 rest.1,
        rest.2 ∙ ap (λ k. some (show k)) (add_assoc n m (sum ns)),
      )

  -- Where no call of the file system fails, a virtual machine that has no file yet has one after
  -- additions to it, without a panic; it holds the sum of all additions but the first, which is lost,
  -- as long as that sum fits in 64 bits.
  pub add_all-sum :
      (path : Text) (n : ℕ) (ns : List ℕ) (s : State)
      → read_to_string (energy_file files path) s ≡ none
      → sum ns < u64_mod
      → (s' : State) × (add_all files path (n ∷ ns) s ≡ some s')
        × (read_to_string (energy_file files path) s' ≡ some (show (sum ns)))
  unfolding add_all
  add_all-sum path n ns s e h =
      let first =
        add_or_create-writes path n 0 s (ap (new_content n) e ∙ unfold new_content in refl) in
      let rest = add_all-adds path ns 0 first.0.0 first.2 (omega arith) in
      (rest.0, bind-some _ first.1 rest.1, rest.2 ∙ ap (λ k. some (show k)) (zero_add (sum ns)))
