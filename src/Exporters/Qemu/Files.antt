-- ===== src/Exporters/Qemu/Files.antt =====
-- The file system that the qemu exporter writes to: the calls of `std::fs` that it makes, as an interface,
-- and what they do where no call fails.
use scaphandre.Base.{◌≡◌, Bool, Option, some}
use scaphandre.Text.{Text}

pub record FileSystem : Type 1 where
  pub State : Type 0
  -- Whether `fs::read_dir` can read the path
  pub is_dir : Text → State → Bool
  -- `fs::create_dir_all`, where it succeeds
  pub create_dir_all : Text → State → Option State
  -- `fs::read_to_string`, where it succeeds
  pub read_to_string : Text → State → Option Text
  -- `fs::write`, and whether it succeeds
  pub write : Text → Text → State → State × Bool

-- Every call succeeds: a new folder changes no file, and what is written is read back.
module _ (files : FileSystem) where
  open files use {State, create_dir_all, read_to_string, write}

  pub record FileLaws : Type 0 where
    pub created : (path : Text) (s : State) → (s' : State) × (create_dir_all path s ≡ some s')
    pub read-created :
        (path file : Text) (s s' : State)
        → create_dir_all path s ≡ some s'
        → read_to_string file s' ≡ read_to_string file s
    pub read-written :
        (file content : Text) (s : State)
        → read_to_string file (write file content s).0 ≡ some content
