-- ===== src/Float.antt =====
-- `f64`, which the language gives and the kernel has no counterpart of: its type and the operations
-- that the code uses are a parameter, with the documented facts about the saturating cast.
pub mod Fractions
use scaphandre.Base.{ℕ, ◌^◌, ◌<◌, Bool, Option}
use scaphandre.Text.{Text}

pub record Float : Type 1 where
  pub F : Type 0
  -- `n as f64`
  pub of_ℕ : ℕ → F
  -- `Duration::as_secs_f64`, of a duration in nanoseconds
  pub as_secs_f64 : ℕ → F
  pub add : F → F → F
  pub sub : F → F → F
  pub mul : F → F → F
  pub div : F → F → F
  pub powf : F → F → F
  -- `a < b` and `a == b`
  pub lt : F → F → Bool
  pub eq : F → F → Bool
  -- `x as u64`: saturates at both ends, and takes a NaN to 0
  pub to_u64 : F → ℕ
  pub parse_f64 : Text → Option F
  pub show_f64 : F → Text
  pub to_u64_lt : (x : F) → to_u64 x < 2 ^ 64
