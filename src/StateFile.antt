-- ===== src/StateFile.antt =====
-- The state files of crates/whirl-core/src/state.rs as JSON: what reading one may find, and the fields
-- of its tree. The error of a file is a reason, not its wording.
pub mod Integer
pub mod Blank
pub mod Fields
pub mod Unlined
pub mod Pieces
pub mod Trees
pub mod History
pub mod Current
pub mod Favorites
pub mod Index
use whirl.Prelude.{ℕ, Text}
use whirl.Json.{Reason}

pub data StateFileError : Type 0 where
  is_empty endless : Text → StateFileError
  not_json : Text → ℕ → Reason → StateFileError
  not_an_object : Text → Text → StateFileError
  want_an_object key_missing : Text → StateFileError
  schema_missing schema_no_integer entries_missing entries_no_array dangling_no_array :
      StateFileError
  type_mismatch : (key expected found : Text) → StateFileError
  unknown_via unknown_kind : ℕ → Text → StateFileError

pub data StateFile {ℓ} (A : Type ℓ) : Type ℓ where
  read : A → StateFile A
  schema_newer : ℕ → StateFile A

pub data Answered {ℓ} (A : Type ℓ) : Type ℓ where
  ok : A → Answered A
  err : StateFileError → Answered A

infixl 5 ◌>>=◌
abbrev pub ◌>>=◌ {ℓ κ} : {A : Type ℓ} {B : Type κ} → Answered A → (A → Answered B) → Answered B
ok a >>= f = f a
err e >>= f = err e
