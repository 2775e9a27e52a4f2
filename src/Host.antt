-- ===== src/Host.antt =====
-- The host as the program sees it: the file system behind `std::fs` and `std::path`, whose code is
-- not part of the repository. Every component takes it as a parameter.
pub mod Laws
pub mod Memory
pub mod Temp
use openshell_image_builder.Base.{ℕ, Bool, true, false, Option, List, Result, ok, err}
use openshell_image_builder.Base.Io.{Io}
use openshell_image_builder.Text.{Text, codes}
use openshell_image_builder.FilePath.{FilePath}

-- The kinds of `std::io::ErrorKind` that the program tells apart or makes itself.
pub data ErrorKind : Type 0 where
  not_found interrupted invalid_input other : ErrorKind

-- `std::io::Error`: its kind, and what `Display` shows.
pub record IoError : Type 0 where
  pub kind : ErrorKind
  pub message : Text

-- The answers to the queries on one path: `is_dir`, `is_file`, `exists`,
-- `metadata(..).permissions().mode()` and `read_to_string`.
pub record Stat : Type 0 where
  pub is_dir : Bool
  pub is_file : Bool
  pub exists : Bool
  pub mode : Result IoError ℕ
  pub contents : Result IoError Text

abbrev pub no_entry : IoError
no_entry = record { kind = not_found; message = codes "No such file or directory" }

-- What the queries answer where there is nothing.
abbrev pub absent : Stat
absent = record {
  is_dir = false;
  is_file = false;
  exists = false;
  mode = err no_entry;
  contents = err no_entry;
}

-- `std::fs::OpenOptions`, with the flag that `custom_flags` sets.
pub record OpenOptions : Type 0 where
  pub write : Bool
  pub create : Bool
  pub truncate : Bool
  pub nofollow : Bool

pub record FileSystem : Type 1 where
  pub State : Type 0
  pub Handle : Type 0
  pub stat : State → FilePath → Stat
  pub canonicalize : State → FilePath → Result IoError FilePath
  -- the names of the entries, or the error met at one
  pub read_dir : State → FilePath → Result IoError (List (Result IoError Text))
  pub create_dir_all : FilePath → Io State IoError (Unit {0})
  pub remove_dir_all : FilePath → Io State IoError (Unit {0})
  pub rename : FilePath → FilePath → Io State IoError (Unit {0})
  -- `fs::write(path, text)`
  pub write : FilePath → Text → Io State IoError (Unit {0})
  pub open_file : OpenOptions → FilePath → Io State IoError Handle
  pub write_all : Handle → Text → Io State IoError (Unit {0})
