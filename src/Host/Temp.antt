-- ===== src/Host/Temp.antt =====
-- The crate `tempfile`: files and directories that are removed when their owner is dropped.
use openshell_image_builder.Base.Io.{Io}
use openshell_image_builder.Text.{Text}
use openshell_image_builder.FilePath.{FilePath}
use openshell_image_builder.Host.{IoError}

pub record Temp (S : Type 0) : Type 1 where
  pub TempFile : Type 0
  pub TempDir : Type 0
  pub new_file : Io S IoError TempFile
  pub file_path : TempFile → FilePath
  pub write_all : TempFile → Text → Io S IoError (Unit {0})
  pub drop_file : TempFile → S → S
  pub new_dir : Text → Io S IoError TempDir
  pub dir_path : TempDir → FilePath
  pub drop_dir : TempDir → S → S
