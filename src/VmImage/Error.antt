-- ===== src/VmImage/Error.antt =====
-- `VmBuildError` of crates/vm-image-builder/src/lib.rs, with its `Display`.
use openshell_image_builder.Base.{ℕ, suc, Option, none, some, ◌++◌}
use openshell_image_builder.Base.Int.{ℤ, pos, negsuc}
use openshell_image_builder.Text.{Text, codes, show, to_string_lossy}
use openshell_image_builder.FilePath.{FilePath}
use openshell_image_builder.Host.{IoError}

pub data VmBuildError : Type 0 where
  io : IoError → VmBuildError
  path : Text → FilePath → IoError → VmBuildError
  rootfs : FilePath → Text → VmBuildError
  unsupported : Text → VmBuildError
  multi_threaded : ℕ → VmBuildError
  krun : Text → ℤ → VmBuildError
  failed : Option ℤ → VmBuildError

unfoldable pub show_int : ℤ → Text
unfolding show
show_int (pos n) = show n
show_int (negsuc n) = codes "-" ++ show (suc n)

-- `path.display()`
unfoldable pub display_path : FilePath → Text
unfolding to_string_lossy
display_path p = to_string_lossy p

unfoldable pub display : VmBuildError → Text
unfolding show_int display_path show
display (io e) = codes "I/O error: " ++ e.message
display (path what p source) =
    what ++ (codes " '" ++ (display_path p ++ (codes "': " ++ source.message)))
display (rootfs p reason) = codes "VM rootfs '" ++ (display_path p ++ (codes "': " ++ reason))
display (unsupported reason) = codes "VM builds are not available: " ++ reason
display (multi_threaded threads) =
    codes "cannot start a VM from a process with "
    ++ (show threads
        ++ (codes " threads: libkrun is entered after fork() without exec(), "
            ++ codes "which is only safe while the process is single-threaded"))
display (krun call code) =
    codes "libkrun call " ++ (call ++ (codes " failed with code " ++ show_int code))
display (failed (some code)) = codes "VM build failed with exit code " ++ show_int code
display (failed none) = codes "VM build was terminated by a signal"

-- `Error::source`
unfoldable pub source : VmBuildError → Option IoError
source (io e) = some e
source (path what p e) = some e
source _ = none
