-- ===== src/VmImage/Platform.antt =====
-- `KrunRunner` of crates/vm-image-builder/src/lib.rs: what the `cfg` attributes choose by target and
-- feature.
use openshell_image_builder.Base.{Bool, ◌&&◌, if◌then◌else◌, Result, ok, err}
use openshell_image_builder.Text.{codes}
use openshell_image_builder.VmImage.Error.{VmBuildError, unsupported}

-- The target is macOS on AArch64, and the feature `krun` is on.
pub record Platform : Type 0 where
  pub apple_silicon : Bool
  pub feature_krun : Bool

abbrev pub is_supported : Platform → Bool
is_supported platform = platform.feature_krun && platform.apple_silicon

-- Where libkrun is there, the default of the trait stands.
unfoldable pub check_supported : Platform → Result VmBuildError (Unit {0})
check_supported platform =
    if is_supported platform
    then ok tt
    else if platform.apple_silicon
    then err (unsupported (codes "this binary was built without the 'vm' feature"))
    else err (unsupported (codes "libkrun requires macOS on Apple Silicon"))
