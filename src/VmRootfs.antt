-- ===== src/VmRootfs.antt =====
-- src/vm_rootfs.rs: the rootfs embedded in the binary, unpacked into the user's data directory.
-- `dirs::data_dir`, the process id, zstd and tar are parameters, and so are the embedded bytes and
-- their digest, which the build makes. A directory is listed once, before anything in it is removed.
pub mod Paths
pub mod Sweep
pub mod Staged
pub mod Install
pub mod Failure
pub mod Permitting
pub mod Success
pub mod Process
use openshell_image_builder.Base.{
  ℕ, Bool, true, false, not, ◌&&◌, ◌||◌, Option, none, some, List, [], ◌∷◌, ◌++◌, if◌then◌else◌,
  is_empty, Result, ok, err, map_err,
}
use openshell_image_builder.Base.Io.{Io, ◌>>=◌, ◌>>◌, lift, with_err, after, or_clean}
use openshell_image_builder.Text.{Text, codes, text_eq, trim, starts_with, show, to_string_lossy}
use openshell_image_builder.FilePath.{FilePath, join, path_eq}
use openshell_image_builder.Host.{IoError, FileSystem}
use openshell_image_builder.Dns.{Net}
use openshell_image_builder.VmImage.Error.{VmBuildError, display_path}
use openshell_image_builder.VmImage.Config.{VmConfig, new, check_rootfs}

-- What the module takes from other crates and from the process.
pub record Unpacker (fs : FileSystem) : Type 1 where
  pub Stream : Type 0
  pub data_dir : fs.State → Option FilePath
  pub process_id : ℕ
  pub decoder : List ℕ → Result IoError Stream
  pub unpack : Stream → FilePath → Io fs.State IoError (Unit {0})

-- `CARGO_PKG_VERSION`
abbrev pub version : Text
version = codes "0.13.0-next"

abbrev pub marker : Text
marker = codes ".rootfs-archive"

abbrev pub staging_prefix : Text
staging_prefix = codes ".staging-"

abbrev pub not_embedded : Text
not_embedded =
    codes "no VM rootfs is embedded in this build — "
    ++ codes "point --vm-rootfs at one, or use a release build, which carries its own"

unfoldable pub cache_key : Text → Text
cache_key digest = version ++ (codes "-" ++ trim digest)

-- `format!("{STAGING_PREFIX}{VERSION}-{}", std::process::id())`
unfoldable pub staging_name : ℕ → Text
staging_name pid = staging_prefix ++ (version ++ (codes "-" ++ show pid))

abbrev pub or_none : Option FilePath → Result Text FilePath
or_none none = err (codes "cannot locate a data directory to unpack the VM rootfs into")
or_none (some dir) = ok (join (join dir (codes "openshell-build-image")) (codes "vm-rootfs"))

-- `format!("<what> <path>: <error>")`
abbrev pub at_path : Text → FilePath → IoError → Text
at_path what p e = what ++ (codes " " ++ (display_path p ++ (codes ": " ++ e.message)))

abbrev pub matches : Text → Result IoError Text → Bool
matches key (err e) = false
matches key (ok found) = text_eq (trim found) key

abbrev pub is_ok : Result VmBuildError (Unit {0}) → Bool
is_ok (ok _) = true
is_ok (err e) = false

module _ (fs : FileSystem) where
  unfoldable pub marker_matches : FilePath → Text → fs.State → Bool
  marker_matches dir key s = matches key (fs.stat s (join dir marker)).contents

  -- One entry of the directory in the loop of `sweep_old_versions`.
  unfoldable pub sweep_entry : FilePath → FilePath → Text → fs.State → fs.State
  sweep_entry root current name s =
      let path = join root name in
      if path_eq path current || not (fs.stat s path).is_dir
      then s
      else if starts_with staging_prefix (to_string_lossy name)
      then s
      else after (fs.remove_dir_all path) s

  -- `entries.flatten()` passes over an entry that cannot be read.
  unfoldable pub sweep_entries :
      FilePath → FilePath → List (Result IoError Text) → fs.State → fs.State
  sweep_entries root current [] s = s
  sweep_entries root current (err e ∷ es) s = sweep_entries root current es s
  sweep_entries root current (ok name ∷ es) s =
      sweep_entries root current es (sweep_entry root current name s)

  abbrev sweep_listed :
      FilePath → FilePath → fs.State → Result IoError (List (Result IoError Text)) → fs.State
  sweep_listed root current s (err e) = s
  sweep_listed root current s (ok es) = sweep_entries root current es s

  unfoldable pub sweep_old_versions : FilePath → FilePath → fs.State → fs.State
  sweep_old_versions root current s = sweep_listed root current s (fs.read_dir s root)

  -- `if path.exists() { remove_dir_all(path)? }`
  abbrev pub remove_if_there : FilePath → Io fs.State IoError (Unit {0})
  remove_if_there p s = if (fs.stat s p).exists then fs.remove_dir_all p s else (ok tt, s)

  -- `marker_matches(&dir, &key) && VmConfig::new(&dir).check_rootfs().is_ok()`
  unfoldable pub is_installed : Net fs.State → FilePath → Text → fs.State → Bool
  is_installed net dir key s =
      marker_matches dir key s && is_ok (check_rootfs fs (new fs net dir s).rootfs s)

  module _ (net : Net fs.State) (unpacker : Unpacker fs) where
    unfoldable pub stage : List ℕ → Text → FilePath → Io fs.State Text (Unit {0})
    stage archive key staging = do
      with_err (at_path (codes "remove") staging) (remove_if_there staging)
      with_err (at_path (codes "create") staging) (fs.create_dir_all staging)
      decoder ← lift (
          map_err (λ (e : IoError). codes "read the embedded VM rootfs: " ++ e.message)
            (unpacker.decoder archive))
      with_err (at_path (codes "unpack the embedded VM rootfs into") staging)
          (unpacker.unpack decoder staging)
      with_err (at_path (codes "write") (join staging marker)) (fs.write (join staging marker) key)

    -- The steps of `install` after the archive is staged.
    unfoldable pub put_in_place : FilePath → FilePath → FilePath → Io fs.State Text FilePath
    put_in_place root dir staging = do
      or_clean (with_err (at_path (codes "remove stale VM rootfs") dir) (remove_if_there dir))
          (after (fs.remove_dir_all staging))
      or_clean (with_err (at_path (codes "install VM rootfs into") dir) (fs.rename staging dir))
          (after (fs.remove_dir_all staging))
      λ s. (ok dir, sweep_old_versions root dir s)

    unfoldable pub place : FilePath → FilePath → FilePath → Text → Io fs.State Text FilePath
    place root dir staging key s =
        if is_installed net dir key s
        then (ok dir, after (fs.remove_dir_all staging) s)
        else put_in_place root dir staging s

    -- The staging directory of this process.
    unfoldable pub staging_dir : FilePath → FilePath
    staging_dir root = join root (staging_name unpacker.process_id)

    unfoldable pub unpack_and_place : List ℕ → Text → FilePath → Io fs.State Text FilePath
    unpack_and_place archive key root = do
      or_clean (stage archive key (staging_dir root)) (after (fs.remove_dir_all (staging_dir root)))
      place root (join root version) (staging_dir root) key

    unfoldable pub install : List ℕ → Text → FilePath → Io fs.State Text FilePath
    install archive digest root s =
        if is_empty archive
        then (err not_embedded, s)
        else if is_installed net (join root version) (cache_key digest) s
        then (ok (join root version), s)
        else unpack_and_place archive (cache_key digest) root s

    unfoldable pub cache_root : fs.State → Result Text FilePath
    cache_root s = or_none (unpacker.data_dir s)

    unfoldable pub ensure_extracted : List ℕ → Text → Io fs.State Text FilePath
    ensure_extracted archive digest = do root ← λ s. (cache_root s, s); install archive digest root
