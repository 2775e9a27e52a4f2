-- ===== src/VmImage/Build.antt =====
-- `build` of crates/vm-image-builder/src/lib.rs, with `write_containerfile`, `canonicalize` and the
-- trait `VmRunner`. The log line is not modelled.
use openshell_image_builder.Base.{
  true, Option, none, some, if◌then◌else◌, is_empty, Result, ok, err, map_err,
}
use openshell_image_builder.Base.Io.{Io, ◌>>=◌, ◌>>◌, lift, with_err}
use openshell_image_builder.Text.{Text, codes, to_string_lossy}
use openshell_image_builder.FilePath.{FilePath, join, file_name, parent}
use openshell_image_builder.Host.{invalid_input, FileSystem, OpenOptions}
use openshell_image_builder.VmImage.Error.{VmBuildError, io, path}
use openshell_image_builder.VmImage.Config.{VmConfig, VmBuild, check_rootfs, containerfile_name}

-- The trait `VmRunner`, over the state of the host.
pub record VmRunner (S : Type 0) : Type 0 where
  pub run : VmBuild → Io S VmBuildError (Unit {0})
  pub check_supported : Io S VmBuildError (Unit {0})

-- Written, created if missing, cut to nothing, and never through a symbolic link.
abbrev pub containerfile_options : OpenOptions
containerfile_options = record { write = true; create = true; truncate = true; nofollow = true }

-- `filter(|p| !p.as_os_str().is_empty()).unwrap_or(Path::new("."))`
abbrev pub parent_or_current : Option FilePath → FilePath
parent_or_current none = codes "."
parent_or_current (some p) = if is_empty p then codes "." else p

abbrev no_filename : FilePath → VmBuildError
no_filename output =
    path (codes "output path has no filename") output
      (record { kind = invalid_input; message = codes "no filename" })

abbrev lossy_name : FilePath → Option Text → Result VmBuildError Text
lossy_name output none = err (no_filename output)
lossy_name output (some name) = ok (to_string_lossy name)

unfoldable pub output_name : FilePath → Result VmBuildError Text
output_name output = lossy_name output (file_name output)

module _ (fs : FileSystem) where
  abbrev pub query : {A : Type 0} → (fs.State → Result VmBuildError A) → Io fs.State VmBuildError A
  query f s = (f s, s)

  unfoldable pub write_containerfile : FilePath → Text → Io fs.State VmBuildError (Unit {0})
  write_containerfile context_dir containerfile = do
    let p = join context_dir containerfile_name
    file ←
        with_err (path (codes "Containerfile in the build context") p)
          (fs.open_file containerfile_options p)
    with_err io (fs.write_all file containerfile)

  unfoldable pub canonicalize : FilePath → Text → Io fs.State VmBuildError FilePath
  canonicalize p what s = (map_err (path what p) (fs.canonicalize s p), s)

  unfoldable pub build :
      Text
      → Text
      → VmConfig
      → VmRunner fs.State
      → FilePath
      → FilePath
      → Io fs.State VmBuildError (Unit {0})
  build containerfile tag config runner context_dir output = do
    query (check_rootfs fs config.rootfs)
    write_containerfile context_dir containerfile
    rootfs ← canonicalize config.rootfs (codes "VM rootfs")
    context ← canonicalize context_dir (codes "build context")
    output_filename ← lift (output_name output)
    let output_parent = parent_or_current (parent output)
    with_err io (fs.create_dir_all output_parent)
    output_dir ← canonicalize output_parent (codes "output directory")
    runner.run (record {
      rootfs = rootfs;
      context = context;
      output_dir = output_dir;
      output_filename = output_filename;
      tag = tag;
      cpus = config.cpus;
      memory_mib = config.memory_mib;
      nameservers = config.nameservers;
    })
