-- ===== src/VmImage/Config.antt =====
-- `VmConfig`, its check of the rootfs, and `VmBuild` of crates/vm-image-builder/src/lib.rs.
-- The check of the mode is under `cfg(unix)`; the model is of a Unix build.
use Prim.Native.Nat.{bit_and}
use openshell_image_builder.Base.{
  ℕ, not, Option, none, some, List, [], ◌∷◌, ◌++◌, ◌==◌, if◌then◌else◌, is_empty, Result, ok, err,
}
use openshell_image_builder.Text.{Text, codes}
use openshell_image_builder.FilePath.{FilePath, join}
use openshell_image_builder.Host.{IoError, FileSystem}
use openshell_image_builder.Dns
use openshell_image_builder.Dns.{Net, default_nameservers}
use openshell_image_builder.Dns.Addr.{IpAddr}
use openshell_image_builder.VmImage.Error.{VmBuildError, io, rootfs}

abbrev pub default_cpus : ℕ
default_cpus = 2

abbrev pub default_memory_mib : ℕ
default_memory_mib = 4096

abbrev pub vm_build_script : FilePath
vm_build_script = codes "/usr/local/bin/vm-build"

abbrev pub tag_root : Text
tag_root = codes "/dev/root"

abbrev pub tag_context : Text
tag_context = codes "openshell-context"

abbrev pub tag_output : Text
tag_output = codes "openshell-output"

abbrev pub vm_dns_env : Text
vm_dns_env = codes "OPENSHELL_VM_DNS"

abbrev pub containerfile_name : Text
containerfile_name = codes "Containerfile"

pub record VmConfig : Type 0 where
  pub rootfs : FilePath
  pub cpus : ℕ
  pub memory_mib : ℕ
  pub nameservers : List IpAddr

-- `VmConfig::new`
unfoldable pub new : (fs : FileSystem) → Net fs.State → FilePath → fs.State → VmConfig
new fs net path s = record {
  rootfs = path;
  cpus = default_cpus;
  memory_mib = default_memory_mib;
  nameservers = default_nameservers fs net s;
}

-- `trim_start_matches('/')`
unfoldable pub trim_slashes : Text → Text
trim_slashes [] = []
trim_slashes (c ∷ s) = if c == b'/' then trim_slashes s else c ∷ s

unfoldable pub helper_of : FilePath → FilePath
unfolding trim_slashes join
helper_of path = join path (trim_slashes vm_build_script)

abbrev pub not_a_directory : Text
not_a_directory = codes "not a directory — build it with vm-image/make-rootfs.sh"

abbrev missing_helper : Text
missing_helper = codes "missing /usr/local/bin/vm-build — not a build rootfs"

abbrev not_executable : Text
not_executable = codes "/usr/local/bin/vm-build is not executable"

-- `fs::metadata(&helper)?`, and the test of its execute bits.
unfoldable pub check_mode : FilePath → Result IoError ℕ → Result VmBuildError (Unit {0})
check_mode path (err e) = err (io e)
check_mode path (ok mode) =
    if bit_and mode 0o111 == 0 then err (rootfs path not_executable) else ok tt

-- `VmConfig::check_rootfs`, at the one field of the configuration that it reads. It reads the file
-- system and changes nothing.
unfoldable pub check_rootfs :
    (fs : FileSystem) → FilePath → fs.State → Result VmBuildError (Unit {0})
check_rootfs fs path s =
    if not (fs.stat s path).is_dir
    then err (rootfs path not_a_directory)
    else if not (fs.stat s (helper_of path)).is_file
    then err (rootfs path missing_helper)
    else check_mode path (fs.stat s (helper_of path)).mode

pub record VmBuild : Type 0 where
  pub rootfs : FilePath
  pub context : FilePath
  pub output_dir : FilePath
  pub output_filename : Text
  pub tag : Text
  pub cpus : ℕ
  pub memory_mib : ℕ
  pub nameservers : List IpAddr

unfoldable pub dns_env_value : {S : Type 0} → Net S → VmBuild → Option Text
dns_env_value net build =
    if is_empty build.nameservers then none else some (Dns.join net build.nameservers)

unfoldable pub containerfile_vm_path : VmBuild → Text
containerfile_vm_path build = codes "/build/context/" ++ containerfile_name

unfoldable pub output_path : VmBuild → FilePath
unfolding join
output_path build = join build.output_dir build.output_filename
