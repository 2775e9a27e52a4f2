-- ===== src/Main.antt =====
-- src/main.rs: the command line program. clap, the logger, `which`, `tempfile` and the runners are
-- parameters or left out: the record `Cli` is what clap has parsed.
pub mod Flags
pub mod OutputName
pub mod Config
pub mod Select
pub mod Run
pub mod Exit
pub mod Finished
pub mod EndToEnd
pub mod Parsed
pub mod Success
pub mod Machine
use openshell_image_builder.Base.{
  ℕ, Bool, true, false, not, ◌||◌, Option, none, some, List, [], ◌∷◌, ◌++◌, map, ◌==◌,
  if◌then◌else◌, is_empty, find, Result, ok, err, map_err,
}
use openshell_image_builder.Base.Io.{Io, ◌>>=◌, ◌>>◌, lift, with_err, finally}
use openshell_image_builder.Text.{Text, codes, is_ascii_alphanumeric}
use openshell_image_builder.FilePath.{FilePath, join}
use openshell_image_builder.Host.{IoError, FileSystem}
use openshell_image_builder.Host.Temp.{Temp}
use openshell_image_builder.Dns.{Net, default_nameservers}
use openshell_image_builder.Dns.Addr.{IpAddr, is_reachable_from_vm}
use openshell_image_builder.Containerfile
use openshell_image_builder.Containerfile.{ContainerfileError, generate}
use openshell_image_builder.ContainerImage
use openshell_image_builder.ContainerImage.{
  ContainerCli, Runner, BuildError, check_in_path, not_found_message,
}
use openshell_image_builder.VmImage.Error
use openshell_image_builder.VmImage.Error.{VmBuildError, display_path}
use openshell_image_builder.VmImage.Config.{
  VmConfig, check_rootfs, default_cpus, default_memory_mib,
}
use openshell_image_builder.VmImage.Platform.{Platform, check_supported}
use openshell_image_builder.VmImage.Build
use openshell_image_builder.VmImage.Build.{VmRunner}
use openshell_image_builder.VmRootfs.{Unpacker, ensure_extracted}

pub data Runtime : Type 0 where
  podman docker macos_container vm : Runtime

unfoldable pub container_cli : Runtime → Option ContainerCli
container_cli podman = some ContainerImage.podman
container_cli docker = some ContainerImage.docker
container_cli macos_container = some ContainerImage.macos_container
container_cli vm = none

abbrev pub is_vm : Runtime → Bool
is_vm podman = false
is_vm docker = false
is_vm macos_container = false
is_vm vm = true

pub record Cli : Type 0 where
  pub tag : Text
  pub runtime : Runtime
  pub from : Text
  pub verbose : ℕ
  pub copy_containerfile : Bool
  pub vm_rootfs : Option FilePath
  pub vm_output : Option FilePath
  pub vm_cpus : Option ℕ
  pub vm_memory : Option ℕ
  pub vm_dns : List IpAddr

abbrev pub is_some : {A : Type 0} → Option A → Bool
is_some none = false
is_some (some a) = true

unfoldable pub given : Cli → List (Text × Bool)
given cli =
    (codes "--vm-rootfs", is_some cli.vm_rootfs)
    ∷ (codes "--vm-output", is_some cli.vm_output)
    ∷ (codes "--vm-cpus", is_some cli.vm_cpus)
    ∷ (codes "--vm-memory", is_some cli.vm_memory)
    ∷ (codes "--vm-dns", not (is_empty cli.vm_dns))
    ∷ []

abbrev flag_error : Option (Text × Bool) → Result Text (Unit {0})
flag_error none = ok tt
flag_error (some (flag, present)) = err (flag ++ codes " is only supported with --runtime vm")

unfoldable pub check_vm_flags : Cli → Result Text (Unit {0})
check_vm_flags cli =
    if is_vm cli.runtime
    then ok tt
    else flag_error (find (λ (entry : Text × Bool). entry.1) (given cli))

abbrev pub unwrap_or : {A : Type 0} → A → Option A → A
unwrap_or default none = default
unwrap_or default (some a) = a

unfoldable pub safe_char : ℕ → ℕ
safe_char c = if is_ascii_alphanumeric c || c == b'.' || c == b'-' || c == b'_' then c else b'-'

unfoldable pub vm_output_path : Text → FilePath
vm_output_path tag = map safe_char tag ++ codes ".tar"

pub data Selected : Type 0 where
  cli : ContainerCli → Selected
  vm : VmConfig → FilePath → Selected

pub data Backend (S : Type 0) : Type 0 where
  cli : ContainerCli → Runner S → Backend S
  vm : VmConfig → VmRunner S → FilePath → Backend S

-- `Box<dyn Error>`, with the errors that `run` boxes.
pub data RunError : Type 0 where
  io : IoError → RunError
  containerfile : ContainerfileError → RunError
  container : BuildError → RunError
  vm : VmBuildError → RunError

unfoldable pub message : (Text → Text) → RunError → Text
message debug (io e) = e.message
message debug (containerfile e) = Containerfile.display debug e
message debug (container e) = ContainerImage.display e
message debug (vm e) = Error.display e

unfoldable pub build_summary : Selected → Option Text
build_summary (cli c) = none
build_summary (vm config output) = some (codes "Wrote " ++ display_path output)

unfoldable pub backend_for : {S : Type 0} → Runner S → VmRunner S → Selected → Backend S
backend_for container_runner krun_runner (cli c) = cli c container_runner
backend_for container_runner krun_runner (vm config output) = vm config krun_runner output

-- What the program takes from outside, on one host.
pub record Outside (fs : FileSystem) : Type 1 where
  pub net : Net fs.State
  pub unpacker : Unpacker fs
  pub temp : Temp fs.State
  pub which : fs.State → Text → Bool
  pub platform : Platform
  pub archive : List ℕ
  pub digest : Text
  pub debug : Text → Text

module _ (fs : FileSystem) (outside : Outside fs) where
  unfoldable pub unreachable_message : IpAddr → Text
  unreachable_message addr =
      codes "--vm-dns "
      ++ (outside.net.show_addr addr
          ++ (codes " cannot be reached from inside the VM: a loopback or "
              ++ codes "link-local address means the VM itself, not the host"))

  abbrev unreachable : Option IpAddr → List IpAddr → Result Text (List IpAddr)
  unreachable none dns = ok dns
  unreachable (some addr) dns = err (unreachable_message addr)

  unfoldable pub vm_nameservers : List IpAddr → fs.State → Result Text (List IpAddr)
  vm_nameservers dns s =
      if is_empty dns
      then ok (default_nameservers fs outside.net s)
      else unreachable (find (λ addr. not (is_reachable_from_vm addr)) dns) dns

  abbrev rootfs_or : Option FilePath → Io fs.State Text FilePath → Io fs.State Text FilePath
  rootfs_or none other s = other s
  rootfs_or (some rootfs) other s = (ok rootfs, s)

  unfoldable pub vm_config :
      Option FilePath → Option ℕ → Option ℕ → List IpAddr → Io fs.State Text VmConfig
  vm_config rootfs cpus memory dns = do
    nameservers ← λ s. (vm_nameservers dns s, s)
    rootfs ←
        rootfs_or rootfs
          (ensure_extracted fs outside.net outside.unpacker outside.archive outside.digest)
    λ s. (
      ok (record {
        rootfs = rootfs;
        cpus = unwrap_or default_cpus cpus;
        memory_mib = unwrap_or default_memory_mib memory;
        nameservers = nameservers;
      }),
      s,
    )

  unfoldable pub select_vm : Cli → Io fs.State Text Selected
  select_vm args = do
    config ← vm_config args.vm_rootfs args.vm_cpus args.vm_memory args.vm_dns
    λ s. (map_err Error.display (check_rootfs fs config.rootfs s), s)
    λ s. (ok (vm config (unwrap_or (vm_output_path args.tag) args.vm_output)), s)

  abbrev select_from : Option ContainerCli → Cli → Io fs.State Text Selected
  select_from (some c) args = do
    λ s. (map_err not_found_message (check_in_path outside.which c s), s)
    λ s. (ok (cli c), s)
  select_from none args = do
    lift (map_err Error.display (check_supported outside.platform))
    select_vm args

  unfoldable pub select_runtime : Cli → Io fs.State Text Selected
  select_runtime args = select_from (container_cli args.runtime) args

  -- The build that the backend makes of a Containerfile in a context directory.
  unfoldable pub build_with :
      Text → Text → FilePath → Backend fs.State → Io fs.State RunError (Unit {0})
  build_with output tag context_dir (cli c runner) =
      with_err container (ContainerImage.build outside.temp output tag c runner context_dir)
  build_with output tag context_dir (vm config runner vm_output) =
      with_err vm (Build.build fs output tag config runner context_dir vm_output)

  abbrev pub copy_into : Bool → FilePath → Text → Io fs.State RunError (Unit {0})
  copy_into copy context_dir output s =
      if copy
      then with_err io (fs.write (join context_dir (codes "build-containerfile")) output) s
      else (ok tt, s)

  -- What `run` does while it owns the context directory.
  unfoldable pub run_in :
      FilePath → Text → Text → Bool → Backend fs.State → Io fs.State RunError (Unit {0})
  run_in context_dir tag from copy_containerfile backend = do
    output ← lift (map_err containerfile (generate from copy_containerfile))
    copy_into copy_containerfile context_dir output
    build_with output tag context_dir backend

  unfoldable pub run : Text → Text → Bool → Backend fs.State → Io fs.State RunError (Unit {0})
  run tag from copy_containerfile backend = do
    context_dir ← with_err io (outside.temp.new_dir (codes "openshell-build-image"))
    finally (run_in (outside.temp.dir_path context_dir) tag from copy_containerfile backend)
        (outside.temp.drop_dir context_dir)

  -- What the process leaves: its exit code, the line on stdout and the line on stderr.
  pub record Ending : Type 0 where
    pub code : ℕ
    pub stdout : Option Text
    pub stderr : Option Text

  abbrev pub exit_with : Text → Ending
  exit_with e = record { code = 1; stdout = none; stderr = some (codes "Error: " ++ e) }

  abbrev pub exit_of : Result Text Selected × fs.State → Ending × fs.State
  exit_of (err e, s) = (exit_with e, s)
  exit_of (ok selected, s) =
      (record { code = 0; stdout = build_summary selected; stderr = none }, s)

  -- The steps of `main` up to the summary.
  unfoldable pub attempt : Runner fs.State → VmRunner fs.State → Cli → Io fs.State Text Selected
  attempt container_runner krun_runner args = do
    lift (check_vm_flags args)
    selected ← select_runtime args
    with_err (message outside.debug) (
        run args.tag args.from args.copy_containerfile
          (backend_for container_runner krun_runner selected))
    λ s. (ok selected, s)

  unfoldable pub main : Runner fs.State → VmRunner fs.State → Cli → fs.State → Ending × fs.State
  main container_runner krun_runner args s = exit_of (attempt container_runner krun_runner args s)
