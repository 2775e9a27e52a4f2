-- ===== src/Conformance/Program.antt =====
-- What the tests of src/main.rs share: the host, with nothing embedded and podman in the search path,
-- and the runners.
use openshell_image_builder.Base.{
  ℕ, Bool, true, false, not, ◌&&◌, Option, none, some, List, [], ◌∷◌, ◌++◌, if◌then◌else◌, Result,
  ok, err,
}
use openshell_image_builder.Text.{Text, codes, text_eq}
use openshell_image_builder.FilePath.{FilePath, join}
use openshell_image_builder.Host.{IoError, other}
use openshell_image_builder.ContainerImage.{Runner, ExitStatus}
use openshell_image_builder.VmImage.Error
use openshell_image_builder.VmImage.Error.{VmBuildError}
use openshell_image_builder.VmImage.Config.{VmBuild}
use openshell_image_builder.VmImage.Build.{VmRunner}
use openshell_image_builder.VmImage.Platform.{Platform}
use openshell_image_builder.Main.{Runtime, Cli, Outside, Backend, RunError, run}
use openshell_image_builder.Dns.Addr.{IpAddr}
use openshell_image_builder.Conformance.Asserts.{contains}
use openshell_image_builder.Conformance.Addresses.{net}
use openshell_image_builder.Conformance.World.{
  Bench, fs, temp, bench, contents_at, after_flag, exit_with,
}
use openshell_image_builder.Conformance.VmRootfs.{unpacker}

abbrev pub quoted : Text → Text
quoted s = codes "\"" ++ (s ++ codes "\"")

abbrev pub outside_on : Platform → Outside fs
outside_on platform = record {
  net = net;
  unpacker = unpacker;
  temp = temp;
  which = λ s name. text_eq name (codes "podman");
  platform = platform;
  archive = [];
  digest = [];
  debug = quoted;
}

abbrev pub with_krun : Platform
with_krun = record { apple_silicon = true; feature_krun = true }

abbrev pub without_krun : Platform
without_krun = record { apple_silicon = true; feature_krun = false }

abbrev pub outside : Outside fs
outside = outside_on with_krun

-- What clap makes of a command line with these flags for the VM.
abbrev pub cli_with :
    Runtime → Text → Option FilePath → Option FilePath → Option ℕ → Option ℕ → List IpAddr → Cli
cli_with runtime tag vm_rootfs vm_output vm_cpus vm_memory vm_dns = record {
  tag = tag;
  runtime = runtime;
  from = codes "alpine:3.24";
  verbose = 0;
  copy_containerfile = false;
  vm_rootfs = vm_rootfs;
  vm_output = vm_output;
  vm_cpus = vm_cpus;
  vm_memory = vm_memory;
  vm_dns = vm_dns;
}

abbrev pub project_image : Text
project_image = codes "ghcr.io/example/project:dev"

-- `run` with the tag of the tests, on a host with a rootfs.
abbrev pub run_with : Text → Bool → Backend Bench → Result RunError (Unit {0}) × Bench
run_with image copy backend = run fs outside (codes "test:latest") image copy backend (bench 0o755)

-- An assertion in a runner that fails.
abbrev panicked : IoError
panicked = record { kind = other; message = codes "assertion failed" }

abbrev is_text : Text → Result IoError Text → Bool
is_text t (ok u) = text_eq t u
is_text t (err e) = false

abbrev copied : FilePath → Text → Bench → Bool
copied context containerfile s =
    if contains containerfile (codes "COPY build-containerfile")
    then is_text containerfile (contents_at s (some (join context (codes "build-containerfile"))))
    else true

abbrev kept : VmBuild → Result IoError Text → Bench → Result VmBuildError (Unit {0}) × Bench
kept build (err e) s = (err (Error.io e), s)
kept build (ok containerfile) s =
    if copied build.context containerfile s
    then (ok tt, record s { build = some build; text = some containerfile })
    else (err (Error.io panicked), s)

-- `FakeVmRunner`: the build that it is handed, and the Containerfile that the VM would see.
abbrev pub fake_vm_runner : VmRunner Bench
fake_vm_runner = record {
  run = λ build s. kept build (contents_at s (some (join build.context (codes "Containerfile")))) s;
  check_supported = λ s. (ok tt, s);
}

abbrev last_of : List Text → Option Text
last_of [] = none
last_of (a ∷ []) = some a
last_of (a ∷ b ∷ rest) = last_of (b ∷ rest)

abbrev staged_ok : Bool → Text → Bench → FilePath → Bool
staged_ok enabled used s staged =
    if enabled
    then is_text used (contents_at s (some staged))
      && contains used (codes "COPY build-containerfile /tmp/build-containerfile")
    else not (fs.stat s staged).exists && not (contains used (codes "build-containerfile"))

abbrev checked_copy :
    Bool → Result IoError Text → Option FilePath → Bench → Result IoError ExitStatus × Bench
checked_copy enabled (ok used) (some context) s =
    if not (fs.stat s (join context (codes "certs"))).exists
      && staged_ok enabled used s (join context (codes "build-containerfile"))
    then (ok (exit_with 0), s)
    else (err panicked, s)
checked_copy enabled _ _ s = (err panicked, s)

-- `CopyChecker`
abbrev pub copy_checker : Bool → Runner Bench
copy_checker enabled = record {
  run = λ command s.
      checked_copy enabled (contents_at s (after_flag command.args)) (last_of command.args) s;
}
