-- ===== src/Conformance/VmBuild.antt =====
-- The tests of crates/vm-image-builder/src/lib.rs on `build` and `VmBuild`.
use openshell_image_builder.Base.{
  ℕ, Bool, true, false, not, ◌&&◌, Option, none, some, List, [], ◌∷◌, ◌++◌, all, is_empty, ◌==◌,
  if◌then◌else◌, Result, ok, err, ◌≡◌, refl,
}
use openshell_image_builder.Base.Int.{pos}
use openshell_image_builder.Text.{Text, codes, text_eq}
use openshell_image_builder.FilePath.{FilePath, join}
use openshell_image_builder.Host.{IoError}
use openshell_image_builder.Host.Memory.{dir, file, put}
use openshell_image_builder.Dns.Addr.{IpAddr, is_reachable_from_vm}
use openshell_image_builder.VmImage.Error.{VmBuildError, path, rootfs, failed, display}
use openshell_image_builder.VmImage.Config.{
  VmConfig, VmBuild, default_cpus, default_memory_mib, check_rootfs, dns_env_value,
  containerfile_vm_path, containerfile_name, output_path,
}
use openshell_image_builder.VmImage.Build.{VmRunner, build}
use openshell_image_builder.Conformance.Asserts.{contains, fails, is_some_of, is_none, addrs_eq}
use openshell_image_builder.Conformance.Addresses.{ip, net}
use openshell_image_builder.Conformance.World.{
  Bench, fs, tmp, bench, fake_rootfs, contents_at, capture_runner, failing_runner, config_for,
}

abbrev containerfile : Text
containerfile = codes "FROM scratch"

abbrev tag : Text
tag = codes "test:latest"

-- `tmp.path().join("context")`
abbrev context : FilePath
context = join tmp (codes "context")

abbrev with_context : Bench
with_context = let s = bench 0o755 in record s { disk = put context dir s.disk }

-- `build` with the texts of the tests.
abbrev built :
    VmConfig → VmRunner Bench → FilePath → Text → Bench → Result VmBuildError (Unit {0}) × Bench
built config runner context_dir output s =
    build fs containerfile tag config runner context_dir (join tmp output) s

abbrev unwrapped : Result VmBuildError (Unit {0}) × Bench → (Bench → Bool) → Bool
unwrapped (ok _, s) asserts = asserts s
unwrapped (err e, s) asserts = false

-- The assertions on what the runner has captured.
abbrev captured : Result VmBuildError (Unit {0}) × Bench → (VmBuild → Bool) → Bool
captured x asserts = unwrapped x (λ s. is_some_of s.build asserts)

abbrev text_at : Bench → FilePath → Text → Bool
text_at s p t = is_read (contents_at s (some p))
  where
    is_read : Result IoError Text → Bool
    is_read (ok u) = text_eq u t
    is_read (err e) = false

abbrev build_writes_the_containerfile_into_the_context : Bool
build_writes_the_containerfile_into_the_context =
    unwrapped (built (config_for fake_rootfs) capture_runner context (codes "out.tar") with_context)
      (λ s. text_at s (join context (codes "Containerfile")) containerfile)

abbrev is_path : VmBuildError → Bool
is_path (path what p e) = true
is_path _ = false

abbrev is_rootfs : VmBuildError → Bool
is_rootfs (rootfs p reason) = true
is_rootfs _ = false

abbrev linked : FilePath → Option FilePath
linked p =
    if text_eq p (join context (codes "Containerfile"))
    then some (join tmp (codes "outside"))
    else none

-- A symlink planted in the context, pointing outside it.
abbrev with_link : Bench
with_link =
    let s = with_context in
    record s {
      disk = put (join tmp (codes "outside")) (file 0o644 (codes "original")) s.disk;
      link = linked;
    }

abbrev build_refuses_to_follow_a_containerfile_symlink : Bool
build_refuses_to_follow_a_containerfile_symlink =
    let (r, s) =
      built (config_for fake_rootfs) capture_runner context (codes "out.tar") with_link in
    fails r is_path && text_at s (join tmp (codes "outside")) (codes "original")

abbrev build_resolves_paths_and_splits_the_output : Bool
build_resolves_paths_and_splits_the_output =
    captured
      (built (config_for fake_rootfs) capture_runner context (codes "nested/out.tar") with_context)
      (λ b.
        text_eq b.tag tag
        && text_eq b.output_filename (codes "out.tar")
        && text_eq b.rootfs fake_rootfs
        && text_eq b.context context
        && text_eq b.output_dir (join tmp (codes "nested"))
        && b.cpus == default_cpus
        && b.memory_mib == default_memory_mib)

abbrev build_creates_the_output_directory : Bool
build_creates_the_output_directory =
    unwrapped
      (built (config_for fake_rootfs) capture_runner tmp (codes "a/b/out.tar") (bench 0o755))
      (λ s. (fs.stat s (join tmp (codes "a/b"))).is_dir)

abbrev config_with : ℕ → ℕ → List IpAddr → VmConfig
config_with cpus memory_mib nameservers = record {
  rootfs = fake_rootfs;
  cpus = cpus;
  memory_mib = memory_mib;
  nameservers = nameservers;
}

abbrev build_passes_through_cpus_and_memory : Bool
build_passes_through_cpus_and_memory =
    captured
      (built (config_with 8 16384 (ip "10.0.0.1" ∷ [])) capture_runner tmp (codes "out.tar")
        (bench 0o755))
      (λ b. b.cpus == 8 && b.memory_mib == 16384 && addrs_eq b.nameservers (ip "10.0.0.1" ∷ []))

abbrev dns_env_value_is_the_space_separated_list : Bool
dns_env_value_is_the_space_separated_list =
    captured
      (built
        (config_with default_cpus default_memory_mib (ip "192.168.1.254" ∷ ip "fd0f:ee:b0::1" ∷ []))
        capture_runner tmp (codes "out.tar") (bench 0o755))
      (λ b.
        is_some_of (dns_env_value (net {S = Bench}) b)
          (λ value. text_eq value (codes "192.168.1.254 fd0f:ee:b0::1")))

abbrev request : Text → VmBuild
request output_filename = record {
  rootfs = codes "/rootfs";
  context = codes "/ctx";
  output_dir = codes "/out";
  output_filename = output_filename;
  tag = tag;
  cpus = 2;
  memory_mib = 4096;
  nameservers = [];
}

abbrev dns_env_value_is_absent_without_nameservers : Bool
dns_env_value_is_absent_without_nameservers =
    is_none (dns_env_value (net {S = Bench}) (request (codes "out.tar")))

abbrev build_rejects_an_unusable_rootfs_before_touching_the_context : Bool
build_rejects_an_unusable_rootfs_before_touching_the_context =
    let (r, s) =
      built (config_for (codes "/a/really/improbable/rootfs")) capture_runner context
        (codes "out.tar") with_context in
    fails r (λ e. is_rootfs e && contains (display e) (codes "VM rootfs"))
    && not (fs.stat s (join context containerfile_name)).exists

abbrev build_reports_which_path_failed_to_resolve : Bool
build_reports_which_path_failed_to_resolve =
    fails
      (built (config_for fake_rootfs) capture_runner (join tmp (codes "no/such/context"))
        (codes "out.tar") (bench 0o755)).0
      (λ e. is_path e && contains (display e) (codes "build context"))

abbrev failed_with : ℕ → VmBuildError → Bool
failed_with n (failed (some (pos m))) = n == m
failed_with n _ = false

abbrev build_propagates_runner_errors : Bool
build_propagates_runner_errors =
    fails
      (built (config_for fake_rootfs) (failing_runner (failed (some (pos 2)))) tmp (codes "out.tar")
        (bench 0o755)).0
      (failed_with 2)

abbrev containerfile_vm_path_is_inside_the_context_mount : Bool
containerfile_vm_path_is_inside_the_context_mount =
    captured (built (config_for fake_rootfs) capture_runner tmp (codes "out.tar") (bench 0o755))
      (λ b. text_eq (containerfile_vm_path b) (codes "/build/context/Containerfile"))

abbrev output_path_joins_dir_and_filename : Bool
output_path_joins_dir_and_filename =
    text_eq (output_path (request (codes "image.tar"))) (codes "/out/image.tar")

request_tests_pass :
    (dns_env_value_is_absent_without_nameservers ≡ true)
    × (output_path_joins_dir_and_filename ≡ true)
unfolding check_rootfs display contains dns_env_value output_path text_eq is_reachable_from_vm
    openshell_image_builder.VmImage.Config.check_mode
    openshell_image_builder.VmImage.Config.helper_of openshell_image_builder.VmImage.Config.new
    openshell_image_builder.Dns.default_nameservers openshell_image_builder.Dns.host_nameservers
    openshell_image_builder.Dns.scutil_output
request_tests_pass = (refl, refl)

build_tests_pass :
    (build_writes_the_containerfile_into_the_context ≡ true)
    × (build_refuses_to_follow_a_containerfile_symlink ≡ true)
    × (build_resolves_paths_and_splits_the_output ≡ true)
    × (build_creates_the_output_directory ≡ true)
    × (build_passes_through_cpus_and_memory ≡ true)
    × (dns_env_value_is_the_space_separated_list ≡ true)
    × (build_rejects_an_unusable_rootfs_before_touching_the_context ≡ true)
    × (build_reports_which_path_failed_to_resolve ≡ true)
    × (build_propagates_runner_errors ≡ true)
    × (containerfile_vm_path_is_inside_the_context_mount ≡ true)
unfolding build check_rootfs display contains addrs_eq ip dns_env_value containerfile_vm_path
    openshell_image_builder.VmImage.Build.write_containerfile
    openshell_image_builder.VmImage.Build.canonicalize
    openshell_image_builder.VmImage.Build.output_name
    openshell_image_builder.VmImage.Config.check_mode
    openshell_image_builder.VmImage.Config.helper_of openshell_image_builder.VmImage.Config.new
    openshell_image_builder.Base.Io.next openshell_image_builder.Base.Io.retag
    openshell_image_builder.Dns.join openshell_image_builder.Conformance.Addresses.shown
    openshell_image_builder.Text.join openshell_image_builder.FilePath.parent
    openshell_image_builder.FilePath.file_name openshell_image_builder.FilePath.under
build_tests_pass = (refl, refl, refl, refl, refl, refl, refl, refl, refl, refl)
