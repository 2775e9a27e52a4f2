-- ===== src/Conformance/Selection.antt =====
-- The tests of src/main.rs on the flags and the selection of a backend. A command line is the record
-- that clap makes of it; the tests of clap itself are not here.
use openshell_image_builder.Base.{
  ℕ, Bool, true, false, not, ◌&&◌, Option, none, some, List, [], ◌∷◌, ◌++◌, all, is_empty, ◌==◌,
  Result, ok, err, String, ◌≡◌, refl,
}
use openshell_image_builder.Text.{Text, codes, text_eq}
use openshell_image_builder.FilePath.{FilePath, join}
use openshell_image_builder.Dns.Addr.{IpAddr}
use openshell_image_builder.ContainerImage
use openshell_image_builder.ContainerImage.{ContainerCli}
use openshell_image_builder.VmImage.Error
use openshell_image_builder.VmImage.Config.{VmConfig, default_cpus, default_memory_mib}
use openshell_image_builder.VmImage.Platform.{Platform, check_supported}
use openshell_image_builder.Main
use openshell_image_builder.Main.{
  Runtime, Cli, container_cli, check_vm_flags, vm_output_path, Selected, Backend, build_summary,
  backend_for, vm_nameservers, vm_config, select_vm, select_runtime,
}
use openshell_image_builder.Conformance.Asserts.{
  contains, passes, fails, is_ok, is_some_of, is_none,
}
use openshell_image_builder.Conformance.Addresses.{ip}
use openshell_image_builder.Conformance.World.{
  Bench, fs, tmp, bench, fake_vm_rootfs, fake_runner, exit_with, config_for,
}
use openshell_image_builder.Conformance.Program.{
  outside_on, with_krun, without_krun, outside, cli_with, fake_vm_runner,
}

abbrev runtime_vm_has_no_container_cli : Bool
runtime_vm_has_no_container_cli = is_none (container_cli Main.vm)

abbrev cli_eq : ContainerCli → ContainerCli → Bool
cli_eq ContainerImage.podman ContainerImage.podman = true
cli_eq ContainerImage.docker ContainerImage.docker = true
cli_eq ContainerImage.macos_container ContainerImage.macos_container = true
cli_eq _ _ = false

abbrev runtime_cli_variants_map_to_their_binaries : Bool
runtime_cli_variants_map_to_their_binaries =
    is_some_of (container_cli Main.podman) (cli_eq ContainerImage.podman)
    && is_some_of (container_cli Main.docker) (cli_eq ContainerImage.docker)
    && is_some_of (container_cli Main.macos_container) (cli_eq ContainerImage.macos_container)

abbrev vm_output_path_replaces_tag_separators : Bool
vm_output_path_replaces_tag_separators =
    text_eq (vm_output_path (codes "myimage:latest")) (codes "myimage-latest.tar")
    && text_eq (vm_output_path (codes "ghcr.io/me/app:1.0")) (codes "ghcr.io-me-app-1.0.tar")

abbrev vm_output_path_keeps_a_plain_name : Bool
vm_output_path_keeps_a_plain_name = text_eq (vm_output_path (codes "myimage")) (codes "myimage.tar")

abbrev check_vm_flags_accepts_vm_flags_with_vm_runtime : Bool
check_vm_flags_accepts_vm_flags_with_vm_runtime = is_ok (
    check_vm_flags
      (cli_with Main.vm (codes "test:latest") none none (some 4) (some 8192) (ip "10.0.0.1" ∷ [])))

abbrev podman_line : Option FilePath → Option FilePath → Option ℕ → Option ℕ → List IpAddr → Cli
podman_line = cli_with Main.podman (codes "test:latest")

abbrev check_vm_flags_accepts_other_runtimes_without_vm_flags : Bool
check_vm_flags_accepts_other_runtimes_without_vm_flags =
    is_ok (check_vm_flags (podman_line none none none none []))

abbrev check_vm_flags_rejects_vm_flags_with_other_runtimes : Bool
check_vm_flags_rejects_vm_flags_with_other_runtimes =
    all
      (λ ((flag, cli) : String × Cli).
        fails (check_vm_flags cli)
          (λ e. contains e (codes flag) && contains e (codes "--runtime vm")))
      (("--vm-rootfs", podman_line (some (codes "/tmp/rootfs")) none none none [])
        ∷ ("--vm-output", podman_line none (some (codes "out.tar")) none none [])
        ∷ ("--vm-cpus", podman_line none none (some 4) none [])
        ∷ ("--vm-memory", podman_line none none none (some 8192) [])
        ∷ ("--vm-dns", podman_line none none none none (ip "10.0.0.1" ∷ []))
        ∷ [])

-- `vm_parts` and `vm_backend_parts`
abbrev vm_parts : Selected → Option (VmConfig × FilePath)
vm_parts (Main.vm config output) = some (config, output)
vm_parts (Main.cli c) = none

abbrev vm_backend_parts : Backend Bench → Option (VmConfig × FilePath)
vm_backend_parts (Main.vm config runner output) = some (config, output)
vm_backend_parts (Main.cli c runner) = none

abbrev vm_line : FilePath → Option FilePath → Option ℕ → Option ℕ → Cli
vm_line rootfs output cpus memory =
    cli_with Main.vm (codes "myimage:latest") (some rootfs) output cpus memory []

abbrev refused_alike : Result Error.VmBuildError (Unit {0}) → Result Text Selected → Bool
refused_alike (ok _) selected = is_ok selected
refused_alike (err e) selected = fails selected (text_eq (Error.display e))

abbrev select_runtime_vm_checks_vm_support_before_the_rootfs : Platform → Bool
select_runtime_vm_checks_vm_support_before_the_rootfs platform =
    refused_alike (check_supported platform)
      (select_runtime fs (outside_on platform) (vm_line fake_vm_rootfs none none none)
        (bench 0o755)).0

abbrev selected_vm : Cli → Result Text Selected
selected_vm cli = (select_vm fs outside cli (bench 0o755)).0

abbrev select_runtime_vm_resolves_config_and_output : Bool
select_runtime_vm_resolves_config_and_output =
    passes (selected_vm (vm_line fake_vm_rootfs none (some 4) (some 8192))) (λ selected.
      is_some_of (vm_parts selected) (λ (config, output).
        text_eq config.rootfs fake_vm_rootfs
        && config.cpus == 4
        && config.memory_mib == 8192
        && text_eq output (codes "myimage-latest.tar")))

abbrev select_runtime_vm_honours_the_output_flag : Bool
select_runtime_vm_honours_the_output_flag =
    let out = join tmp (codes "custom.tar") in
    passes (selected_vm (vm_line fake_vm_rootfs (some out) none none))
      (λ selected. is_some_of (vm_parts selected) (λ (config, output). text_eq output out))

abbrev select_runtime_vm_rejects_an_unusable_rootfs : Bool
select_runtime_vm_rejects_an_unusable_rootfs =
    fails (selected_vm (vm_line (join tmp (codes "no-such-rootfs")) none none none))
      (λ e. contains e (codes "no-such-rootfs"))

abbrev is_cli_arm : Result Text Selected → Bool
is_cli_arm (ok selected) = is_none (vm_parts selected)
is_cli_arm (err e) = contains e (codes "podman")

abbrev select_runtime_cli_takes_the_container_cli_arm : Bool
select_runtime_cli_takes_the_container_cli_arm =
    is_cli_arm
      (select_runtime fs outside
        (cli_with Main.podman (codes "myimage:latest") none none none none []) (bench 0o755)).0

abbrev backend : Selected → Backend Bench
backend = backend_for (fake_runner (ok (exit_with 0))) fake_vm_runner

abbrev to_tar : Text → Selected
to_tar output = Main.vm (config_for fake_vm_rootfs) output

abbrev backend_for_maps_each_selection_to_its_backend : Bool
backend_for_maps_each_selection_to_its_backend =
    let cli : Selected = Main.cli ContainerImage.docker in
    is_some_of (vm_backend_parts (backend (to_tar (join tmp (codes "out.tar"))))) (λ _. true)
    && is_none (vm_backend_parts (backend cli))
    && is_none (vm_parts cli)

abbrev backend_for_vm_selection_passes_through_the_config_and_output : Bool
backend_for_vm_selection_passes_through_the_config_and_output =
    let out = join tmp (codes "out.tar") in
    is_some_of (vm_backend_parts (backend (to_tar out)))
      (λ (config, output). text_eq config.rootfs fake_vm_rootfs && text_eq output out)

abbrev build_summary_names_the_tarball_a_vm_build_wrote : Bool
build_summary_names_the_tarball_a_vm_build_wrote =
    is_some_of (build_summary (to_tar (codes "out/myimage-latest.tar")))
      (text_eq (codes "Wrote out/myimage-latest.tar"))

abbrev build_summary_is_silent_for_a_cli_build : Bool
build_summary_is_silent_for_a_cli_build = is_none (build_summary (Main.cli ContainerImage.podman))

flag_tests_pass :
    (runtime_vm_has_no_container_cli ≡ true)
    × (runtime_cli_variants_map_to_their_binaries ≡ true)
    × (vm_output_path_replaces_tag_separators ≡ true)
    × (vm_output_path_keeps_a_plain_name ≡ true)
    × (check_vm_flags_accepts_vm_flags_with_vm_runtime ≡ true)
    × (check_vm_flags_accepts_other_runtimes_without_vm_flags ≡ true)
    × (check_vm_flags_rejects_vm_flags_with_other_runtimes ≡ true)
    × (backend_for_maps_each_selection_to_its_backend ≡ true)
    × (backend_for_vm_selection_passes_through_the_config_and_output ≡ true)
    × (build_summary_names_the_tarball_a_vm_build_wrote ≡ true)
    × (build_summary_is_silent_for_a_cli_build ≡ true)
unfolding contains container_cli check_vm_flags vm_output_path build_summary backend_for
    openshell_image_builder.Main.safe_char openshell_image_builder.Main.given
    openshell_image_builder.VmImage.Config.new openshell_image_builder.VmImage.Error.display_path
    openshell_image_builder.Text.is_ascii_alphanumeric openshell_image_builder.FilePath.join
    openshell_image_builder.FilePath.parent
flag_tests_pass = (refl, refl, refl, refl, refl, refl, refl, refl, refl, refl, refl)

select_tests_pass :
    (select_runtime_vm_checks_vm_support_before_the_rootfs with_krun ≡ true)
    × (select_runtime_vm_checks_vm_support_before_the_rootfs without_krun ≡ true)
    × (select_runtime_vm_resolves_config_and_output ≡ true)
    × (select_runtime_vm_honours_the_output_flag ≡ true)
    × (select_runtime_vm_rejects_an_unusable_rootfs ≡ true)
    × (select_runtime_cli_takes_the_container_cli_arm ≡ true)
unfolding contains ip container_cli vm_output_path vm_nameservers vm_config select_vm select_runtime
    check_supported openshell_image_builder.Main.safe_char
    openshell_image_builder.VmImage.Config.check_rootfs
    openshell_image_builder.VmImage.Config.check_mode
    openshell_image_builder.VmImage.Config.helper_of openshell_image_builder.VmImage.Error.display
    openshell_image_builder.Base.Io.next openshell_image_builder.ContainerImage.binary
    openshell_image_builder.ContainerImage.check_in_path
    openshell_image_builder.Text.is_ascii_alphanumeric
select_tests_pass = (refl, refl, refl, refl, refl, refl)
