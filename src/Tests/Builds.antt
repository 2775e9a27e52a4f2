-- ===== src/Tests/Builds.antt =====
-- Runs of the program and of a container CLI at concrete inputs.
use openshell_image_builder.Base.{
  ℕ, Bool, true, false, not, Option, none, some, List, [], ◌∷◌, ◌++◌, any, find, Result, ok, err,
  ◌≡◌, refl, ◌≢◌, ◌↔◌, ◌⊎◌, inl, inr, arith,
}
use openshell_image_builder.Base.Int.{pos}
use openshell_image_builder.Text.{Text, codes}
use openshell_image_builder.Host.Memory.{file, Disk, put}
use openshell_image_builder.Containerfile.{invalid_image_reference}
use openshell_image_builder.ContainerImage
use openshell_image_builder.ContainerImage.{ContainerCli, ExitStatus, Runner, BuildError, failed}
use openshell_image_builder.ContainerImage.Outcome.{IsRun, build-failed}
use openshell_image_builder.Main
use openshell_image_builder.Main.{
  Runtime, Cli, is_vm, Backend, RunError, containerfile, Selected, check_vm_flags,
  unreachable_message, vm_nameservers, vm_config, select_runtime, run, main,
}
use openshell_image_builder.Main.Exit.{IsDone, main-IsDone}
use openshell_image_builder.Tests.World.{
  fs, outside, temp, container_runner, krun_runner, empty_disk,
}

abbrev by_podman : Cli
by_podman = record {
  tag = codes "me/app:1.0";
  runtime = Main.podman;
  from = codes "fedora:42";
  verbose = 0;
  copy_containerfile = true;
  vm_rootfs = none;
  vm_output = none;
  vm_cpus = none;
  vm_memory = none;
  vm_dns = [];
}

abbrev podman_backend : Backend Disk
podman_backend = Main.cli ContainerImage.podman container_runner

abbrev podman_run : Result RunError (Unit {0}) × Disk
podman_run = run fs outside (codes "t") (codes "fedora:42") true podman_backend empty_disk

podman_run-ok : podman_run.0 ≡ ok tt
unfolding openshell_image_builder.Main.run openshell_image_builder.Main.run_in
    openshell_image_builder.Main.build_with openshell_image_builder.Text.is_control
    openshell_image_builder.Containerfile.generate
    openshell_image_builder.Containerfile.parse_image_reference
    openshell_image_builder.Containerfile.is_forbidden openshell_image_builder.ContainerImage.build
    openshell_image_builder.ContainerImage.build_from
    openshell_image_builder.ContainerImage.of_status openshell_image_builder.Text.is_whitespace
    openshell_image_builder.Base.Io.next openshell_image_builder.Base.Io.retag
podman_run-ok = refl

abbrev main_run : Main.Ending fs outside × Disk
main_run = main fs outside container_runner krun_runner by_podman empty_disk

main-IsDone_example :
    ((main_run.0.code ≡ 0)
      × IsDone fs outside container_runner krun_runner by_podman empty_disk main_run.0 main_run.1)
    ⊎ ((main_run.0.code ≡ 1)
        × (main_run.0.stdout ≡ none)
        × ((e : Text) × (main_run.0.stderr ≡ some (codes "Error: " ++ e))))
main-IsDone_example = main-IsDone fs outside container_runner krun_runner by_podman empty_disk

-- The command line above ends well.
main_run-code : main_run.0.code ≡ 0
unfolding openshell_image_builder.Main.select_runtime openshell_image_builder.Main.container_cli
    openshell_image_builder.Main.check_vm_flags openshell_image_builder.Main.given
    openshell_image_builder.Main.run openshell_image_builder.Main.run_in
    openshell_image_builder.Main.build_with openshell_image_builder.Main.main
    openshell_image_builder.Main.attempt openshell_image_builder.Main.backend_for
    openshell_image_builder.Text.is_control openshell_image_builder.Containerfile.generate
    openshell_image_builder.Containerfile.parse_image_reference
    openshell_image_builder.Containerfile.is_forbidden openshell_image_builder.ContainerImage.build
    openshell_image_builder.ContainerImage.build_from openshell_image_builder.ContainerImage.binary
    openshell_image_builder.ContainerImage.of_status
    openshell_image_builder.ContainerImage.check_in_path openshell_image_builder.Text.text_eq
    openshell_image_builder.Text.is_whitespace openshell_image_builder.Base.Io.next
    openshell_image_builder.Base.Io.retag
main_run-code = refl

abbrev cli_run : Result BuildError (Unit {0}) × Disk
cli_run =
    ContainerImage.build temp (codes "FROM a") (codes "t") ContainerImage.podman container_runner
      (codes "/c") empty_disk

cli_run-ok : cli_run.0 ≡ ok tt
unfolding openshell_image_builder.ContainerImage.build
    openshell_image_builder.ContainerImage.build_from
    openshell_image_builder.ContainerImage.of_status openshell_image_builder.Base.Io.next
    openshell_image_builder.Base.Io.retag
cli_run-ok = refl

abbrev failing_runner : Runner Disk
failing_runner = record {
  run = λ command d. (ok (record { success = false; code = some (pos 2) }), d);
}

abbrev status_2 : ExitStatus
status_2 = record { success = false; code = some (pos 2) }

abbrev written_disk : Disk
written_disk =
    put (codes "/tmp/file") (file 0o600 (codes "FROM a"))
      (put (codes "/tmp/file") (file 0o600 []) empty_disk)

failing-IsRun :
    IsRun temp
      (codes "FROM a")
      (codes "t")
      ContainerImage.podman
      failing_runner
      (codes "/c")
      empty_disk
      status_2
      written_disk
unfolding openshell_image_builder.ContainerImage.command
failing-IsRun = record {
  file = codes "/tmp/file";
  created = put (codes "/tmp/file") (file 0o600 []) empty_disk;
  written = written_disk;
  new_file = refl;
  write_all = refl;
  invoked =
      ContainerImage.command ContainerImage.podman (codes "/tmp/file") (codes "t") (codes "/c");
  program = refl;
  args = refl;
  ran = refl;
}

build-failed_instance :
    ContainerImage.build temp
      (codes "FROM a")
      (codes "t")
      ContainerImage.podman
      failing_runner
      (codes "/c")
      empty_disk
    ≡ (err (failed (some (pos 2))), temp.drop_file failing-IsRun.file written_disk)
build-failed_instance =
    build-failed temp (codes "FROM a") (codes "t") ContainerImage.podman failing_runner (codes "/c")
      empty_disk written_disk status_2 failing-IsRun refl
