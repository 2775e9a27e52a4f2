-- ===== src/Conformance/Runs.antt =====
-- The tests of src/main.rs on `run`.
use openshell_image_builder.Base.{
  ℕ, Bool, true, false, not, ◌&&◌, Option, none, some, List, [], ◌∷◌, ◌++◌, all, Result, ok, err,
  ◌≡◌, refl,
}
use openshell_image_builder.Base.Int.{pos}
use openshell_image_builder.Text.{Text, codes, text_eq}
use openshell_image_builder.FilePath.{FilePath, join}
use openshell_image_builder.ContainerImage
use openshell_image_builder.ContainerImage.{Runner}
use openshell_image_builder.VmImage.Error
use openshell_image_builder.VmImage.Build.{VmRunner}
use openshell_image_builder.Main
use openshell_image_builder.Main.{Backend, RunError}
use openshell_image_builder.Conformance.Asserts.{contains, is_ok, is_err, is_some_of}
use openshell_image_builder.Conformance.World.{
  Bench, tmp, fake_vm_rootfs, fake_runner, exit_with, containerfile_capture, failing_runner,
  config_for,
}
use openshell_image_builder.Conformance.Program.{
  run_with, fake_vm_runner, copy_checker, project_image,
}

-- `run(..).unwrap()`, and the assertions on what the runner has kept.
abbrev leaves : Result RunError (Unit {0}) × Bench → (Bench → Bool) → Bool
leaves (ok _, s) asserts = asserts s
leaves (err e, s) asserts = false

abbrev by_podman : Runner Bench → Backend Bench
by_podman runner = Main.cli ContainerImage.podman runner

abbrev run_passes_project_image_to_cli_backend : Bool
run_passes_project_image_to_cli_backend =
    let image = codes "localhost:5000/project/tools:dev" in
    leaves (run_with image false (by_podman containerfile_capture)) (λ s.
      is_some_of s.text
        (λ content. contains content (codes "FROM " ++ (image ++ codes " AS system"))))

abbrev run_stages_exact_build_containerfile_only_when_requested : Bool
run_stages_exact_build_containerfile_only_when_requested =
    all (λ enabled. is_ok (run_with project_image enabled (by_podman (copy_checker enabled))).0)
      (false ∷ true ∷ [])

abbrev run_with_base_image_succeeds : Bool
run_with_base_image_succeeds =
    is_ok (run_with project_image false (by_podman (fake_runner (ok (exit_with 0))))).0

abbrev run_returns_error_when_runner_fails : Bool
run_returns_error_when_runner_fails =
    is_err (run_with project_image false (by_podman (fake_runner (ok (exit_with 1))))).0

abbrev run_does_not_bundle_host_certificates : Bool
run_does_not_bundle_host_certificates =
    leaves (run_with project_image false (by_podman containerfile_capture))
      (λ s. is_some_of s.text (λ content. not (contains content (codes "COPY certs/"))))

abbrev in_vm : VmRunner Bench → Text → Backend Bench
in_vm runner output = Main.vm (config_for fake_vm_rootfs) runner (join tmp output)

abbrev run_with_vm_backend_succeeds : Bool
run_with_vm_backend_succeeds =
    leaves (run_with project_image false (in_vm fake_vm_runner (codes "test-latest.tar"))) (λ s.
      is_some_of s.build (λ b.
        text_eq b.tag (codes "test:latest") && text_eq b.output_filename (codes "test-latest.tar")))

abbrev run_with_vm_backend_passes_the_generated_containerfile : Bool
run_with_vm_backend_passes_the_generated_containerfile =
    leaves (run_with project_image true (in_vm fake_vm_runner (codes "out.tar"))) (λ s.
      is_some_of s.text (λ content.
        contains content (codes "RUN cp /tmp/build-containerfile \"$HOME/Containerfile\"")
        && contains content (codes "FROM ghcr.io/example/project:dev AS system")))

abbrev run_with_vm_backend_propagates_errors : Bool
run_with_vm_backend_propagates_errors =
    is_err
      (run_with project_image false
        (in_vm (failing_runner (Error.failed (some (pos 2)))) (codes "out.tar"))).0

cli_tests_pass :
    (run_passes_project_image_to_cli_backend ≡ true)
    × (run_stages_exact_build_containerfile_only_when_requested ≡ true)
    × (run_with_base_image_succeeds ≡ true)
    × (run_returns_error_when_runner_fails ≡ true)
    × (run_does_not_bundle_host_certificates ≡ true)
unfolding contains openshell_image_builder.Base.Io.next openshell_image_builder.Base.Io.retag
    openshell_image_builder.Conformance.World.after_flag openshell_image_builder.Main.run
    openshell_image_builder.Main.run_in openshell_image_builder.Main.build_with
    openshell_image_builder.Containerfile.generate
    openshell_image_builder.Containerfile.parse_image_reference
    openshell_image_builder.Containerfile.is_forbidden
    openshell_image_builder.Containerfile.template openshell_image_builder.Containerfile.final_stage
    openshell_image_builder.Containerfile.containerfile_section
    openshell_image_builder.ContainerImage.build openshell_image_builder.ContainerImage.build_from
    openshell_image_builder.ContainerImage.of_status openshell_image_builder.ContainerImage.command
    openshell_image_builder.Text.is_whitespace openshell_image_builder.Text.is_control
    openshell_image_builder.FilePath.join openshell_image_builder.FilePath.parent
cli_tests_pass = (refl, refl, refl, refl, refl)

vm_tests_pass :
    (run_with_vm_backend_succeeds ≡ true)
    × (run_with_vm_backend_passes_the_generated_containerfile ≡ true)
    × (run_with_vm_backend_propagates_errors ≡ true)
unfolding contains openshell_image_builder.Base.Io.next openshell_image_builder.Base.Io.retag
    openshell_image_builder.Main.run openshell_image_builder.Main.run_in
    openshell_image_builder.Main.build_with openshell_image_builder.Containerfile.generate
    openshell_image_builder.Containerfile.parse_image_reference
    openshell_image_builder.Containerfile.is_forbidden
    openshell_image_builder.Containerfile.template openshell_image_builder.Containerfile.final_stage
    openshell_image_builder.Containerfile.containerfile_section
    openshell_image_builder.VmImage.Build.build openshell_image_builder.VmImage.Config.check_rootfs
    openshell_image_builder.VmImage.Build.write_containerfile
    openshell_image_builder.VmImage.Build.canonicalize
    openshell_image_builder.VmImage.Build.output_name
    openshell_image_builder.VmImage.Config.check_mode
    openshell_image_builder.VmImage.Config.helper_of openshell_image_builder.VmImage.Config.new
    openshell_image_builder.Text.to_string_lossy openshell_image_builder.Text.is_whitespace
    openshell_image_builder.Text.is_control openshell_image_builder.FilePath.parent
    openshell_image_builder.FilePath.file_name openshell_image_builder.FilePath.under
vm_tests_pass = (refl, refl, refl)
