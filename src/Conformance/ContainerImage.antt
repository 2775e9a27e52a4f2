-- ===== src/Conformance/ContainerImage.antt =====
-- The tests of crates/container-image-builder/src/lib.rs, but for the two that test the crate `which`.
use openshell_image_builder.Base.{
  ℕ, Bool, true, false, not, ◌&&◌, Option, none, some, List, [], ◌∷◌, ◌==◌, Result, ok, err, ◌≡◌,
  refl,
}
use openshell_image_builder.Base.Int.{pos}
use openshell_image_builder.Text.{Text, codes, text_eq}
use openshell_image_builder.Host.{IoError, not_found, other}
use openshell_image_builder.ContainerImage.{
  ContainerCli, podman, docker, macos_container, binary, runtime_not_found, not_found_message,
  ExitStatus, Runner, BuildError, io, failed, display, build,
}
use openshell_image_builder.Conformance.Asserts.{contains, fails, is_ok}
use openshell_image_builder.Conformance.World.{start, temp, fake_runner, exit_with}

abbrev container_cli_binary_returns_podman : Bool
container_cli_binary_returns_podman = text_eq (binary podman) (codes "podman")

abbrev container_cli_binary_returns_docker : Bool
container_cli_binary_returns_docker = text_eq (binary docker) (codes "docker")

abbrev container_cli_binary_returns_container : Bool
container_cli_binary_returns_container = text_eq (binary macos_container) (codes "container")

abbrev runtime_not_found_error_display_names_binary : Bool
runtime_not_found_error_display_names_binary =
    let msg = not_found_message (runtime_not_found (codes "podman")) in
    contains msg (codes "podman") && contains msg (codes "PATH")

abbrev built : ContainerCli → Result IoError ExitStatus → Result BuildError (Unit {0})
built cli result =
    (build temp (codes "FROM scratch") (codes "test:latest") cli (fake_runner result) (codes ".")
      start).0

abbrev build_succeeds : Bool
build_succeeds = is_ok (built podman (ok (exit_with 0)))

abbrev failed_with : Option ℕ → BuildError → Bool
failed_with none (failed none) = true
failed_with (some n) (failed (some (pos m))) = n == m
failed_with _ _ = false

abbrev is_io : BuildError → Bool
is_io (io e) = true
is_io (failed code) = false

abbrev build_fails_with_exit_code : Bool
build_fails_with_exit_code = fails (built podman (ok (exit_with 1))) (failed_with (some 1))

abbrev build_propagates_io_error : Bool
build_propagates_io_error =
    fails (built podman (err (record { kind = not_found; message = codes "binary not found" })))
      is_io

-- The status 9 of a process is a signal, so it has no code.
abbrev build_signal_killed : Bool
build_signal_killed =
    fails (built podman (ok (record { success = false; code = none }))) (failed_with none)

abbrev io_error_display : Bool
io_error_display =
    text_eq (display (io (record { kind = not_found; message = codes "file not found" })))
      (codes "I/O error: file not found")

abbrev failed_with_exit_code_display_is_cli_agnostic : Bool
failed_with_exit_code_display_is_cli_agnostic =
    let msg = display (failed (some (pos 1))) in
    contains msg (codes "container build")
    && not (contains msg (codes "podman"))
    && not (contains msg (codes "docker"))

abbrev failed_with_exit_code_display : Bool
failed_with_exit_code_display =
    text_eq (display (failed (some (pos 1)))) (codes "container build failed with exit code 1")

abbrev failed_without_exit_code_display : Bool
failed_without_exit_code_display =
    text_eq (display (failed none)) (codes "container build was terminated by a signal")

-- `BuildError::from` is the constructor.
abbrev from_io_error_wraps_correctly : Bool
from_io_error_wraps_correctly = is_io (io (record { kind = other; message = codes "denied" }))

abbrev build_works_with_docker_cli : Bool
build_works_with_docker_cli = is_ok (built docker (ok (exit_with 0)))

abbrev build_works_with_macos_container_cli : Bool
build_works_with_macos_container_cli = is_ok (built macos_container (ok (exit_with 0)))

text_tests_pass :
    (container_cli_binary_returns_podman ≡ true)
    × (container_cli_binary_returns_docker ≡ true)
    × (container_cli_binary_returns_container ≡ true)
    × (runtime_not_found_error_display_names_binary ≡ true)
    × (io_error_display ≡ true)
    × (failed_with_exit_code_display_is_cli_agnostic ≡ true)
    × (failed_with_exit_code_display ≡ true)
    × (failed_without_exit_code_display ≡ true)
    × (from_io_error_wraps_correctly ≡ true)
unfolding binary not_found_message display contains text_eq openshell_image_builder.Text.split_once
    openshell_image_builder.Text.strip_prefix openshell_image_builder.Text.show
    openshell_image_builder.VmImage.Error.show_int
text_tests_pass = (refl, refl, refl, refl, refl, refl, refl, refl, refl)

build_tests_pass :
    (build_succeeds ≡ true)
    × (build_fails_with_exit_code ≡ true)
    × (build_propagates_io_error ≡ true)
    × (build_signal_killed ≡ true)
    × (build_works_with_docker_cli ≡ true)
    × (build_works_with_macos_container_cli ≡ true)
unfolding build openshell_image_builder.ContainerImage.build_from
    openshell_image_builder.ContainerImage.of_status openshell_image_builder.ContainerImage.command
    openshell_image_builder.Base.Io.next openshell_image_builder.Base.Io.retag
    openshell_image_builder.FilePath.parent text_eq
build_tests_pass = (refl, refl, refl, refl, refl, refl)
