-- ===== src/Conformance/Containerfile.antt =====
-- The tests of src/containerfile.rs.
use openshell_image_builder.Base.{
  Bool, true, false, not, ◌&&◌, [], ◌∷◌, ◌++◌, all, Result, ◌≡◌, refl,
}
use openshell_image_builder.Text.{Text, codes}
use openshell_image_builder.Containerfile.{
  ContainerfileError, invalid_image_reference, display, generate,
}
use openshell_image_builder.Conformance.Asserts.{contains, passes, fails}

abbrev build_cf : Text → Result ContainerfileError Text
build_cf from = generate from false

abbrev quoted : Text → Text
quoted image = codes "\"" ++ (image ++ codes "\"")

abbrev arbitrary_image_references_are_preserved : Bool
arbitrary_image_references_are_preserved =
    all
      (λ image. passes (build_cf image) (λ content.
        contains content (codes "FROM " ++ (image ++ codes " AS system\n"))
        && not (contains content (codes "RUN "))))
      (codes "alpine"
        ∷ codes "docker.io/library/alpine:3.24"
        ∷ codes "registry.fedoraproject.org/fedora:latest"
        ∷ codes "localhost:5000/project/tools:dev"
        ∷ codes "ghcr.io/example/project@sha256:0123456789abcdef"
        ∷ codes "example/project:tag@sha256:0123456789abcdef"
        ∷ [])

abbrev is_invalid_image_reference : ContainerfileError → Bool
is_invalid_image_reference (invalid_image_reference image) = true

abbrev invalid_references_cannot_change_containerfile_instructions : Bool
invalid_references_cannot_change_containerfile_instructions =
    all
      (λ image. fails (build_cf image) (λ e.
        is_invalid_image_reference e
        && contains (display quoted e) (codes "invalid image reference")))
      ([]
        ∷ codes " "
        ∷ codes "alpine AS injected"
        ∷ codes "alpine\nRUN touch /injected"
        ∷ (codes "alpine" ++ 13 ∷ [])
        ∷ (codes "alpine" ++ 9 ∷ [])
        ∷ (codes "alpine" ++ 0 ∷ [])
        ∷ [])

abbrev copy_containerfile_is_supported_on_all_base_images : Bool
copy_containerfile_is_supported_on_all_base_images =
    all
      (λ config.
        passes (generate config true) (λ content.
          contains content (codes "COPY build-containerfile /tmp/build-containerfile")
          && contains content (codes "RUN cp /tmp/build-containerfile \"$HOME/Containerfile\"")
          && not (contains content (codes "--chown=sandbox")))
        && passes (build_cf config)
            (λ without_copy. not (contains without_copy (codes "build-containerfile"))))
      (codes "docker.io/library/ubuntu:24.04"
        ∷ codes "registry.fedoraproject.org/fedora:latest"
        ∷ codes "docker.io/library/alpine:3.24"
        ∷ codes "ghcr.io/example/project:dev"
        ∷ [])

abbrev host_ca_certificates_are_not_copied : Bool
host_ca_certificates_are_not_copied =
    all
      (λ image. passes (build_cf image) (λ content.
        not (contains content (codes "COPY certs/"))
        && not (contains content (codes "system-ca.crt"))
        && not (contains content (codes "RUN update-ca-certificates"))
        && not (contains content (codes "RUN update-ca-trust"))))
      (codes "docker.io/library/ubuntu:24.04"
        ∷ codes "registry.fedoraproject.org/fedora:latest"
        ∷ codes "registry.access.redhat.com/ubi10/ubi:latest"
        ∷ codes "docker.io/library/alpine:3.24"
        ∷ [])

tests_pass :
    (arbitrary_image_references_are_preserved ≡ true)
    × (invalid_references_cannot_change_containerfile_instructions ≡ true)
    × (copy_containerfile_is_supported_on_all_base_images ≡ true)
    × (host_ca_certificates_are_not_copied ≡ true)
unfolding contains display generate openshell_image_builder.Containerfile.parse_image_reference
    openshell_image_builder.Containerfile.is_forbidden
    openshell_image_builder.Containerfile.template openshell_image_builder.Containerfile.final_stage
    openshell_image_builder.Containerfile.containerfile_section
    openshell_image_builder.Text.is_whitespace openshell_image_builder.Text.is_control
tests_pass = (refl, refl, refl, refl)
