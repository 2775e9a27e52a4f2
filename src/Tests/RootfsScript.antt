-- ===== src/Tests/RootfsScript.antt =====
-- make-rootfs.sh on a host whose state is the list of the commands that it has performed.
use openshell_image_builder.Base.{
  ℕ, Bool, true, false, List, [], ◌∷◌, ◌++◌, Result, ok, err, any, ◌≡◌, refl,
}
use openshell_image_builder.Text.{Text, codes, text_eq}
use openshell_image_builder.Shell.{Action, simple, saved, Shell}
use openshell_image_builder.Shell.Meets.{UnitResult}
use openshell_image_builder.Guest.{words}
use openshell_image_builder.MakeRootfs.{make_rootfs}
use openshell_image_builder.MakeRootfs.Outcome.{Ends, make_rootfs-Ends}
use openshell_image_builder.Tests.Guest.{shell, first}

-- A host on which the commands with one first word fail.
abbrev host : Text → Shell (List Action)
host failing = shell (λ a. text_eq (first a) failing)

abbrev by : Text → UnitResult (List Action)
by failing =
    make_rootfs (host failing) (codes "vm-image/make-rootfs.sh")
      (codes "out" ∷ codes "rootfs.tar" ∷ []) [] []

make_rootfs-Ends_example :
    Ends
      (host (codes "tar"))
      (codes "vm-image/make-rootfs.sh")
      (codes "out" ∷ codes "rootfs.tar" ∷ [])
      []
      []
      (by (codes "tar"))
make_rootfs-Ends_example =
    make_rootfs-Ends (host (codes "tar")) (codes "vm-image/make-rootfs.sh")
      (codes "out" ∷ codes "rootfs.tar" ∷ []) [] []

abbrev last_three : List Action → List Action
last_three [] = []
last_three (a ∷ []) = a ∷ []
last_three (a ∷ b ∷ []) = a ∷ b ∷ []
last_three (a ∷ b ∷ c ∷ []) = a ∷ b ∷ c ∷ []
last_three (a ∷ b ∷ c ∷ d ∷ rest) = last_three (b ∷ c ∷ d ∷ rest)

-- The extraction fails: the archive and the container are removed.
by_tar :
    ((by (codes "tar")).0 ≡ err 1)
    × (last_three (by (codes "tar")).1
        ≡ simple (words "tar -C out -xf /tmp/openshell-rootfs.abc")
          ∷ simple (words "rm -f /tmp/openshell-rootfs.abc")
          ∷ simple (words "podman rm c0ffee")
          ∷ [])
unfolding make_rootfs text_eq openshell_image_builder.MakeRootfs.cleanup
    openshell_image_builder.MakeRootfs.with_podman openshell_image_builder.MakeRootfs.trapped
    openshell_image_builder.Shell.answer openshell_image_builder.Shell.asked
    openshell_image_builder.Shell.run_all openshell_image_builder.Shell.trim_newlines
    openshell_image_builder.Base.Io.next
by_tar = (refl, refl)

-- `mktemp` fails: the container that was made just before it is left.
by_mktemp :
    ((by (codes "mktemp")).0 ≡ err 1)
    × (last_three (by (codes "mktemp")).1
        ≡ simple (words "mkdir -p out")
          ∷ simple (words "podman create --platform linux/arm64 openshell-vm-rootfs")
          ∷ simple (words "mktemp /tmp/openshell-rootfs.XXXXXX")
          ∷ [])
unfolding make_rootfs text_eq openshell_image_builder.MakeRootfs.cleanup
    openshell_image_builder.MakeRootfs.with_podman openshell_image_builder.MakeRootfs.trapped
    openshell_image_builder.Shell.answer openshell_image_builder.Shell.asked
    openshell_image_builder.Shell.run_all openshell_image_builder.Shell.trim_newlines
    openshell_image_builder.Base.Io.next
by_mktemp = (refl, refl)

-- Nothing fails.
by_nothing :
    ((by (codes "none")).0 ≡ ok tt)
    × (last_three (by (codes "none")).1
        ≡ simple (
            codes "echo"
            ∷ codes
                "  openshell-build-image --runtime vm --from registry.example.com/myproject:dev --vm-rootfs out myimage:latest"
            ∷ [])
          ∷ simple (words "rm -f /tmp/openshell-rootfs.abc")
          ∷ simple (words "podman rm c0ffee")
          ∷ [])
unfolding make_rootfs text_eq openshell_image_builder.MakeRootfs.cleanup
    openshell_image_builder.MakeRootfs.with_podman openshell_image_builder.MakeRootfs.trapped
    openshell_image_builder.Shell.answer openshell_image_builder.Shell.asked
    openshell_image_builder.Shell.run_all openshell_image_builder.Shell.trim_newlines
    openshell_image_builder.Base.Io.next
by_nothing = (refl, refl)
