-- ===== src/MakeRootfs.antt =====
-- The script that makes the rootfs of the build VM:
-- crates/vm-image-builder/vm-image/make-rootfs.sh.
pub mod Outcome
use openshell_image_builder.Base.{
  ℕ, List, [], ◌∷◌, ◌++◌, Result, ok, err, ◌==◌, is_empty, if◌then◌else◌,
}
use openshell_image_builder.Base.Io.{Io, ◌>>=◌, ◌>>◌, next, pure, after, finally}
use openshell_image_builder.Text.{Text, codes}
use openshell_image_builder.Guest.{words}
use openshell_image_builder.Shell.{
  Action, simple, chained, saved, Completed, Shell, trim_newlines, argument, or_default, answer,
  asked, run_all,
}

abbrev echo : Text → Action
echo text = simple (codes "echo" ∷ text ∷ [])

abbrev pub rootfs_of : List Text → Text
rootfs_of args = or_default (argument args 0) (codes "./vm-rootfs")

abbrev pub archive_out_of : List Text → Text
archive_out_of args = argument args 1

-- `$(cd "$(dirname "$0")" && pwd)`
abbrev pub dirname : Text → Action
dirname name = simple (codes "dirname" ∷ name ∷ [])

abbrev pub script_dir : Text → Action
script_dir directory = chained (codes "cd" ∷ directory ∷ []) (words "pwd")

abbrev pub find_podman : Action
find_podman = simple (words "command -v podman")

abbrev pub podman_required : Action
podman_required = echo (codes "error: podman is required to build the rootfs")

abbrev pub build_image : Text → Text → List Action
build_image rootfs directory =
    echo (codes "Building rootfs image for linux/arm64...")
    ∷ simple (
        words "podman build --platform linux/arm64 --tag openshell-vm-rootfs --file"
        ++ (directory ++ codes "/Containerfile") ∷ directory ∷ [])
    ∷ echo (codes "Exporting rootfs to " ++ (rootfs ++ codes "..."))
    ∷ simple (words "mkdir -p" ++ rootfs ∷ [])
    ∷ []

abbrev pub create : Action
create = simple (words "podman create --platform linux/arm64 openshell-vm-rootfs")

abbrev pub mktemp : Text → Action
mktemp tmpdir =
    simple
      (codes "mktemp" ∷ (or_default tmpdir (codes "/tmp") ++ codes "/openshell-rootfs.XXXXXX") ∷ [])

-- The export, to a file first, and the extraction.
abbrev pub export : Text → Text → Text → List Action
export rootfs container archive =
    saved (words "podman export" ++ container ∷ []) archive
    ∷ simple (words "tar -C" ++ rootfs ∷ codes "-xf" ∷ archive ∷ [])
    ∷ saved (codes "printf" ∷ codes "nameserver 1.1.1.1\\noptions use-vc\\n" ∷ [])
        (rootfs ++ codes "/etc/resolv.conf")
    ∷ []

abbrev pub pack : Text → Text → List Action
pack rootfs archive_out =
    if is_empty archive_out
    then []
    else echo (codes "Packing rootfs into " ++ (archive_out ++ codes "..."))
      ∷ simple
          (words "COPYFILE_DISABLE=1 tar -C" ++ rootfs ∷ codes "-cf" ∷ archive_out ∷ codes "." ∷ [])
      ∷ []

abbrev archive_ready : Text → List Action
archive_ready archive_out =
    if is_empty archive_out
    then []
    else echo (codes "Archive ready at: " ++ archive_out)
      ∷ echo []
      ∷ echo (codes "Embed it in the binary:")
      ∷ echo (codes "  OPENSHELL_BUILD_IMAGE_VM_ROOTFS_ARCHIVE=" ++ (archive_out ++ codes " \\"))
      ∷ echo (codes "    cargo build --release --features vm")
      ∷ []

abbrev pub ready : Text → Text → List Action
ready rootfs archive_out =
    echo []
    ∷ echo (codes "Rootfs ready at: " ++ rootfs)
    ∷ (archive_ready archive_out
        ++ echo []
          ∷ echo (codes "Build an image with it:")
          ∷ echo (
              codes
                "  openshell-build-image --runtime vm --from registry.example.com/myproject:dev --vm-rootfs "
              ++ (rootfs ++ codes " myimage:latest"))
          ∷ [])

-- What follows the trap.
abbrev pub behind_trap : Text → Text → Text → Text → List Action
behind_trap rootfs archive_out container archive =
    export rootfs container archive ++ (pack rootfs archive_out ++ ready rootfs archive_out)

module _ {S : Type 0} (sh : Shell S) where
  -- `cleanup`; the second command is under `|| true`.
  unfoldable pub cleanup : Text → Text → Io S ℕ (Unit {0})
  cleanup container archive = do
    removed ← answer sh (simple (words "rm -f" ++ archive ∷ []))
    removed ← asked sh (simple (words "podman rm" ++ container ∷ []))
    pure tt

  abbrev refuse : Completed × S → Result ℕ (Unit {0}) × S
  refuse (c, t) =
      if c.status == 0 then (ok tt, t) else next (answer sh podman_required t) (λ _ u. (err 1, u))

  -- `if ! command -v podman`
  unfoldable pub with_podman : Io S ℕ (Unit {0})
  with_podman s = refuse (sh.perform find_podman s)

  -- The commands behind `trap cleanup EXIT`: the trap is on every way out.
  unfoldable pub trapped : Text → Text → Text → Text → Io S ℕ (Unit {0})
  trapped rootfs archive_out container archive =
      finally (run_all sh (behind_trap rootfs archive_out container archive))
        (after (cleanup container archive))

  unfoldable pub make_rootfs : Text → List Text → Text → Io S ℕ (Unit {0})
  make_rootfs name args tmpdir = do
    directory ← asked sh (dirname name)
    directory ← answer sh (script_dir (trim_newlines directory))
    with_podman
    run_all sh (build_image (rootfs_of args) (trim_newlines directory))
    container ← answer sh create
    archive ← answer sh (mktemp tmpdir)
    trapped (rootfs_of args) (archive_out_of args) (trim_newlines container) (trim_newlines archive)
