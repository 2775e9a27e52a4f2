-- ===== src/VmRootfs/Success.antt =====
-- An `install` on a host that has a reason to refuse none of its calls.
use openshell_image_builder.Base.{
  ℕ, true, false, List, [], is_empty, Result, ok, ◌≡◌, refl, ap, inl, inr, Bool-cases,
}
use openshell_image_builder.Base.Io.{next, retag, after, with_err, map_err-eq-ok}
use openshell_image_builder.Base.Passes.{
  Passes, next-Passes, retag-Passes, retag-state, cleaned-Passes, cleaned-state, passed-eq,
}
use openshell_image_builder.Text.{Text, codes}
use openshell_image_builder.FilePath.{FilePath, join}
use openshell_image_builder.FilePath.Laws.{nil-IsTail, under_self}
use openshell_image_builder.Host.{FileSystem}
use openshell_image_builder.Host.Laws.{IsLawful}
use openshell_image_builder.Dns.{Net}
use openshell_image_builder.VmRootfs.{
  Unpacker, is_ok, at_path, version, marker, cache_key, staging_name, remove_if_there, is_installed,
  stage, put_in_place, place, staging_dir, unpack_and_place, install,
}
use openshell_image_builder.VmRootfs.Paths.{version-IsName, staging_name-IsName, dir-eq}
use openshell_image_builder.VmRootfs.Failure.{UnpacksInside, stage-IsHarmless}
use openshell_image_builder.VmRootfs.Staged.{HoldsRootfs, cache_key-trim, stage-installed}
use openshell_image_builder.VmRootfs.Install.{remove_old-installed, install-is_installed}
use openshell_image_builder.VmRootfs.Permitting.{
  IsClear, IsRemovable, IsBare, IsPermitting, check_rootfs-dir, installed-dir,
  remove_if_there-Passes, remove_if_there-gone, remove_if_there-IsClear, made-bare,
}

module _ (fs : FileSystem) (net : Net fs.State) (unpacker : Unpacker fs) (archive : List ℕ)
    (root : FilePath) where
  abbrev staging : FilePath
  staging = join root (staging_name unpacker.process_id)

  abbrev dir : FilePath
  dir = join root version

  module _ (L : IsLawful fs) (N : IsPermitting fs unpacker archive root) where
    -- `stage`, from the state in which the staging directory has been made.
    unpack-Passes :
        (key : Text) (stream : unpacker.Stream) (s : fs.State)
        → HoldsRootfs fs net unpacker archive
        → unpacker.decoder archive ≡ ok stream
        → (fs.stat s staging).is_dir ≡ true
        → (fs.stat s (join staging marker)).is_dir ≡ false
        → Passes (
            next
              (retag
                (at_path (codes "unpack the embedded VM rootfs into") staging)
                (unpacker.unpack stream staging s))
              (λ _.
                with_err
                  (at_path (codes "write") (join staging marker))
                  (fs.write (join staging marker) key)))
    unpack-Passes key stream s holds opened made bare =
        let x = unpacker.unpack stream staging s in
        let (passed, unmarked) = N.unpacks stream s made bare in
        let full = holds stream staging s x.1 opened (passed-eq x passed) in
        let there = check_rootfs-dir fs staging x.1 (ap is_ok full) in
        next-Passes _ _ (retag-Passes _ x (tt, passed)) λ _ _.
          retag-Passes _ (fs.write (join staging marker) key _)
            (tt, rw (retag-state _ x) (N.write staging key x.1 there unmarked))

    stage-Passes :
        (key : Text) (s : fs.State)
        → HoldsRootfs fs net unpacker archive
        → IsClear fs staging s
        → IsBare fs staging s
        → Passes (stage fs net unpacker archive key staging s)
    unfolding stage
    stage-Passes key s holds clear bare =
        let x = remove_if_there fs staging s in
        let made =
          N.create_dir_all staging x.1
            (remove_if_there-IsClear fs unpacker archive root L N staging s clear) in
        next-Passes _ _
          (retag-Passes _ x (
            remove_if_there-Passes fs unpacker archive root L N staging s
              (clear staging (under_self staging))))
          λ _ _.
            next-Passes _ _
              (retag-Passes _ (fs.create_dir_all staging _) (tt, rw (retag-state _ x) made))
              λ _ _.
                next-Passes _ _ (N.decodes.0, rw N.decodes.1)
                  λ stream opened.
                    unpack-Passes key stream _ holds
                      (map_err-eq-ok _ (unpacker.decoder archive) opened)
                      (rw (retag-state _ (fs.create_dir_all staging (retag _ x).1), retag-state _ x)
                        (L.create_dir staging x.1 made))
                      (rw (retag-state _ (fs.create_dir_all staging (retag _ x).1), retag-state _ x)
                        (made-bare fs unpacker archive root L N s clear bare))

    put_in_place-Passes :
        (key : Text) (s : fs.State)
        → is_installed fs net staging key s ≡ true
        → IsRemovable fs dir s
        → Passes (put_in_place fs net unpacker root dir staging s)
    unfolding put_in_place
    put_in_place-Passes key s staged removable =
        let clean = after (fs.remove_dir_all staging) in
        let x = remove_if_there fs dir s in
        let removed = remove_if_there-Passes fs unpacker archive root L N dir s removable in
        let kept =
          remove_old-installed fs net unpacker archive L root key s x.1 staged
            (passed-eq x removed.1) in
        let ready =
          N.rename root (staging_name unpacker.process_id) version x.1
            (staging_name-IsName unpacker.process_id) version-IsName
            (installed-dir fs net staging key x.1 kept)
            (remove_if_there-gone fs unpacker archive root L N dir s removable) in
        let y = retag (at_path (codes "remove stale VM rootfs") dir) x in
        let told = retag-Passes _ x removed in
        next-Passes _ _ (cleaned-Passes clean y told) λ _ _.
          next-Passes _ _
            (cleaned-Passes clean _ (
              retag-Passes _ (fs.rename staging dir _)
                (tt, rw (cleaned-state clean y told, retag-state _ x) ready)))
            λ _ _. (dir, refl)

    place-Passes :
        (key : Text) (s : fs.State)
        → is_installed fs net staging key s ≡ true
        → IsRemovable fs dir s
        → Passes (place fs net unpacker root dir staging key s)
    unfolding place
    place-Passes key s staged removable = elim (Bool-cases (is_installed fs net dir key s)) [
      | inl there ↦ (dir, rw there)
      | inr other ↦ rw other (put_in_place-Passes key s staged removable)
    ]

    staged-Passes :
        (digest : Text) (s : fs.State)
        → HoldsRootfs fs net unpacker archive
        → UnpacksInside fs net unpacker archive root
        → IsClear fs staging s
        → IsBare fs staging s
        → IsRemovable fs dir s
        → Passes (unpack_and_place fs net unpacker archive (cache_key digest) root s)
    unfolding unpack_and_place staging_dir
    staged-Passes digest s holds inside clear bare removable =
        let clean = after (fs.remove_dir_all staging) in
        let x = stage fs net unpacker archive (cache_key digest) staging s in
        let passed = stage-Passes (cache_key digest) s holds clear bare in
        let installed =
          stage-installed fs net unpacker archive L root (cache_key digest) s x.1 holds
            (cache_key-trim digest) (passed-eq x passed.1) in
        let same : fs.stat x.1 dir ≡ fs.stat s dir = rw (dir-eq fs root version version-IsName) (
          stage-IsHarmless fs net unpacker archive root L inside (cache_key digest) s []
            nil-IsTail) in
        let kept : IsRemovable fs dir x.1 = rw same removable in
        next-Passes _ _ (cleaned-Passes clean x passed) λ _ _.
          place-Passes (cache_key digest) _ (rw (cleaned-state clean x passed) installed)
            (rw (cleaned-state clean x passed) kept)

    install-Passes :
        (digest : Text) (s : fs.State)
        → HoldsRootfs fs net unpacker archive
        → UnpacksInside fs net unpacker archive root
        → is_empty archive ≡ false
        → IsClear fs staging s
        → IsBare fs staging s
        → IsRemovable fs dir s
        → Passes (install fs net unpacker archive digest root s)
    unfolding install
    install-Passes digest s holds inside full clear bare removable =
        elim (Bool-cases (is_installed fs net dir (cache_key digest) s)) [
          | inl there ↦ (dir, rw (full, there))
          | inr other ↦ rw (full, other) (staged-Passes digest s holds inside clear bare removable)
        ]

    -- On a lawful file system with the permissions and the room for it, for a binary with an archive
    -- that decodes, unpacks inside its destination and holds a build rootfs: from every state in which
    -- no file stands at the directory of this version, at the staging directory of the process or on the
    -- way to it, and a staging directory that is missing has nothing in it, `install` succeeds, returns
    -- the directory of this version, and leaves a rootfs there that passes its check, with the marker of
    -- the archive. An older or torn tree in the place of this version, or a staging directory that was
    -- left behind, does not stop it.
    pub install-succeeds :
        (digest : Text) (s : fs.State)
        → HoldsRootfs fs net unpacker archive
        → UnpacksInside fs net unpacker archive root
        → is_empty archive ≡ false
        → IsClear fs staging s
        → IsBare fs staging s
        → IsRemovable fs dir s
        → ((install fs net unpacker archive digest root s).0 ≡ ok (join root version))
          × (is_installed fs net
                (join root version)
                (cache_key digest)
                (install fs net unpacker archive digest root s).1
              ≡ true)
    install-succeeds digest s holds inside full clear bare removable =
        let (d, passed) = install-Passes digest s holds inside full clear bare removable in
        let run = install fs net unpacker archive digest root s in
        let whole : run ≡ (ok d, run.1) = ap (λ (r : Result Text FilePath). (r, run.1)) passed in
        let (same, there) =
          install-is_installed fs net unpacker archive L root digest d s run.1 holds whole in
        (rw (← same) passed, there)
