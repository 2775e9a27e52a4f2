-- ===== src/VmRootfs/Permitting.antt =====
-- What `install` relies on for its success: that the host permits its calls, and that what is in their
-- way can be removed.
use openshell_image_builder.Base.{
  ℕ, true, false, List, ◌∷◌, ok, ◌≡◌, refl, sym, ◌∙◌, ap, inl, inr, Bool-cases, arith,
}
use openshell_image_builder.Base.Io.{after}
use openshell_image_builder.Base.Passes.{Passes}
use openshell_image_builder.Text.{Text}
use openshell_image_builder.FilePath.{FilePath, join, under}
use openshell_image_builder.FilePath.Laws.{
  IsName, join-base, under_self, under-tail, under-cancel, under-append_self, under-eq,
}
use openshell_image_builder.Host.{Stat, absent, FileSystem}
use openshell_image_builder.Host.Laws.{IsLawful}
use openshell_image_builder.Dns.{Net}
use openshell_image_builder.VmRootfs.{
  Unpacker, is_ok, marker, staging_name, remove_if_there, is_installed,
}
use openshell_image_builder.VmImage.Config.{new, check_rootfs, helper_of}
use openshell_image_builder.VmRootfs.Paths.{
  staging_name-IsName, usable, check_rootfs-usable, marker-eq,
}

module _ (fs : FileSystem) where
  -- Where something is at this path or on the way to it, it is a directory.
  abbrev pub IsClear : FilePath → fs.State → Type 0
  IsClear p s =
      (q : FilePath) → under q p ≡ true → (fs.stat s q).exists ≡ true → (fs.stat s q).is_dir ≡ true

  -- What is in the way, if anything, is a directory.
  abbrev pub IsRemovable : FilePath → fs.State → Type 0
  IsRemovable p s = (fs.stat s p).exists ≡ true → (fs.stat s p).is_dir ≡ true

  -- A missing directory has no entry, so no directory in the place of the marker.
  abbrev pub IsBare : FilePath → fs.State → Type 0
  IsBare p s = (fs.stat s p).exists ≡ false → (fs.stat s (join p marker)).is_dir ≡ false

  pub check_rootfs-dir :
      (p : FilePath) (s : fs.State)
      → is_ok (check_rootfs fs p s) ≡ true
      → (fs.stat s p).is_dir ≡ true
  check_rootfs-dir p s h =
      let usable_there : usable (fs.stat s p) (fs.stat s (helper_of p)) ≡ true =
        sym (check_rootfs-usable fs p s) ∙ h in
      ground (arith, usable_there)

  pub installed-dir :
      (net : Net fs.State) (p : FilePath) (key : Text) (s : fs.State)
      → is_installed fs net p key s ≡ true
      → (fs.stat s p).is_dir ≡ true
  unfolding is_installed new
  installed-dir net p key s h = check_rootfs-dir p s (ground (arith, h))

module _ (fs : FileSystem) (unpacker : Unpacker fs) (archive : List ℕ) (root : FilePath) where
  abbrev staging : FilePath
  staging = join root (staging_name unpacker.process_id)

  -- A host with the permissions and the room for it: a directory can be removed, one can be made where
  -- no file is in its way, a directory can be renamed to a name beside it that is free, the marker can
  -- be written in a directory that has no directory in its place, and the archive decodes and unpacks
  -- into a directory, with no directory in the place of the marker. Of a file, a missing path or a
  -- taken name nothing is said: there std returns an error.
  pub record IsPermitting : Type 0 where
    pub remove_dir_all :
        (p : FilePath) (s : fs.State)
        → (fs.stat s p).is_dir ≡ true
        → (fs.remove_dir_all p s).0 ≡ ok tt
    pub create_dir_all :
        (p : FilePath) (s : fs.State) → IsClear fs p s → (fs.create_dir_all p s).0 ≡ ok tt
    pub write :
        (p : FilePath) (t : Text) (s : fs.State)
        → (fs.stat s p).is_dir ≡ true
        → (fs.stat s (join p marker)).is_dir ≡ false
        → (fs.write (join p marker) t s).0 ≡ ok tt
    pub rename :
        (d : FilePath) (m n : Text) (s : fs.State)
        → IsName m
        → IsName n
        → (fs.stat s (join d m)).is_dir ≡ true
        → (fs.stat s (join d n)).exists ≡ false
        → (fs.rename (join d m) (join d n) s).0 ≡ ok tt
    pub decodes : (stream : unpacker.Stream) × (unpacker.decoder archive ≡ ok stream)
    pub unpacks :
        (stream : unpacker.Stream) (s : fs.State)
        → (fs.stat s staging).is_dir ≡ true
        → (fs.stat s (join staging marker)).is_dir ≡ false
        → ((unpacker.unpack stream staging s).0 ≡ ok tt)
          × ((fs.stat (after (unpacker.unpack stream staging) s) (join staging marker)).is_dir
              ≡ false)

  module _ (L : IsLawful fs) (N : IsPermitting) where
    pub remove_if_there-Passes :
        (p : FilePath) (s : fs.State) → IsRemovable fs p s → Passes (remove_if_there fs p s)
    remove_if_there-Passes p s removable = elim (Bool-cases (fs.stat s p).exists) [
      | inl there ↦ (tt, rw there (N.remove_dir_all p s (removable there)))
      | inr missing ↦ (tt, rw missing)
    ]

    -- What is gone with a tree is all that is at or below it.
    removed-absent :
        (p q : FilePath) (s : fs.State)
        → (fs.remove_dir_all p s).0 ≡ ok tt
        → under p q ≡ true
        → fs.stat (after (fs.remove_dir_all p) s) q ≡ absent
    removed-absent p q s removed below =
        let (r, (tail, spelled)) = under-eq p q below in
        rw spelled (L.remove_gone p r s tail removed)

    pub remove_if_there-gone :
        (p : FilePath) (s : fs.State)
        → IsRemovable fs p s
        → (fs.stat (remove_if_there fs p s).1 p).exists ≡ false
    remove_if_there-gone p s removable = elim (Bool-cases (fs.stat s p).exists) [
      | inl there ↦
          let gone = removed-absent p p s (N.remove_dir_all p s (removable there)) (under_self p) in
          rw there (ap (λ (x : Stat). x.exists) gone)
      | inr missing ↦ rw missing missing
    ]

    -- Removing what is there leaves the way to it clear.
    pub remove_if_there-IsClear :
        (p : FilePath) (s : fs.State) → IsClear fs p s → IsClear fs p (remove_if_there fs p s).1
    remove_if_there-IsClear p s clear q on_way = elim (Bool-cases (fs.stat s p).exists) [
      | inr missing ↦ rw missing (clear q on_way)
      | inl there ↦
          let removed = N.remove_dir_all p s (clear p (under_self p) there) in
          rw there (elim (Bool-cases (under p q)) [
            | inl below ↦ λ exists. absurd (cc (rw (removed-absent p q s removed below) at exists))
            | inr apart ↦ rw (L.remove_frame p q s apart) (clear q on_way)
          ])
    ]

    marker-below : under staging (join staging marker) ≡ true
    unfolding openshell_image_builder.FilePath.is_absolute
    marker-below =
        let name = staging_name unpacker.process_id in
        let at_dir = join-base root name (staging_name-IsName unpacker.process_id).1 in
        rw (
          marker-eq fs root name (staging_name-IsName unpacker.process_id),
          at_dir,
          under-cancel,
          under-tail name (b'/' ∷ marker) refl,
        )

    marker-not_above : under (join staging marker) staging ≡ false
    marker-not_above =
        let name = staging_name unpacker.process_id in
        rw (
          marker-eq fs root name (staging_name-IsName unpacker.process_id),
          join-base root name (staging_name-IsName unpacker.process_id).1,
          under-cancel,
          under-append_self name b'/' marker,
        )

    pub made-bare :
        (s : fs.State)
        → IsClear fs staging s
        → IsBare fs staging s
        → (fs.stat
            (after (fs.create_dir_all staging) (remove_if_there fs staging s).1)
            (join staging marker)).is_dir
          ≡ false
    made-bare s clear bare =
        rw
          (L.create_frame staging (join staging marker) (remove_if_there fs staging s).1
            marker-not_above)
          (elim (Bool-cases (fs.stat s staging).exists) [
            | inr missing ↦ rw missing (bare missing)
            | inl there ↦
                let removed =
                  N.remove_dir_all staging s (clear staging (under_self staging) there) in
                let gone = removed-absent staging (join staging marker) s removed marker-below in
                rw there (ap (λ (x : Stat). x.is_dir) gone)
          ])
