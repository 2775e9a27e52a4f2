-- ===== src/Tests/Rootfs.antt =====
-- The embedded rootfs at concrete inputs: a first installation, and archives that fail.
use openshell_image_builder.Base.{
  any, map, ℕ, Bool, true, false, Option, none, some, List, [], ◌∷◌, ◌++◌, is_empty, if◌then◌else◌,
  Result, ok, err, ◌≡◌, refl, sym, ◌∙◌, ap, ◌≢◌, ◌⊎◌, inl, inr, arith, Bool-cases, append-nil,
}
use openshell_image_builder.Base.Io.{after, ok_injective, state_eq}
use openshell_image_builder.Text.{Text, codes, text_eq}
use openshell_image_builder.Text.Laws.{text_eq_iff}
use openshell_image_builder.FilePath.{FilePath, join, under}
use openshell_image_builder.FilePath.Laws.{under_self}
use openshell_image_builder.Host.{IoError}
use openshell_image_builder.Host.Memory.{Node, nothing, dir, file, stat_of, Disk, put}
use openshell_image_builder.VmImage.Config.{check_rootfs}
use openshell_image_builder.VmRootfs.{
  version, marker, cache_key, is_installed, stage, staging_name, sweep_old_versions, install,
  at_path,
}
use openshell_image_builder.VmRootfs.Paths.{version-IsName, Keeps}
use openshell_image_builder.VmRootfs.Sweep.{
  sweep_old_versions-Keeps, version-IsProtected, sweep_old_versions-IsSwept,
}
use openshell_image_builder.VmRootfs.Staged.{HoldsRootfs}
use openshell_image_builder.VmRootfs.Install.{install-is_installed, install-idempotent}
use openshell_image_builder.VmRootfs.Permitting.{IsPermitting}
use openshell_image_builder.VmRootfs.Success.{install-succeeds}
use openshell_image_builder.VmRootfs.Failure.{UnpacksInside, install-cleaned, install-stage_failed}
use openshell_image_builder.Text.{starts_with, to_string_lossy}
use openshell_image_builder.FilePath.{path_eq}
use openshell_image_builder.VmRootfs.{staging_prefix}
use openshell_image_builder.Tests.World.{
  names, names-IsName, fs, fs-IsLawful, net, unpacker, root, staging, staged_helper, archive,
  broken, digest, empty_disk, paired,
}

sweep_old_versions-Keeps_example :
    Keeps fs root version empty_disk (sweep_old_versions fs root (join root version) empty_disk)
sweep_old_versions-Keeps_example =
    sweep_old_versions-Keeps fs fs-IsLawful root (join root version) version version-IsName
      (version-IsProtected root version) empty_disk

abbrev old : Text
old = codes "0.12.0"

old-other : path_eq (join root old) (join root version) ≡ false
unfolding openshell_image_builder.FilePath.path_eq openshell_image_builder.FilePath.join
old-other = refl

old-unstaged : starts_with staging_prefix (to_string_lossy old) ≡ false
unfolding openshell_image_builder.Text.starts_with openshell_image_builder.Text.to_string_lossy
old-unstaged = refl

old-listed : any (λ m. text_eq m old) names ≡ true
unfolding openshell_image_builder.Text.text_eq
old-listed = refl

abbrev old_disk : Disk
old_disk = put (codes "/r/0.12.0") dir empty_disk

sweep_old_versions-IsSwept_example :
    (fs.stat (sweep_old_versions fs root (join root version) old_disk) (join root old)).is_dir
    ≡ false
sweep_old_versions-IsSwept_example =
    sweep_old_versions-IsSwept fs fs-IsLawful root (join root version) old names-IsName.0 old-other
      old-unstaged (λ p s. refl) old_disk (map ok names) refl old-listed

-- The tree that the archive unpacks to.
abbrev pub unpacked : Disk → Disk
unpacked d = put staged_helper (file 0o755 []) (put staging dir d)

pub unpacked-usable : (d : Disk) → check_rootfs fs staging (unpacked d) ≡ ok tt
unfolding openshell_image_builder.Text.text_eq openshell_image_builder.VmImage.Config.check_rootfs
    openshell_image_builder.VmImage.Config.check_mode
    openshell_image_builder.VmImage.Config.helper_of
unpacked-usable d = refl

archive-HoldsRootfs : HoldsRootfs fs net unpacker archive
archive-HoldsRootfs stream p s t _ h = elim (Bool-cases (text_eq staging p)) [
  | inr elsewhere ↦ absurd (cc (rw elsewhere at h))
  | inl here ↦
      let same : staging ≡ p = (text_eq_iff staging p).0 here in
      let end : unpacked s ≡ t = state_eq {E = IoError} (rw here at h) in
      rw (← same, ← end) (unpacked-usable s)
]

abbrev first_run : Result Text FilePath × Disk
first_run = install fs net unpacker archive digest root empty_disk

first_run-ok : first_run.0 ≡ ok (join root version)
unfolding openshell_image_builder.FilePath.join openshell_image_builder.FilePath.under
    openshell_image_builder.Text.show openshell_image_builder.Base.Io.next
    openshell_image_builder.Base.Io.retag openshell_image_builder.FilePath.parent
    openshell_image_builder.VmRootfs.install openshell_image_builder.VmRootfs.is_installed
    openshell_image_builder.VmRootfs.marker_matches openshell_image_builder.VmRootfs.staging_name
    openshell_image_builder.VmRootfs.staging_dir openshell_image_builder.VmRootfs.unpack_and_place
    openshell_image_builder.VmRootfs.stage openshell_image_builder.VmRootfs.place
    openshell_image_builder.VmRootfs.put_in_place
first_run-ok = refl

install-is_installed_example :
    (join root version ≡ join root version)
    × (is_installed fs net (join root version) (cache_key digest) first_run.1 ≡ true)
install-is_installed_example =
    install-is_installed fs net unpacker archive fs-IsLawful root digest (join root version)
      empty_disk first_run.1 archive-HoldsRootfs (paired first_run first_run-ok)

install-idempotent_example :
    install fs net unpacker archive digest root first_run.1 ≡ (ok (join root version), first_run.1)
install-idempotent_example =
    install-idempotent fs net unpacker archive fs-IsLawful root digest (join root version)
      empty_disk first_run.1 archive-HoldsRootfs (paired first_run first_run-ok)

abbrev unreadable : Text
unreadable = codes "read the embedded VM rootfs: failed"

abbrev broken_run : Result Text FilePath × Disk
broken_run = install fs net unpacker broken digest root empty_disk

broken_run-err : broken_run.0 ≡ err unreadable
unfolding openshell_image_builder.Base.Io.next openshell_image_builder.Base.Io.retag
    openshell_image_builder.VmRootfs.install openshell_image_builder.VmRootfs.is_installed
    openshell_image_builder.VmRootfs.marker_matches
    openshell_image_builder.VmRootfs.unpack_and_place openshell_image_builder.VmRootfs.stage
broken_run-err = refl

install-cleaned_example :
    ((broken ≡ []) × (broken_run.1 ≡ empty_disk))
    ⊎ ((u : Disk) × (broken_run.1 ≡ after (fs.remove_dir_all (join root (staging_name 7))) u))
install-cleaned_example =
    install-cleaned fs net unpacker broken root digest unreadable empty_disk broken_run.1
      (paired broken_run broken_run-err)

helper-inside : under staging staged_helper ≡ true
unfolding openshell_image_builder.FilePath.under
helper-inside = refl

apart-ne : (p q : FilePath) → under staging p ≡ true → under staging q ≡ false → text_eq p q ≡ false
apart-ne p q inside outside = elim (Bool-cases (text_eq p q)) [
  | inr differ ↦ differ
  | inl same ↦ absurd (cc ((text_eq_iff p q).0 same, inside, outside))
]

unpacks-inside : (bytes : List ℕ) → UnpacksInside fs net unpacker bytes root
unfolding openshell_image_builder.Text.text_eq
unpacks-inside bytes stream p q s apart = elim (Bool-cases (text_eq staging p)) [
  | inr elsewhere ↦ rw elsewhere
  | inl here ↦
      let same : staging ≡ p = (text_eq_iff staging p).0 here in
      let out : under staging q ≡ false = rw same apart in
      rw (
        here,
        apart-ne staged_helper q helper-inside out,
        apart-ne staging q (under_self staging) out,
      )
]

abbrev broken_stage : Result Text (Unit {0}) × Disk
broken_stage =
    stage fs net unpacker broken (cache_key digest) (join root (staging_name 7)) empty_disk

broken_stage-err : broken_stage.0 ≡ err unreadable
unfolding openshell_image_builder.Base.Io.next openshell_image_builder.Base.Io.retag
    openshell_image_builder.VmRootfs.stage
broken_stage-err = refl

not_there : is_installed fs net (join root version) (cache_key digest) empty_disk ≡ false
unfolding openshell_image_builder.VmRootfs.is_installed
    openshell_image_builder.VmRootfs.marker_matches
not_there = refl

install-stage_failed_example :
    (install fs net unpacker broken digest root empty_disk
      ≡ (err unreadable, after (fs.remove_dir_all (join root (staging_name 7))) broken_stage.1))
    × Keeps fs root version empty_disk
        (after (install fs net unpacker broken digest root) empty_disk)
install-stage_failed_example =
    install-stage_failed fs net unpacker broken root fs-IsLawful (unpacks-inside broken) digest
      unreadable empty_disk broken_stage.1 (λ e. cc e) not_there
      (paired broken_stage broken_stage-err)

create-clear :
    (n : Node) (p : FilePath) (d : Disk)
    → d p ≡ n
    → ((stat_of n).exists ≡ true → (stat_of n).is_dir ≡ true)
    → (fs.create_dir_all p d).0 ≡ ok tt
create-clear nothing p d e h = rw e
create-clear dir p d e h = rw e
create-clear (file mode text) p d e h = absurd (cc (h refl))

-- The archive of the tests has a helper, and nothing in the place of the marker.
unpacks-bare :
    (d : Disk)
    → (fs.stat d (join (join root (staging_name 7)) marker)).is_dir ≡ false
    → ((unpacker.unpack [] (join root (staging_name 7)) d).0 ≡ ok tt)
      × ((fs.stat
            (after (unpacker.unpack [] (join root (staging_name 7))) d)
            (join (join root (staging_name 7)) marker)).is_dir
          ≡ false)
unfolding openshell_image_builder.FilePath.join openshell_image_builder.FilePath.is_absolute
    openshell_image_builder.FilePath.base openshell_image_builder.FilePath.ends_with_slash
    openshell_image_builder.Text.text_eq openshell_image_builder.Text.show
    openshell_image_builder.VmRootfs.staging_name
unpacks-bare d bare = (refl, bare)

world-IsPermitting : IsPermitting fs unpacker archive root
world-IsPermitting = record {
  remove_dir_all = λ p s _. refl;
  create_dir_all = λ p s clear. create-clear (s p) p s refl (clear p (under_self p));
  write = λ p t s _ _. refl;
  rename = λ d m n s _ _ _ _. refl;
  decodes = (0xb5 ∷ [], refl);
  unpacks = λ stream s _ bare. unpacks-bare s bare;
}

-- A host on which an earlier run has left a torn tree of this version and a staging directory.
abbrev cluttered : Disk
cluttered = put (join root version) dir (put (join root (staging_name 7)) dir empty_disk)

cluttered-dirs :
    (q : FilePath) → (fs.stat cluttered q).exists ≡ true → (fs.stat cluttered q).is_dir ≡ true
cluttered-dirs q there = elim (Bool-cases (text_eq (join root version) q)) [
  | inl here ↦ rw here
  | inr other ↦ elim (Bool-cases (text_eq (join root (staging_name 7)) q)) [
    | inl here ↦ rw (other, here)
    | inr elsewhere ↦ absurd (cc (rw (other, elsewhere) at there))
  ]
]

cluttered-bare : (fs.stat cluttered (join (join root (staging_name 7)) marker)).is_dir ≡ false
unfolding openshell_image_builder.FilePath.join openshell_image_builder.FilePath.is_absolute
    openshell_image_builder.FilePath.base openshell_image_builder.FilePath.ends_with_slash
    openshell_image_builder.Text.text_eq openshell_image_builder.Text.show
    openshell_image_builder.VmRootfs.staging_name
cluttered-bare = refl

install-succeeds_example :
    ((install fs net unpacker archive digest root cluttered).0 ≡ ok (join root version))
    × (is_installed fs net
          (join root version)
          (cache_key digest)
          (install fs net unpacker archive digest root cluttered).1
        ≡ true)
install-succeeds_example =
    install-succeeds fs net unpacker archive root fs-IsLawful world-IsPermitting digest cluttered
      archive-HoldsRootfs (unpacks-inside archive) refl (λ q _. cluttered-dirs q)
      (λ _. cluttered-bare) (cluttered-dirs (join root version))
