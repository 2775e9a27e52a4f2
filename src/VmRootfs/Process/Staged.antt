-- ===== src/VmRootfs/Process/Staged.antt =====
-- Interleaved processes: the staging tree of each.
use openshell_image_builder.Base.{ℕ, true, List, [], ◌∷◌, ◌++◌, ◌≡◌, refl, ◌∙◌, ap, inr}
use openshell_image_builder.Text.{Text, codes, show, starts_with, strip_prefix, to_string_lossy}
use openshell_image_builder.Text.Laws.{show_injective}
use openshell_image_builder.FilePath.{FilePath, base, join}
use openshell_image_builder.FilePath.Laws.{IsName}
use openshell_image_builder.Host.{FileSystem}
use openshell_image_builder.Dns.{Net}
use openshell_image_builder.VmImage.Config.{check_rootfs}
use openshell_image_builder.VmRootfs.{
  Unpacker, version, staging_prefix, staging_name, is_ok, is_installed,
}
use openshell_image_builder.VmRootfs.Paths.{
  staging_name-IsName, check_rootfs-usable, dir-eq, helper-eq, Keeps, is_installed-Moves,
}
use openshell_image_builder.VmRootfs.Sweep.{IsProtected}
use openshell_image_builder.VmRootfs.Process.{
  Pc, looking, clearing, creating, unpacking, marking, relooking, leaving, removing, renaming,
  listing, sweeping, cleaning, ended, key, move,
}
use openshell_image_builder.VmRootfs.Process.Frame.{HasNames}

pub staging_name-IsProtected :
    (root current : FilePath) (i : ℕ) → IsProtected root current (staging_name i)
unfolding staging_name to_string_lossy starts_with openshell_image_builder.Text.strip_prefix
staging_name-IsProtected root current i = inr refl

-- Processes with different ids have different staging directories.
pub staging_name_injective : (i j : ℕ) → staging_name i ≡ staging_name j → i ≡ j
unfolding staging_name strip_prefix
staging_name_injective i j e =
    let rest = ap (strip_prefix (staging_prefix ++ (version ++ codes "-"))) e in
    show_injective i j (cc rest)

module _ (fs : FileSystem) (net : Net fs.State) (unpacker : Unpacker fs) (archive : List ℕ)
    (digest : Text) (root : FilePath) where
  abbrev go : ℕ → Pc → fs.State → Pc × fs.State
  go = move fs net unpacker archive digest root

  abbrev the_key : Text
  the_key = key fs net unpacker archive digest root

  -- What is in the staging directory of the process `i` when it stands at a place.
  unfoldable pub HasStaged : ℕ → Pc → fs.State → Type 0
  HasStaged i marking s = is_ok (check_rootfs fs (join root (staging_name i)) s) ≡ true
  HasStaged i relooking s = is_installed fs net (join root (staging_name i)) the_key s ≡ true
  HasStaged i removing s = is_installed fs net (join root (staging_name i)) the_key s ≡ true
  HasStaged i renaming s = is_installed fs net (join root (staging_name i)) the_key s ≡ true
  HasStaged i pc s = HasNames pc

  pub HasStaged-HasNames : (i : ℕ) (pc : Pc) (s : fs.State) → HasStaged i pc s → HasNames pc
  unfolding HasStaged
  HasStaged-HasNames i looking s h = tt
  HasStaged-HasNames i clearing s h = tt
  HasStaged-HasNames i creating s h = tt
  HasStaged-HasNames i unpacking s h = tt
  HasStaged-HasNames i marking s h = tt
  HasStaged-HasNames i relooking s h = tt
  HasStaged-HasNames i leaving s h = tt
  HasStaged-HasNames i removing s h = tt
  HasStaged-HasNames i renaming s h = tt
  HasStaged-HasNames i listing s h = tt
  HasStaged-HasNames i (sweeping es) s h = h
  HasStaged-HasNames i (cleaning e) s h = tt
  HasStaged-HasNames i (ended r) s h = tt

  check-Keeps :
      (n : Text) (s t : fs.State)
      → IsName n
      → Keeps fs root n s t
      → is_ok (check_rootfs fs (join root n) t) ≡ is_ok (check_rootfs fs (join root n) s)
  unfolding openshell_image_builder.FilePath.is_absolute
  check-Keeps n s t hn kept = rw (
    check_rootfs-usable fs (join root n) t,
    check_rootfs-usable fs (join root n) s,
    helper-eq fs root n hn,
    dir-eq fs root n hn,
    kept [] refl,
    kept (b'/' ∷ codes "usr/local/bin/vm-build") refl,
  )

  installed-Keeps :
      (i : ℕ) (s t : fs.State)
      → Keeps fs root (staging_name i) s t
      → is_installed fs net (join root (staging_name i)) the_key s ≡ true
      → is_installed fs net (join root (staging_name i)) the_key t ≡ true
  installed-Keeps i s t kept h =
      is_installed-Moves fs root net (staging_name i) (staging_name i) the_key s t
        (staging_name-IsName i) (staging_name-IsName i) kept
      ∙ h

  -- It depends on the staging tree only.
  pub HasStaged-Keeps :
      (i : ℕ) (pc : Pc) (s t : fs.State)
      → Keeps fs root (staging_name i) s t
      → HasStaged i pc s
      → HasStaged i pc t
  unfolding HasStaged
  HasStaged-Keeps i looking s t kept h = tt
  HasStaged-Keeps i clearing s t kept h = tt
  HasStaged-Keeps i creating s t kept h = tt
  HasStaged-Keeps i unpacking s t kept h = tt
  HasStaged-Keeps i marking s t kept h =
      check-Keeps (staging_name i) s t (staging_name-IsName i) kept ∙ h
  HasStaged-Keeps i relooking s t kept h = installed-Keeps i s t kept h
  HasStaged-Keeps i leaving s t kept h = tt
  HasStaged-Keeps i removing s t kept h = installed-Keeps i s t kept h
  HasStaged-Keeps i renaming s t kept h = installed-Keeps i s t kept h
  HasStaged-Keeps i listing s t kept h = tt
  HasStaged-Keeps i (sweeping es) s t kept h = h
  HasStaged-Keeps i (cleaning e) s t kept h = tt
  HasStaged-Keeps i (ended r) s t kept h = tt
