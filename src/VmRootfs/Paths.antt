-- ===== src/VmRootfs/Paths.antt =====
-- The paths that `install` uses: the installed tree, its marker and helper, and the staging tree.
use openshell_image_builder.Base.{
  ℕ, Bool, false, not, ◌&&◌, [], ◌∷◌, ◌++◌, append-nil, ◌==◌, All-append, All-map, Result, ok, err,
  ◌≡◌, refl, ◌≢◌, arith,
}
use Prim.Native.Nat.{bit_and}
use openshell_image_builder.Base.Io.{after}
use openshell_image_builder.Text.{Text, codes, show}
use openshell_image_builder.Text.Laws.{IsDigit, show-IsDigit}
use openshell_image_builder.FilePath.{FilePath, is_absolute, base, join, under}
use openshell_image_builder.FilePath.Laws.{
  IsName, IsTail, join-base, join-join, under-cancel, under_of_names_ne,
}
use openshell_image_builder.Host.{IoError, Stat, FileSystem}
use openshell_image_builder.Host.Laws.{IsLawful}
use openshell_image_builder.Dns.{Net}
use openshell_image_builder.VmImage.Config.{new, helper_of, check_rootfs, check_mode}
use openshell_image_builder.VmRootfs.{
  version, marker, staging_name, is_ok, matches, marker_matches, is_installed,
}

pub version-IsName : IsName version
version-IsName = ((λ e. cc e), omega arith)

pub staging_name-IsName : (pid : ℕ) → IsName (staging_name pid)
unfolding staging_name
staging_name-IsName pid = (
  (λ e. cc e),
  All-append (λ c. c ≢ b'/') (codes ".staging-0.13.0-next-") (show pid) (omega arith)
      (All-map (λ c (d : IsDigit c). omega arith) (show pid) (show-IsDigit pid)),
)

pub staging_name-ne : (pid : ℕ) → staging_name pid ≢ version
unfolding staging_name
staging_name-ne pid e = cc e

-- What lies at and below the directory of one name is as it was.
abbrev pub Keeps : (fs : FileSystem) → FilePath → Text → fs.State → fs.State → Type 0
Keeps fs root n s t =
    (r : Text) → IsTail r → fs.stat t (base root ++ (n ++ r)) ≡ fs.stat s (base root ++ (n ++ r))

abbrev pub helper : Text
helper = codes "usr/local/bin/vm-build"

-- The test of the rootfs, read off the answers for two paths.
abbrev pub usable : Stat → Stat → Bool
usable d h =
    d.is_dir && h.is_file && elim h.mode [ err e ↦ false | ok mode ↦ not (bit_and mode 0o111 == 0) ]

is_ok-check_mode :
    (p : FilePath) (r : Result IoError ℕ)
    → is_ok (check_mode p r) ≡ elim r [ err e ↦ false | ok mode ↦ not (bit_and mode 0o111 == 0) ]
unfolding check_mode
is_ok-check_mode p (ok m) = ground arith
is_ok-check_mode p (err e) = refl

pub check_rootfs-usable :
    (fs : FileSystem) (p : FilePath) (s : fs.State)
    → is_ok (check_rootfs fs p s) ≡ usable (fs.stat s p) (fs.stat s (helper_of p))
unfolding check_rootfs
check_rootfs-usable fs p s = ground (arith, is_ok-check_mode p (fs.stat s (helper_of p)).mode)

module _ (fs : FileSystem) (root : FilePath) where
  pub dir-eq : (n : Text) → IsName n → join root n ≡ base root ++ (n ++ [])
  dir-eq n h = rw (join-base root n h.1, append-nil)

  pub marker-eq :
      (n : Text) → IsName n → join (join root n) marker ≡ base root ++ (n ++ b'/' ∷ marker)
  marker-eq n h = join-join root n marker h (unfold is_absolute in refl)

  pub helper-eq :
      (n : Text) → IsName n → helper_of (join root n) ≡ base root ++ (n ++ b'/' ∷ helper)
  unfolding helper_of join
  helper-eq n h = join-join root n helper h (unfold is_absolute in refl)

  -- Everything below one name in `s` is below another in `t`, as it was.
  abbrev pub Moves : Text → Text → fs.State → fs.State → Type 0
  Moves m n s t =
      (r : Text) → IsTail r → fs.stat t (base root ++ (n ++ r)) ≡ fs.stat s (base root ++ (m ++ r))

  pub installed-eq :
      (net : Net fs.State) (n key : Text) (s : fs.State)
      → IsName n
      → is_installed fs net (join root n) key s ≡ (
          matches key (fs.stat s (base root ++ (n ++ b'/' ∷ marker))).contents
          && usable
              (fs.stat s (base root ++ (n ++ [])))
              (fs.stat s (base root ++ (n ++ b'/' ∷ helper))))
  unfolding is_installed marker_matches new
  installed-eq net n key s h =
      rw (check_rootfs-usable fs (join root n) s, marker-eq n h, helper-eq n h, dir-eq n h)

  -- The test of an installed tree depends on what lies at and below its directory only.
  pub is_installed-Moves :
      (net : Net fs.State) (m n key : Text) (s t : fs.State)
      → IsName m
      → IsName n
      → Moves m n s t
      → is_installed fs net (join root n) key t ≡ is_installed fs net (join root m) key s
  unfolding is_absolute
  is_installed-Moves net m n key s t hm hn moves = rw (
    installed-eq net n key t hn,
    installed-eq net m key s hm,
    moves (b'/' ∷ marker) refl,
    moves (b'/' ∷ helper) refl,
    moves [] refl,
  )

  module _ (L : IsLawful fs) where
    -- Two names differ, so neither tree is in the other.
    pub under-names :
        (n m r : Text)
        → IsName n
        → IsName m
        → n ≢ m
        → IsTail r
        → under (join root n) (base root ++ (m ++ r)) ≡ false
    under-names n m r hn hm ne tail =
        rw (join-base root n hn.1, under-cancel) (under_of_names_ne n m r hn.1 hm.1 ne tail)

    pub remove-Keeps :
        (n m : Text) (s : fs.State)
        → IsName n
        → IsName m
        → n ≢ m
        → Keeps fs root m s (after (fs.remove_dir_all (join root n)) s)
    remove-Keeps n m s hn hm ne r tail =
        L.remove_frame (join root n) (base root ++ (m ++ r)) s (under-names n m r hn hm ne tail)
