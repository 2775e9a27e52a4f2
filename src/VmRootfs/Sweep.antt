-- ===== src/VmRootfs/Sweep.antt =====
-- `sweep_old_versions`: what it leaves alone, and what it removes.
use openshell_image_builder.Base.{
  ap, any, [], ◌++◌, append-nil, true, false, not, ◌||◌, List, [], ◌∷◌, All, Result, ok, err, ◌≡◌,
  refl, ◌∙◌, ◌≢◌, ◌⊎◌, inl, inr, Bool-cases, Result-cases, arith,
}
use openshell_image_builder.Text.{Text, text_eq, starts_with, to_string_lossy}
use openshell_image_builder.Text.Laws.{text_eq_iff}
use openshell_image_builder.Base.Io.{after}
use openshell_image_builder.FilePath.{FilePath, is_absolute, base, path_eq, join}
use openshell_image_builder.FilePath.Laws.{IsName, path_eq_refl, join-base}
use openshell_image_builder.Host.{IoError, Stat, FileSystem}
use openshell_image_builder.Host.Laws.{IsLawful, flatten}
use openshell_image_builder.VmRootfs.{
  staging_prefix, sweep_entry, sweep_entries, sweep_old_versions,
}
use openshell_image_builder.VmRootfs.Paths.{Keeps, remove-Keeps}

-- The entries that the sweep must not touch: the tree just installed, and the staging trees.
abbrev pub IsProtected : FilePath → FilePath → Text → Type 0
IsProtected root current n =
    (path_eq (join root n) current ≡ true) ⊎ (starts_with staging_prefix (to_string_lossy n) ≡ true)

module _ (fs : FileSystem) (L : IsLawful fs) (root current m : Text) (hm : IsName m)
    (safe : IsProtected root current m) where
  differs :
      (n : Text)
      → path_eq (join root n) current ≡ false
      → starts_with staging_prefix (to_string_lossy n) ≡ false
      → n ≢ m
  differs n other unstaged e = elim safe [
    | inl same ↦ cc (e, same, other)
    | inr staged ↦ cc (e, staged, unstaged)
  ]

  pub sweep_entry-Keeps :
      (n : Text) (s : fs.State) → IsName n → Keeps fs root m s (sweep_entry fs root current n s)
  unfolding sweep_entry
  sweep_entry-Keeps n s hn r tail =
      elim (Bool-cases (path_eq (join root n) current || not (fs.stat s (join root n)).is_dir)) [
        | inl skip ↦ rw skip
        | inr try ↦ elim (Bool-cases (starts_with staging_prefix (to_string_lossy n))) [
          | inl staged ↦ rw (try, staged)
          | inr unstaged ↦
              rw (try, unstaged)
                (remove-Keeps fs root L n m s hn hm (differs n (ground (arith, try)) unstaged) r
                  tail)
        ]
      ]

  sweep_entries-Keeps :
      (es : List (Result IoError Text)) (s : fs.State)
      → All IsName (flatten es)
      → Keeps fs root m s (sweep_entries fs root current es s)
  unfolding sweep_entries
  sweep_entries-Keeps [] s _ r tail = refl
  sweep_entries-Keeps (err e ∷ es) s h r tail = sweep_entries-Keeps es s h r tail
  sweep_entries-Keeps (ok n ∷ es) s (hn, h) r tail =
      sweep_entries-Keeps es (sweep_entry fs root current n s) h r tail
      ∙ sweep_entry-Keeps n s hn r tail

  -- On a lawful file system the sweep leaves the tree of the current version, and every staging tree,
  -- with all that is below them, as they were, whatever else lies in the directory.
  pub sweep_old_versions-Keeps :
      (s : fs.State) → Keeps fs root m s (sweep_old_versions fs root current s)
  unfolding sweep_old_versions
  sweep_old_versions-Keeps s r tail = elim (Result-cases (fs.read_dir s root)) [
    | inl (es, listed) ↦
        rw listed (sweep_entries-Keeps es s (L.read_dir_names root s es listed) r tail)
    | inr (e, unread) ↦ rw unread
  ]

pub version-IsProtected : (root n : Text) → IsProtected root (join root n) n
version-IsProtected root n = inl (path_eq_refl (join root n))

-- What the sweep removes, for a name that is not protected.
module _ (fs : FileSystem) (L : IsLawful fs) (root current n : Text) (hn : IsName n)
    (other : path_eq (join root n) current ≡ false)
    (unstaged : starts_with staging_prefix (to_string_lossy n) ≡ false)
    (removes : (p : FilePath) (s : fs.State) → (fs.remove_dir_all p s).0 ≡ ok tt) where
  -- There is no directory of this name.
  abbrev IsSwept : fs.State → Type 0
  IsSwept s = (fs.stat s (join root n)).is_dir ≡ false

  at_root : (p : Text) → p ≡ n → join root p ≡ base root ++ (n ++ [])
  at_root p e = rw (e, join-base root n hn.1, append-nil)

  sweep_entry_self : (s : fs.State) → IsSwept (sweep_entry fs root current n s)
  unfolding sweep_entry is_absolute
  sweep_entry_self s = elim (Bool-cases (fs.stat s (join root n)).is_dir) [
    | inr gone ↦ rw (other, gone) gone
    | inl there ↦
        rw (other, there, unstaged)
          (ap (λ (x : Stat). x.is_dir)
            (rw append-nil at (L.remove_gone (join root n) [] s refl (removes (join root n) s))))
  ]

  sweep_entry-IsSwept :
      (m : Text) (s : fs.State) → IsName m → IsSwept s → IsSwept (sweep_entry fs root current m s)
  unfolding sweep_entry is_absolute
  sweep_entry-IsSwept m s hm swept = elim (Bool-cases (text_eq m n)) [
    | inl same ↦ rw ((text_eq_iff m n).0 same) (sweep_entry_self s)
    | inr differ ↦
        elim (Bool-cases (path_eq (join root m) current || not (fs.stat s (join root m)).is_dir)) [
          | inl skip ↦ rw skip swept
          | inr try ↦ elim (Bool-cases (starts_with staging_prefix (to_string_lossy m))) [
            | inl staged ↦ rw (try, staged) swept
            | inr gone ↦
                let ne : m ≢ n = λ e. cc ((text_eq_iff m n).1 e, differ) in
                let kept : fs.stat (after (fs.remove_dir_all (join root m)) s) (join root n)
                    ≡ fs.stat s (join root n) =
                  rw (at_root n refl) (remove-Keeps fs root L m n s hm hn ne [] refl) in
                rw (try, gone) (ap (λ (x : Stat). x.is_dir) kept ∙ swept)
          ]
        ]
  ]

  sweep_entries-IsSwept :
      (es : List (Result IoError Text)) (s : fs.State)
      → All IsName (flatten es)
      → IsSwept s
      → IsSwept (sweep_entries fs root current es s)
  unfolding sweep_entries
  sweep_entries-IsSwept [] s _ swept = swept
  sweep_entries-IsSwept (err e ∷ es) s h swept = sweep_entries-IsSwept es s h swept
  sweep_entries-IsSwept (ok m ∷ es) s (hm, h) swept =
      sweep_entries-IsSwept es (sweep_entry fs root current m s) h
        (sweep_entry-IsSwept m s hm swept)

  sweep_entries-listed :
      (es : List (Result IoError Text)) (s : fs.State)
      → All IsName (flatten es)
      → any (λ m. text_eq m n) (flatten es) ≡ true
      → IsSwept (sweep_entries fs root current es s)
  unfolding sweep_entries
  sweep_entries-listed [] s _ listed = absurd (cc listed)
  sweep_entries-listed (err e ∷ es) s h listed = sweep_entries-listed es s h listed
  sweep_entries-listed (ok m ∷ es) s (hm, h) listed = elim (Bool-cases (text_eq m n)) [
    | inl same ↦
        sweep_entries-IsSwept es (sweep_entry fs root current m s) h
          (rw ((text_eq_iff m n).0 same) (sweep_entry_self s))
    | inr differ ↦
        sweep_entries-listed es (sweep_entry fs root current m s) h (ground (arith, listed, differ))
  ]

  -- On a lawful file system where removals succeed, no entry that was listed in the directory is still
  -- a directory after the sweep, unless it is the current tree or a staging tree.
  pub sweep_old_versions-IsSwept :
      (s : fs.State) (es : List (Result IoError Text))
      → fs.read_dir s root ≡ ok es
      → any (λ m. text_eq m n) (flatten es) ≡ true
      → (fs.stat (sweep_old_versions fs root current s) (join root n)).is_dir ≡ false
  unfolding sweep_old_versions
  sweep_old_versions-IsSwept s es read listed =
      rw read (sweep_entries-listed es s (L.read_dir_names root s es read) listed)
