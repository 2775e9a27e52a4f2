-- ===== src/Host/Laws.antt =====
-- What the program relies on in `std::fs`: the documented effect of each call on the queries, for a
-- tree with no symbolic link across it and with no other process at work on the same paths.
use openshell_image_builder.Base.{true, false, List, [], ◌∷◌, ◌++◌, Result, ok, err, All, ◌≡◌}
use openshell_image_builder.Base.Io.{after}
use openshell_image_builder.Text.{Text, text_eq}
use openshell_image_builder.FilePath.{FilePath, under}
use openshell_image_builder.FilePath.Laws.{IsTail, IsName}
use openshell_image_builder.Host.{IoError, absent, FileSystem, OpenOptions}

-- The names among the entries, as `entries.flatten()` passes them on.
abbrev pub flatten : List (Result IoError Text) → List Text
flatten [] = []
flatten (ok n ∷ es) = n ∷ flatten es
flatten (err e ∷ es) = flatten es

pub record IsLawful (fs : FileSystem) : Type 0 where
  -- removing a tree changes nothing outside it, also when it stops half-way
  pub remove_frame :
      (p q : FilePath) (s : fs.State)
      → under p q ≡ false
      → fs.stat (after (fs.remove_dir_all p) s) q ≡ fs.stat s q
  -- a removed tree is gone
  pub remove_gone :
      (p r : FilePath) (s : fs.State)
      → IsTail r
      → (fs.remove_dir_all p s).0 ≡ ok tt
      → fs.stat (after (fs.remove_dir_all p) s) (p ++ r) ≡ absent
  -- a directory is made with its missing ancestors, and nothing else changes
  pub create_frame :
      (p q : FilePath) (s : fs.State)
      → under q p ≡ false
      → fs.stat (after (fs.create_dir_all p) s) q ≡ fs.stat s q
  pub create_dir :
      (p : FilePath) (s : fs.State)
      → (fs.create_dir_all p s).0 ≡ ok tt
      → (fs.stat (after (fs.create_dir_all p) s) p).is_dir ≡ true
  -- a file that can be read is not changed by making directories
  pub create_keeps :
      (p q : FilePath) (t : Text) (s : fs.State)
      → (fs.stat s q).contents ≡ ok t
      → fs.stat (after (fs.create_dir_all p) s) q ≡ fs.stat s q
  -- a file that was cut to nothing holds what is written to it
  pub written :
      (o : OpenOptions) (p : FilePath) (t : Text) (h : fs.Handle) (s s' s'' : fs.State)
      → o.truncate ≡ true
      → fs.open_file o p s ≡ (ok h, s')
      → fs.write_all h t s' ≡ (ok tt, s'')
      → (fs.stat s'' p).contents ≡ ok t
  -- and what is written through it changes that path only
  pub written_frame :
      (o : OpenOptions) (p q : FilePath) (t : Text) (h : fs.Handle) (s s' s'' : fs.State)
      → text_eq p q ≡ false
      → fs.open_file o p s ≡ (ok h, s')
      → fs.write_all h t s' ≡ (ok tt, s'')
      → fs.stat s'' q ≡ fs.stat s q
  -- a write changes one path only
  pub write_frame :
      (p q : FilePath) (t : Text) (s : fs.State)
      → text_eq p q ≡ false
      → fs.stat (after (fs.write p t) s) q ≡ fs.stat s q
  pub write_contents :
      (p : FilePath) (t : Text) (s : fs.State)
      → (fs.write p t s).0 ≡ ok tt
      → (fs.stat (after (fs.write p t) s) p).contents ≡ ok t
  -- a renamed tree is found under its new name, as it was
  pub rename_moves :
      (a b r : FilePath) (s : fs.State)
      → IsTail r
      → (fs.rename a b s).0 ≡ ok tt
      → fs.stat (after (fs.rename a b) s) (b ++ r) ≡ fs.stat s (a ++ r)
  pub rename_frame :
      (a b q : FilePath) (s : fs.State)
      → under a q ≡ false
      → under b q ≡ false
      → fs.stat (after (fs.rename a b) s) q ≡ fs.stat s q
  -- a rename that fails changes nothing
  pub rename_failed :
      (a b q : FilePath) (s : fs.State) (e : IoError)
      → (fs.rename a b s).0 ≡ err e
      → fs.stat (after (fs.rename a b) s) q ≡ fs.stat s q
  -- entries are names, and "." and ".." are none of them
  pub read_dir_names :
      (p : FilePath) (s : fs.State) (es : List (Result IoError Text))
      → fs.read_dir s p ≡ ok es
      → All IsName (flatten es)
