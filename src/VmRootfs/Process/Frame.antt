-- ===== src/VmRootfs/Process/Frame.antt =====
-- What one step of a process leaves as it was: the trees in the other directories.
use openshell_image_builder.Base.{
  ℕ, true, false, List, [], ◌∷◌, ◌++◌, is_empty, Result, ok, err, All, ◌≡◌, ◌≢◌, refl, sym, inl,
  inr, Bool-cases,
}
use openshell_image_builder.Text.{Text, text_eq}
use openshell_image_builder.Text.Laws.{text_eq-cancel, text_eq_iff}
use openshell_image_builder.FilePath.{FilePath, base, join, under}
use openshell_image_builder.FilePath.Laws.{
  IsName, IsTail, join-base, under-cancel, under-tail, under_of_names_ne, under-append_of_names_ne,
}
use openshell_image_builder.Base.Io.{after}
use openshell_image_builder.Host.{IoError, FileSystem}
use openshell_image_builder.Host.Laws.{IsLawful, flatten}
use openshell_image_builder.Dns.{Net}
use openshell_image_builder.VmRootfs.{
  Unpacker, version, marker, staging_name, remove_if_there, is_installed,
}
use openshell_image_builder.VmRootfs.Paths.{
  version-IsName, staging_name-IsName, Keeps, remove-Keeps, marker-eq, under-names,
}
use openshell_image_builder.VmRootfs.Failure.{UnpacksInside}
use openshell_image_builder.VmRootfs.Sweep.{IsProtected, sweep_entry-Keeps}
use openshell_image_builder.VmRootfs.Process.{
  Pc, looking, clearing, creating, unpacking, marking, relooking, leaving, removing, renaming,
  listing, sweeping, cleaning, ended, proceed, key, unpack_with, sweep_with, move,
}

-- The entries that a process in its sweep has listed are names of files.
abbrev pub HasNames : Pc → Type 0
HasNames (sweeping es) = All IsName (flatten es)
HasNames pc = Unit {0}

-- The places whose step changes the installed tree.
pub data Replaces : Pc → Type 0 where
  by_remove : Replaces removing
  by_rename : Replaces renaming

-- The two texts of a written path and of one below another name.
text_eq-names :
    (n m r q : Text)
    → IsName n
    → IsName m
    → n ≢ m
    → IsTail r
    → IsTail q
    → text_eq (n ++ q) (m ++ r) ≡ false
text_eq-names n m r q hn hm ne tail tail' = elim (Bool-cases (text_eq (n ++ q) (m ++ r))) [
  | inr differ ↦ differ
  | inl same ↦
      let below : under n (n ++ q) ≡ true = under-tail n q tail' in
      cc (below, (text_eq_iff (n ++ q) (m ++ r)).0 same, under_of_names_ne n m r hn.1 hm.1 ne tail)
]

module _ (fs : FileSystem) (L : IsLawful fs) (root : FilePath) (n m : Text) (hn : IsName n)
    (hm : IsName m) (ne : n ≢ m) where
  remove_if_there-Keeps : (s : fs.State) → Keeps fs root m s (remove_if_there fs (join root n) s).1
  remove_if_there-Keeps s r tail = elim (Bool-cases (fs.stat s (join root n)).exists) [
    | inr absent ↦ rw absent
    | inl there ↦ rw there (remove-Keeps fs root L n m s hn hm ne r tail)
  ]

  create-Keeps : (s : fs.State) → Keeps fs root m s (after (fs.create_dir_all (join root n)) s)
  create-Keeps s r tail = L.create_frame (join root n) (base root ++ (m ++ r)) s (
      rw (join-base root n hn.1, under-cancel)
        (under-append_of_names_ne m n r hm.1 hn.1 (λ e. ne (sym e)) tail))

  mark-Keeps :
      (t : Text) (s : fs.State)
      → Keeps fs root m s (after (fs.write (join (join root n) marker) t) s)
  unfolding openshell_image_builder.FilePath.is_absolute
  mark-Keeps t s r tail = L.write_frame (join (join root n) marker) (base root ++ (m ++ r)) t s (
      rw (marker-eq fs root n hn, text_eq-cancel)
        (text_eq-names n m r (b'/' ∷ marker) hn hm ne tail refl))

  rename-Keeps :
      (k : Text) (s : fs.State)
      → IsName k
      → k ≢ m
      → Keeps fs root m s (after (fs.rename (join root n) (join root k)) s)
  rename-Keeps k s hk ne' r tail =
      L.rename_frame (join root n) (join root k) (base root ++ (m ++ r)) s
        (under-names fs root L n m r hn hm ne tail) (under-names fs root L k m r hk hm ne' tail)

module _ (fs : FileSystem) (net : Net fs.State) (unpacker : Unpacker fs) (archive : List ℕ)
    (digest : Text) (root : FilePath) (L : IsLawful fs)
    (inside : UnpacksInside fs net unpacker archive root) (pid : ℕ) (m : Text) (hm : IsName m)
    (ne : staging_name pid ≢ m) (safe : IsProtected root (join root version) m) where
  abbrev go : Pc → fs.State → Pc × fs.State
  go = move fs net unpacker archive digest root pid

  abbrev n : Text
  n = staging_name pid

  hn : IsName n
  hn = staging_name-IsName pid

  proceed-Keeps :
      (pc : Pc) (what : IoError → Text) (s : fs.State) (x : Result IoError (Unit {0}) × fs.State)
      → Keeps fs root m s x.1
      → Keeps fs root m s (proceed pc what x).1
  unfolding proceed
  proceed-Keeps pc what s (ok _, u) h r tail = h r tail
  proceed-Keeps pc what s (err e, u) h r tail = h r tail

  unpack_with-Keeps :
      (x : Result IoError unpacker.Stream) (s : fs.State)
      → Keeps fs root m s (unpack_with fs net unpacker archive digest root pid x s).1
  unpack_with-Keeps (err e) s = λ r tail. refl
  unpack_with-Keeps (ok stream) s =
      proceed-Keeps marking _ s (unpacker.unpack stream (join root n) s) (λ r tail.
        inside stream (join root n) (base root ++ (m ++ r)) s
          (under-names fs root L n m r hn hm ne tail))

  sweep_with-Keeps :
      (x : Result IoError (List (Result IoError Text))) (s : fs.State)
      → Keeps fs root m s (sweep_with fs net unpacker archive digest root x s).1
  sweep_with-Keeps (err e) s r tail = refl
  sweep_with-Keeps (ok es) s r tail = refl

  looking-Keeps : (s : fs.State) → Keeps fs root m s (go looking s).1
  unfolding move
  looking-Keeps s r tail = elim (Bool-cases (is_empty archive)) [
    | inl empty ↦ rw empty
    | inr full ↦
        elim (Bool-cases
          (is_installed fs net (join root version) (key fs net unpacker archive digest root) s)) [
            | inl there ↦ rw (full, there)
            | inr absent ↦ rw (full, absent)
          ]
  ]

  relooking-Keeps : (s : fs.State) → Keeps fs root m s (go relooking s).1
  unfolding move
  relooking-Keeps s r tail =
      elim (Bool-cases
        (is_installed fs net (join root version) (key fs net unpacker archive digest root) s)) [
          | inl there ↦ rw there
          | inr absent ↦ rw absent
        ]

  -- A step leaves the tree of another name as it was, when the name is not the process's own staging
  -- directory, is not swept, and is not the version that the step replaces.
  pub move-Keeps :
      (pc : Pc) (s : fs.State)
      → HasNames pc
      → (Replaces pc → version ≢ m)
      → Keeps fs root m s (go pc s).1
  unfolding move
  move-Keeps looking s _ _ = looking-Keeps s
  move-Keeps clearing s _ _ =
      proceed-Keeps creating _ s (remove_if_there fs (join root n) s)
        (remove_if_there-Keeps fs L root n m hn hm ne s)
  move-Keeps creating s _ _ =
      proceed-Keeps unpacking _ s (fs.create_dir_all (join root n) s)
        (create-Keeps fs L root n m hn hm ne s)
  move-Keeps unpacking s _ _ = unpack_with-Keeps (unpacker.decoder archive) s
  move-Keeps marking s _ _ = proceed-Keeps relooking _ s _ (mark-Keeps fs L root n m hn hm ne _ s)
  move-Keeps relooking s _ _ = relooking-Keeps s
  move-Keeps leaving s _ _ = remove-Keeps fs root L n m s hn hm ne
  move-Keeps removing s _ apart =
      proceed-Keeps renaming _ s (remove_if_there fs (join root version) s)
        (remove_if_there-Keeps fs L root version m version-IsName hm (apart by_remove) s)
  move-Keeps renaming s _ apart =
      proceed-Keeps listing _ s _
        (rename-Keeps fs L root n m hn hm ne version s version-IsName (apart by_rename))
  move-Keeps listing s _ _ = sweep_with-Keeps (fs.read_dir s root) s
  move-Keeps (sweeping []) s _ _ = λ r tail. refl
  move-Keeps (sweeping (err e ∷ es)) s _ _ = λ r tail. refl
  move-Keeps (sweeping (ok k ∷ es)) s (hk, _) _ =
      sweep_entry-Keeps fs L root (join root version) m hm safe k s hk
  move-Keeps (cleaning e) s _ _ = remove-Keeps fs root L n m s hn hm ne
  move-Keeps (ended r) s _ _ = λ r tail. refl
