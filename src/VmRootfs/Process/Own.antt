-- ===== src/VmRootfs/Process/Own.antt =====
-- The staging tree of a process over its own steps.
use openshell_image_builder.Base.{
  ℕ, List, [], ◌∷◌, is_empty, Result, ok, err, ◌≡◌, refl, ap, inl, inr, Bool-cases,
}
use openshell_image_builder.Text.{Text}
use openshell_image_builder.FilePath.{FilePath, join}
use openshell_image_builder.Host.{IoError, FileSystem}
use openshell_image_builder.Host.Laws.{IsLawful}
use openshell_image_builder.Dns.{Net}
use openshell_image_builder.VmRootfs.{
  Unpacker, version, marker, staging_name, is_ok, remove_if_there, is_installed,
}
use openshell_image_builder.VmRootfs.Failure.{UnpacksInside}
use openshell_image_builder.VmRootfs.Staged.{HoldsRootfs, cache_key-trim, write-installed}
use openshell_image_builder.VmRootfs.Install.{remove_old-installed}
use openshell_image_builder.VmRootfs.Process.{
  Pc, looking, clearing, creating, unpacking, marking, relooking, leaving, removing, renaming,
  listing, sweeping, cleaning, ended, proceed, as_process, key, unpack_with, sweep_with, move,
}
use openshell_image_builder.VmRootfs.Process.Staged.{HasStaged}

module _ (fs : FileSystem) (net : Net fs.State) (unpacker : Unpacker fs) (archive : List ℕ)
    (digest : Text) (root : FilePath) (L : IsLawful fs)
    (inside : UnpacksInside fs net unpacker archive root)
    (holds : HoldsRootfs fs net unpacker archive) (i : ℕ) where
  abbrev go : ℕ → Pc → fs.State → Pc × fs.State
  go = move fs net unpacker archive digest root

  abbrev the_key : Text
  the_key = key fs net unpacker archive digest root

  abbrev self : Unpacker fs
  self = as_process fs net unpacker archive digest root i

  -- `HasStaged` after a step.
  abbrev IsStaged : Pc × fs.State → Type 0
  IsStaged x = HasStaged fs net unpacker archive digest root i x.0 x.1

  proceed-IsStaged :
      (pc : Pc) (what : IoError → Text) (x : Result IoError (Unit {0}) × fs.State)
      → ((u : fs.State) → x ≡ (ok tt, u) → HasStaged fs net unpacker archive digest root i pc u)
      → IsStaged (proceed pc what x)
  unfolding proceed HasStaged
  proceed-IsStaged pc what (ok _, u) h = h u refl
  proceed-IsStaged pc what (err e, u) h = tt

  unpack_with-IsStaged :
      (x : Result IoError unpacker.Stream) (s : fs.State)
      → unpacker.decoder archive ≡ x
      → IsStaged (unpack_with fs net unpacker archive digest root i x s)
  unfolding HasStaged
  unpack_with-IsStaged (err e) s opened = tt
  unpack_with-IsStaged (ok stream) s opened =
      proceed-IsStaged marking _ (unpacker.unpack stream (join root (staging_name i)) s)
        (λ u unpacked. ap is_ok (holds stream (join root (staging_name i)) s u opened unpacked))

  sweep_with-IsStaged :
      (x : Result IoError (List (Result IoError Text))) (s : fs.State)
      → fs.read_dir s root ≡ x
      → IsStaged (sweep_with fs net unpacker archive digest root x s)
  unfolding HasStaged
  sweep_with-IsStaged (err e) s listed = tt
  sweep_with-IsStaged (ok es) s listed = L.read_dir_names root s es listed

  looking-IsStaged : (s : fs.State) → IsStaged (go i looking s)
  unfolding move HasStaged
  looking-IsStaged s = elim (Bool-cases (is_empty archive)) [
    | inl empty ↦ rw empty tt
    | inr full ↦ elim (Bool-cases (is_installed fs net (join root version) the_key s)) [
      | inl there ↦ rw (full, there) tt
      | inr absent ↦ rw (full, absent) tt
    ]
  ]

  relooking-IsStaged :
      (s : fs.State)
      → HasStaged fs net unpacker archive digest root i relooking s
      → IsStaged (go i relooking s)
  unfolding move HasStaged
  relooking-IsStaged s h = elim (Bool-cases (is_installed fs net (join root version) the_key s)) [
    | inl there ↦ rw there tt
    | inr absent ↦ rw absent h
  ]

  -- A process keeps it by its own steps.
  pub move-IsStaged :
      (pc : Pc) (s : fs.State)
      → HasStaged fs net unpacker archive digest root i pc s
      → IsStaged (go i pc s)
  unfolding move HasStaged
  move-IsStaged looking s h = looking-IsStaged s
  move-IsStaged clearing s h =
      proceed-IsStaged creating _ (remove_if_there fs (join root (staging_name i)) s) (λ u _. tt)
  move-IsStaged creating s h =
      proceed-IsStaged unpacking _ (fs.create_dir_all (join root (staging_name i)) s) (λ u _. tt)
  move-IsStaged unpacking s h = unpack_with-IsStaged (unpacker.decoder archive) s refl
  move-IsStaged marking s h =
      proceed-IsStaged relooking _ (fs.write (join (join root (staging_name i)) marker) the_key s)
        (λ u wrote.
          write-installed fs net self archive L root the_key s u (cache_key-trim digest) h wrote)
  move-IsStaged relooking s h = relooking-IsStaged s h
  move-IsStaged leaving s h = tt
  move-IsStaged removing s h =
      proceed-IsStaged renaming _ (remove_if_there fs (join root version) s)
        (λ u removed. remove_old-installed fs net self archive L root the_key s u h removed)
  move-IsStaged renaming s h =
      proceed-IsStaged listing _ (fs.rename (join root (staging_name i)) (join root version) s)
        (λ u _. tt)
  move-IsStaged listing s h = sweep_with-IsStaged (fs.read_dir s root) s refl
  move-IsStaged (sweeping []) s h = tt
  move-IsStaged (sweeping (err e ∷ es)) s h = h
  move-IsStaged (sweeping (ok n ∷ es)) s (_, h) = h
  move-IsStaged (cleaning e) s h = tt
  move-IsStaged (ended r) s h = tt
