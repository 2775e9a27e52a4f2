-- ===== src/VmRootfs/Process/Rest.antt =====
-- What is left of `install` at each place of a process, as the code computes it.
use openshell_image_builder.Base.{
  ℕ, List, [], ◌∷◌, is_empty, Result, ok, err, map_err, ◌≡◌, refl, inl, inr, Bool-cases,
}
use openshell_image_builder.Base.Io.{Io, next, retag, after, on_failure}
use openshell_image_builder.Text.{Text, codes}
use openshell_image_builder.FilePath.{FilePath, join}
use openshell_image_builder.Host.{IoError, FileSystem}
use openshell_image_builder.Dns.{Net}
use openshell_image_builder.VmRootfs.{
  Unpacker, version, marker, staging_name, at_path, remove_if_there, is_installed, sweep_entries,
  sweep_old_versions, stage, place, put_in_place, staging_dir, unpack_and_place, install,
}
use openshell_image_builder.VmRootfs.Process.{
  Pc, looking, clearing, creating, unpacking, marking, relooking, leaving, removing, renaming,
  listing, sweeping, cleaning, ended, proceed, decode_error, as_process, key, unpack_with,
  sweep_with, move,
}

module _ (fs : FileSystem) (net : Net fs.State) (unpacker : Unpacker fs) (archive : List ℕ)
    (digest : Text) (root : FilePath) (pid : ℕ) where
  abbrev go : Pc → fs.State → Pc × fs.State
  go = move fs net unpacker archive digest root pid

  abbrev here : FilePath
  here = join root (staging_name pid)

  abbrev there : FilePath
  there = join root version

  abbrev the_key : Text
  the_key = key fs net unpacker archive digest root

  abbrev clean : fs.State → fs.State
  clean = after (fs.remove_dir_all here)

  -- What is left of `stage` at each of its places.
  abbrev write_marker : Io fs.State Text (Unit {0})
  write_marker s =
      retag (at_path (codes "write") (join here marker)) (fs.write (join here marker) the_key s)

  abbrev unpack_rest : Io fs.State Text (Unit {0})
  unpack_rest s =
      next (map_err decode_error (unpacker.decoder archive), s)
        (λ stream u.
          next
            (retag (at_path (codes "unpack the embedded VM rootfs into") here)
              (unpacker.unpack stream here u))
            (λ _. write_marker))

  abbrev create_rest : Io fs.State Text (Unit {0})
  create_rest s =
      next (retag (at_path (codes "create") here) (fs.create_dir_all here s)) (λ _. unpack_rest)

  abbrev place_it : Unit {0} → Io fs.State Text FilePath
  place_it _ =
      place fs net (as_process fs net unpacker archive digest root pid) root there here the_key

  -- What the rest of the code makes of a state, from each place.
  unfoldable pub finish : Pc → Io fs.State Text FilePath
  finish looking s =
      install fs net (as_process fs net unpacker archive digest root pid) archive digest root s
  finish clearing s =
      unpack_and_place fs net (as_process fs net unpacker archive digest root pid) archive the_key
        root s
  finish creating s = next (on_failure clean (create_rest s)) place_it
  finish unpacking s = next (on_failure clean (unpack_rest s)) place_it
  finish marking s = next (on_failure clean (write_marker s)) place_it
  finish relooking s = place_it tt s
  finish leaving s = (ok there, clean s)
  finish removing s =
      put_in_place fs net (as_process fs net unpacker archive digest root pid) root there here s
  finish renaming s =
      next
        (on_failure clean
          (retag (at_path (codes "install VM rootfs into") there) (fs.rename here there s)))
        (λ _ u. (ok there, sweep_old_versions fs root there u))
  finish listing s = (ok there, sweep_old_versions fs root there s)
  finish (sweeping es) s = (ok there, sweep_entries fs root there es s)
  finish (cleaning e) s = (err e, clean s)
  finish (ended r) s = (r, s)

  abbrev pub finish_at : Pc × fs.State → Result Text FilePath × fs.State
  finish_at x = finish x.0 x.1

  -- A call of `stage` that others follow.
  finish-proceed :
      (pc : Pc) (what : IoError → Text) (x : Result IoError (Unit {0}) × fs.State)
      (k : Unit {0} → Io fs.State Text (Unit {0}))
      → ((u : fs.State) → finish pc u ≡ next (on_failure clean (k tt u)) place_it)
      → finish_at (proceed pc what x) ≡ next (on_failure clean (next (retag what x) k)) place_it
  unfolding finish proceed next retag
  finish-proceed pc what (ok _, s) k h = h s
  finish-proceed pc what (err e, s) k h = refl

  -- The last call of a cleaned block.
  finish-proceed_last :
      (pc : Pc) (what : IoError → Text) (x : Result IoError (Unit {0}) × fs.State)
      (k : Unit {0} → Io fs.State Text FilePath)
      → ((u : fs.State) → finish pc u ≡ k tt u)
      → finish_at (proceed pc what x) ≡ next (on_failure clean (retag what x)) k
  unfolding finish proceed next retag
  finish-proceed_last pc what (ok _, s) k h = h s
  finish-proceed_last pc what (err e, s) k h = refl

  finish-unpack_with :
      (r : Result IoError unpacker.Stream) (s : fs.State)
      → finish_at (unpack_with fs net unpacker archive digest root pid r s)
        ≡ next
            (on_failure clean (
              next
                (map_err decode_error r, s)
                (λ stream u.
                  next
                    (retag
                      (at_path (codes "unpack the embedded VM rootfs into") here)
                      (unpacker.unpack stream here u))
                    (λ _. write_marker))))
            place_it
  unfolding next
  finish-unpack_with (err e) s = unfold finish in refl
  finish-unpack_with (ok stream) s =
      finish-proceed marking _ (unpacker.unpack stream here s) (λ _. write_marker)
        (λ u. unfold finish in refl)

  finish-sweep_with :
      (r : Result IoError (List (Result IoError Text))) (s : fs.State)
      → fs.read_dir s root ≡ r
      → finish_at (sweep_with fs net unpacker archive digest root r s)
        ≡ (ok there, sweep_old_versions fs root there s)
  unfolding finish sweep_old_versions
  finish-sweep_with (err e) s h = rw h
  finish-sweep_with (ok es) s h = rw h

  look-finish : (s : fs.State) → finish_at (go looking s) ≡ finish looking s
  unfolding finish move install
  look-finish s = elim (Bool-cases (is_empty archive)) [
    | inl empty ↦ rw empty
    | inr full ↦ elim (Bool-cases (is_installed fs net there the_key s)) [
      | inl installed ↦ rw (full, installed)
      | inr absent ↦ rw (full, absent)
    ]
  ]

  relook-finish : (s : fs.State) → finish_at (go relooking s) ≡ finish relooking s
  unfolding finish move place
  relook-finish s = elim (Bool-cases (is_installed fs net there the_key s)) [
    | inl installed ↦ rw installed
    | inr absent ↦ rw absent
  ]

  -- A step does not change what the rest makes of the state.
  pub finish-move : (pc : Pc) (s : fs.State) → finish_at (go pc s) ≡ finish pc s
  unfolding finish move unpack_and_place stage staging_dir put_in_place sweep_entries
  finish-move looking s = look-finish s
  finish-move clearing s =
      finish-proceed creating _ (remove_if_there fs here s) (λ _. create_rest) (λ u. refl)
  finish-move creating s =
      finish-proceed unpacking _ (fs.create_dir_all here s) (λ _. unpack_rest) (λ u. refl)
  finish-move unpacking s = finish-unpack_with (unpacker.decoder archive) s
  finish-move marking s =
      finish-proceed_last relooking _ (fs.write (join here marker) the_key s) place_it (λ u. refl)
  finish-move relooking s = relook-finish s
  finish-move leaving s = refl
  finish-move removing s =
      finish-proceed_last renaming _ (remove_if_there fs there s) (λ _. finish renaming) (λ u. refl)
  finish-move renaming s =
      finish-proceed_last listing _ (fs.rename here there s) (λ _. finish listing) (λ u. refl)
  finish-move listing s = finish-sweep_with (fs.read_dir s root) s refl
  finish-move (sweeping []) s = refl
  finish-move (sweeping (err e ∷ es)) s = refl
  finish-move (sweeping (ok n ∷ es)) s = refl
  finish-move (cleaning e) s = refl
  finish-move (ended r) s = refl
