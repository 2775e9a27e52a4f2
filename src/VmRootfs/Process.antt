-- ===== src/VmRootfs/Process.antt =====
-- `install` of src/vm_rootfs.rs as the steps of one process among several: a program counter for each
-- place in the code, and a step for each call that changes the host, with the queries just before
-- it. The processes run the same binary and differ in their ids.
pub mod Rest
pub mod Alone
pub mod Halting
pub mod Frame
pub mod System
pub mod Staged
pub mod Own
pub mod Invariant
pub mod Kept
pub mod Seen
use openshell_image_builder.Base.{
  ℕ, Bool, true, false, List, [], ◌∷◌, ◌++◌, if◌then◌else◌, is_empty, Result, ok, err, map_err,
}
use openshell_image_builder.Base.Io.{after}
use openshell_image_builder.Text.{Text, codes}
use openshell_image_builder.FilePath.{FilePath, join}
use openshell_image_builder.Host.{IoError, FileSystem}
use openshell_image_builder.Dns.{Net}
use openshell_image_builder.VmRootfs.{
  Unpacker, version, marker, not_embedded, cache_key, staging_name, at_path, remove_if_there,
  is_installed, sweep_entry,
}

-- Where a process stands in `install`.
pub data Pc : Type 0 where
  looking : Pc  -- before the first `marker_matches`
  clearing : Pc  -- `stage`, before the old staging directory is removed
  creating : Pc  -- before `create_dir_all`
  unpacking : Pc  -- before the decoder is made
  marking : Pc  -- before the marker is written
  relooking : Pc  -- before the second `marker_matches`
  leaving : Pc  -- the other process's tree is kept: before our copy is dropped
  removing : Pc  -- before `dir.exists()`
  renaming : Pc  -- before `rename`
  listing : Pc  -- `sweep_old_versions`, before `read_dir`
  sweeping : List (Result IoError Text) → Pc  -- in its loop, with the entries left
  cleaning : Text → Pc  -- before the staging directory is removed, with the error to return
  ended : Result Text FilePath → Pc

-- A failed call in `stage` or after it is followed by the removal of the staging directory.
unfoldable pub proceed {ℓ} :
    {S : Type ℓ} → Pc → (IoError → Text) → Result IoError (Unit {0}) × S → Pc × S
proceed pc what (ok _, s) = (pc, s)
proceed pc what (err e, s) = (cleaning (what e), s)

abbrev pub decode_error : IoError → Text
decode_error e = codes "read the embedded VM rootfs: " ++ e.message

module _ (fs : FileSystem) (net : Net fs.State) (unpacker : Unpacker fs) (archive : List ℕ)
    (digest : Text) (root : FilePath) where
  -- The same binary in the process `pid`.
  abbrev pub as_process : ℕ → Unpacker fs
  as_process pid = record unpacker { process_id = pid }

  abbrev pub dir : FilePath
  dir = join root version

  abbrev pub key : Text
  key = cache_key digest

  abbrev pub staging : ℕ → FilePath
  staging pid = join root (staging_name pid)

  abbrev pub unpack_with : ℕ → Result IoError unpacker.Stream → fs.State → Pc × fs.State
  unpack_with pid (err e) s = (cleaning (decode_error e), s)
  unpack_with pid (ok stream) s =
      proceed marking (at_path (codes "unpack the embedded VM rootfs into") (staging pid))
        (unpacker.unpack stream (staging pid) s)

  abbrev pub sweep_with : Result IoError (List (Result IoError Text)) → fs.State → Pc × fs.State
  sweep_with (err e) s = (ended (ok dir), s)
  sweep_with (ok es) s = (sweeping es, s)

  -- The step that the process `pid` makes next.
  unfoldable pub move : ℕ → Pc → fs.State → Pc × fs.State
  move pid looking s =
      if is_empty archive
      then (ended (err not_embedded), s)
      else if is_installed fs net dir key s
      then (ended (ok dir), s)
      else (clearing, s)
  move pid clearing s =
      proceed creating (at_path (codes "remove") (staging pid)) (remove_if_there fs (staging pid) s)
  move pid creating s =
      proceed unpacking (at_path (codes "create") (staging pid)) (fs.create_dir_all (staging pid) s)
  move pid unpacking s = unpack_with pid (unpacker.decoder archive) s
  move pid marking s =
      proceed relooking (at_path (codes "write") (join (staging pid) marker))
        (fs.write (join (staging pid) marker) key s)
  move pid relooking s = if is_installed fs net dir key s then (leaving, s) else (removing, s)
  move pid leaving s = (ended (ok dir), after (fs.remove_dir_all (staging pid)) s)
  move pid removing s =
      proceed renaming (at_path (codes "remove stale VM rootfs") dir) (remove_if_there fs dir s)
  move pid renaming s =
      proceed listing (at_path (codes "install VM rootfs into") dir) (fs.rename (staging pid) dir s)
  move pid listing s = sweep_with (fs.read_dir s root) s
  move pid (sweeping []) s = (ended (ok dir), s)
  move pid (sweeping (err e ∷ es)) s = (sweeping es, s)
  move pid (sweeping (ok name ∷ es)) s = (sweeping es, sweep_entry fs root dir name s)
  move pid (cleaning e) s = (ended (err e), after (fs.remove_dir_all (staging pid)) s)
  move pid (ended r) s = (ended r, s)
