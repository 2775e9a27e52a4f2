-- ===== src/VmRootfs/Process/Invariant.antt =====
-- What holds of all processes in every state of a run.
use openshell_image_builder.Base.{ℕ, true, List, ◌≡◌, sym, arith}
use openshell_image_builder.Text.{Text}
use openshell_image_builder.FilePath.{FilePath, join}
use openshell_image_builder.Host.{FileSystem}
use openshell_image_builder.Host.Laws.{IsLawful}
use openshell_image_builder.Dns.{Net}
use openshell_image_builder.VmRootfs.{cache_key, Unpacker, version, staging_name, is_installed}
use openshell_image_builder.VmRootfs.Paths.{staging_name-IsName, staging_name-ne}
use openshell_image_builder.VmRootfs.Failure.{UnpacksInside}
use openshell_image_builder.VmRootfs.Staged.{HoldsRootfs}
use openshell_image_builder.VmRootfs.Process.{Pc, looking, relooking, removing, renaming, key, move}
use openshell_image_builder.VmRootfs.Process.Frame.{move-Keeps}
use openshell_image_builder.VmRootfs.Process.System.{
  System, start, update-elim, pick, restart, IsTorn, Run, begun, then_pick, then_restart,
}
use openshell_image_builder.VmRootfs.Process.Staged.{
  staging_name-IsProtected, staging_name_injective, HasStaged, HasStaged-HasNames, HasStaged-Keeps,
}
use openshell_image_builder.VmRootfs.Process.Own.{move-IsStaged}

-- The places between the marker and the rename.
pub data HasMarked : Pc → Type 0 where
  to_look_again : HasMarked relooking
  to_remove : HasMarked removing
  to_rename : HasMarked renaming

module _ (fs : FileSystem) (net : Net fs.State) (unpacker : Unpacker fs) (archive : List ℕ)
    (digest : Text) (root : FilePath) (L : IsLawful fs)
    (inside : UnpacksInside fs net unpacker archive root)
    (holds : HoldsRootfs fs net unpacker archive) where
  abbrev go : ℕ → Pc → fs.State → Pc × fs.State
  go = move fs net unpacker archive digest root

  abbrev the_key : Text
  the_key = key fs net unpacker archive digest root

  abbrev pub AllStaged : System fs.State → Type 0
  AllStaged x = (k : ℕ) → HasStaged fs net unpacker archive digest root k (x.pc k) x.mem

  pick-AllStaged :
      (i : ℕ) (x : System fs.State)
      → AllStaged x
      → AllStaged (pick fs net unpacker archive digest root i x)
  unfolding pick
  pick-AllStaged i x h =
      update-elim (λ k p. HasStaged fs net unpacker archive digest root k p (go i (x.pc i) x.mem).1)
        x.pc i (go i (x.pc i) x.mem).0
        (move-IsStaged fs net unpacker archive digest root L inside holds i (x.pc i) x.mem (h i))
        (λ k differ.
          HasStaged-Keeps fs net unpacker archive digest root k (x.pc k) x.mem _
            (move-Keeps fs net unpacker archive digest root L inside i (staging_name k)
              (staging_name-IsName k) (λ e. ground (arith, differ, staging_name_injective i k e))
              (staging_name-IsProtected root (join root version) k) (x.pc i) x.mem
              (HasStaged-HasNames fs net unpacker archive digest root i (x.pc i) x.mem (h i))
              (λ _ e. staging_name-ne k (sym e)))
            (h k))

  restart-AllStaged :
      (i : ℕ) (t : fs.State) (x : System fs.State)
      → IsTorn fs net unpacker archive digest root i x t
      → AllStaged x
      → AllStaged (restart fs net unpacker archive digest root i t x)
  unfolding restart HasStaged
  restart-AllStaged i t x torn h =
      update-elim (λ k p. HasStaged fs net unpacker archive digest root k p t) x.pc i looking tt
        (λ k differ.
          HasStaged-Keeps fs net unpacker archive digest root k (x.pc k) x.mem t
            (torn (staging_name k) (staging_name-IsName k)
              (λ e. ground (arith, differ, staging_name_injective i k e))
              (staging_name-IsProtected root (join root version) k)
              (λ _ e. staging_name-ne k (sym e)))
            (h k))

  pub Run-AllStaged :
      {x y : System fs.State}
      → Run fs net unpacker archive digest root x y
      → AllStaged x
      → AllStaged y
  Run-AllStaged begun h = h
  Run-AllStaged (then_pick {y} i run) h = pick-AllStaged i y (Run-AllStaged run h)
  Run-AllStaged (then_restart {y} i t run torn) h =
      restart-AllStaged i t y torn (Run-AllStaged run h)

  start-AllStaged : (s : fs.State) → AllStaged (start fs net unpacker archive digest root s)
  unfolding HasStaged
  start-AllStaged s k = tt

  HasMarked-installed :
      (i : ℕ) (pc : Pc) (s : fs.State)
      → HasMarked pc
      → HasStaged fs net unpacker archive digest root i pc s
      → is_installed fs net (join root (staging_name i)) the_key s ≡ true
  unfolding HasStaged
  HasMarked-installed i _ s to_look_again h = h
  HasMarked-installed i _ s to_remove h = h
  HasMarked-installed i _ s to_rename h = h

  pub started-AllStaged :
      {s : fs.State} {y : System fs.State}
      → Run fs net unpacker archive digest root (start fs net unpacker archive digest root s) y
      → AllStaged y
  started-AllStaged {s} run = Run-AllStaged run (start-AllStaged s)

  -- Any number of processes install at the same time, their steps come in any order, and any of them
  -- is killed anywhere, also in the middle of a call, on a lawful file system and for an archive that
  -- holds a build rootfs and unpacks inside its destination: a process that has written its marker and
  -- not yet renamed has in its staging directory a rootfs that passes the check, with the marker of
  -- this archive.
  pub staged-is_installed :
      {s : fs.State} {y : System fs.State} (i : ℕ)
      → Run fs net unpacker archive digest root (start fs net unpacker archive digest root s) y
      → HasMarked (y.pc i)
      → is_installed fs net (join root (staging_name i)) (cache_key digest) y.mem ≡ true
  staged-is_installed {s} {y} i run marked =
      HasMarked-installed i (y.pc i) y.mem marked (started-AllStaged run i)
