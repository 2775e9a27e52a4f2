-- ===== src/VmRootfs/Process/Kept.antt =====
-- Interleaved processes and the installed tree, when none of them is about to replace it.
use openshell_image_builder.Base.{
  ℕ, true, List, [], ◌∷◌, is_empty, Result, ok, err, ◌≡◌, ◌∙◌, inl, inr, Bool-cases,
}
use openshell_image_builder.Text.{Text}
use openshell_image_builder.FilePath.{FilePath, join}
use openshell_image_builder.Host.{IoError, FileSystem}
use openshell_image_builder.Host.Laws.{IsLawful}
use openshell_image_builder.Dns.{Net}
use openshell_image_builder.VmRootfs.{
  Unpacker, version, staging_name, remove_if_there, is_installed,
}
use openshell_image_builder.VmRootfs.Paths.{version-IsName, staging_name-ne, is_installed-Moves}
use openshell_image_builder.VmRootfs.Failure.{UnpacksInside}
use openshell_image_builder.VmRootfs.Staged.{HoldsRootfs}
use openshell_image_builder.VmRootfs.Sweep.{version-IsProtected}
use openshell_image_builder.VmRootfs.Process.{
  Pc, looking, clearing, creating, unpacking, marking, relooking, leaving, removing, renaming,
  listing, sweeping, cleaning, ended, proceed, key, unpack_with, sweep_with, move,
}
use openshell_image_builder.VmRootfs.Process.Frame.{Replaces, by_remove, by_rename, move-Keeps}
use openshell_image_builder.VmRootfs.Process.System.{
  System, start, update-elim, pick, restart, IsTorn, Run, begun, then_pick, then_restart,
}
use openshell_image_builder.VmRootfs.Process.Staged.{HasStaged-HasNames}
use openshell_image_builder.VmRootfs.Process.Invariant.{AllStaged, started-AllStaged, Run-AllStaged}

looking-Waits : ¬ (Replaces looking)
looking-Waits x = elim x [ ]

module _ (fs : FileSystem) (net : Net fs.State) (unpacker : Unpacker fs) (archive : List ℕ)
    (digest : Text) (root : FilePath) where
  abbrev go : ℕ → Pc → fs.State → Pc × fs.State
  go = move fs net unpacker archive digest root

  abbrev the_key : Text
  the_key = key fs net unpacker archive digest root

  -- The directory of this version holds a rootfs with the marker of the archive.
  abbrev IsThere : fs.State → Type 0
  IsThere s = is_installed fs net (join root version) the_key s ≡ true

  proceed-Waits :
      (pc : Pc) (what : IoError → Text) (x : Result IoError (Unit {0}) × fs.State)
      → ¬ (Replaces pc)
      → ¬ (Replaces (proceed pc what x).0)
  unfolding proceed
  proceed-Waits pc what (ok _, u) h = h
  proceed-Waits pc what (err e, u) h = λ x. elim x [ ]

  unpack_with-Waits :
      (i : ℕ) (r : Result IoError unpacker.Stream) (s : fs.State)
      → ¬ (Replaces (unpack_with fs net unpacker archive digest root i r s).0)
  unpack_with-Waits i (err e) s = λ x. elim x [ ]
  unpack_with-Waits i (ok stream) s =
      proceed-Waits marking _ (unpacker.unpack stream (join root (staging_name i)) s)
        (λ x. elim x [ ])

  sweep_with-Waits :
      (r : Result IoError (List (Result IoError Text))) (s : fs.State)
      → ¬ (Replaces (sweep_with fs net unpacker archive digest root r s).0)
  sweep_with-Waits (err e) s = λ x. elim x [ ]
  sweep_with-Waits (ok es) s = λ x. elim x [ ]

  looking-step-Waits : (i : ℕ) (s : fs.State) → ¬ (Replaces (go i looking s).0)
  unfolding move
  looking-step-Waits i s = elim (Bool-cases (is_empty archive)) [
    | inl empty ↦ rw empty (λ x. elim x [ ])
    | inr full ↦ elim (Bool-cases (is_installed fs net (join root version) the_key s)) [
      | inl there ↦ rw (full, there) (λ x. elim x [ ])
      | inr absent ↦ rw (full, absent) (λ x. elim x [ ])
    ]
  ]

  -- The second look keeps a process from replacing a tree that is there.
  move-Waits :
      (i : ℕ) (pc : Pc) (s : fs.State) → IsThere s → ¬ (Replaces pc) → ¬ (Replaces (go i pc s).0)
  unfolding move
  move-Waits i looking s there _ = looking-step-Waits i s
  move-Waits i clearing s there _ =
      proceed-Waits creating _ (remove_if_there fs (join root (staging_name i)) s) (λ x. elim x [ ])
  move-Waits i creating s there _ =
      proceed-Waits unpacking _ (fs.create_dir_all (join root (staging_name i)) s) (λ x. elim x [ ])
  move-Waits i unpacking s there _ = unpack_with-Waits i (unpacker.decoder archive) s
  move-Waits i marking s there _ = proceed-Waits relooking _ _ (λ x. elim x [ ])
  move-Waits i relooking s there _ = rw there (λ x. elim x [ ])
  move-Waits i leaving s there _ = λ x. elim x [ ]
  move-Waits i removing s there never = absurd (never by_remove)
  move-Waits i renaming s there never = absurd (never by_rename)
  move-Waits i listing s there _ = sweep_with-Waits (fs.read_dir s root) s
  move-Waits i (sweeping []) s there _ = λ x. elim x [ ]
  move-Waits i (sweeping (err e ∷ es)) s there _ = λ x. elim x [ ]
  move-Waits i (sweeping (ok n ∷ es)) s there _ = λ x. elim x [ ]
  move-Waits i (cleaning e) s there _ = λ x. elim x [ ]
  move-Waits i (ended r) s there _ = λ x. elim x [ ]

  -- No process is about to replace the installed tree.
  abbrev pub IsQuiet : System fs.State → Type 0
  IsQuiet x = (k : ℕ) → ¬ (Replaces (x.pc k))

  module _ (L : IsLawful fs) (inside : UnpacksInside fs net unpacker archive root)
      (holds : HoldsRootfs fs net unpacker archive) where
    abbrev at_start : fs.State → System fs.State
    at_start = start fs net unpacker archive digest root

    pick-Kept :
        (i : ℕ) (x : System fs.State)
        → AllStaged fs net unpacker archive digest root L inside holds x
        → IsQuiet x
        → IsThere x.mem
        → IsQuiet (pick fs net unpacker archive digest root i x)
          × IsThere (pick fs net unpacker archive digest root i x).mem
    unfolding pick
    pick-Kept i x staged quiet there = (
      update-elim (λ k p. ¬ (Replaces p)) x.pc i (go i (x.pc i) x.mem).0
          (move-Waits i (x.pc i) x.mem there (quiet i)) (λ k _. quiet k),
      is_installed-Moves fs root net version version the_key x.mem _ version-IsName version-IsName (
            move-Keeps fs net unpacker archive digest root L inside i version version-IsName
              (staging_name-ne i) (version-IsProtected root version) (x.pc i) x.mem
              (HasStaged-HasNames fs net unpacker archive digest root i (x.pc i) x.mem (staged i))
              (λ replaces. absurd (quiet i replaces)))
          ∙ there,
    )

    restart-IsQuiet :
        (i : ℕ) (t : fs.State) (x : System fs.State)
        → IsQuiet x
        → IsQuiet (restart fs net unpacker archive digest root i t x)
    unfolding restart
    restart-IsQuiet i t x quiet =
        update-elim (λ k p. ¬ (Replaces p)) x.pc i looking looking-Waits (λ k _. quiet k)

    restart-IsThere :
        (i : ℕ) (t : fs.State) (x : System fs.State)
        → IsTorn fs net unpacker archive digest root i x t
        → IsQuiet x
        → IsThere x.mem
        → IsThere (restart fs net unpacker archive digest root i t x).mem
    unfolding restart
    restart-IsThere i t x torn quiet there =
        is_installed-Moves fs root net version version the_key x.mem t version-IsName version-IsName
          (torn version version-IsName (staging_name-ne i) (version-IsProtected root version)
            (λ replaces. absurd (quiet i replaces)))
        ∙ there

    Run-Kept :
        {x y : System fs.State}
        → AllStaged fs net unpacker archive digest root L inside holds x
        → IsQuiet x
        → IsThere x.mem
        → Run fs net unpacker archive digest root x y
        → IsQuiet y × IsThere y.mem
    Run-Kept staged quiet there begun = (quiet, there)
    Run-Kept staged quiet there (then_pick {y} i run) =
        let (q, t) = Run-Kept staged quiet there run in
        pick-Kept i y (Run-AllStaged fs net unpacker archive digest root L inside holds run staged)
          q t
    Run-Kept staged quiet there (then_restart {y} i t run torn) =
        let (q, h) = Run-Kept staged quiet there run in
        (restart-IsQuiet i t y q, restart-IsThere i t y torn q h)

    -- For processes that install at the same time, on a lawful file system and for an archive that
    -- holds a build rootfs and unpacks inside its destination: when the version is installed at some
    -- moment of a run, and no process stands between its second look and its rename at that moment, the
    -- version stays installed from then on, whatever the processes do and however many more are
    -- started.
    pub installed-Kept :
        {s : fs.State} {x y : System fs.State}
        → Run fs net unpacker archive digest root (at_start s) x
        → IsQuiet x
        → IsThere x.mem
        → Run fs net unpacker archive digest root x y
        → IsThere y.mem
    installed-Kept before quiet there run =
        (Run-Kept (started-AllStaged fs net unpacker archive digest root L inside holds before)
          quiet there run).1
