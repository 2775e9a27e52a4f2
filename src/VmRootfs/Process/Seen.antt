-- ===== src/VmRootfs/Process/Seen.antt =====
-- Interleaved processes: what a process that goes on without a failure has seen or made.
use mathlib.Core.Path.{subst}
use openshell_image_builder.Base.{
  ℕ, true, List, [], ◌∷◌, is_empty, Result, ok, err, ◌≡◌, refl, inl, inr, Bool-cases,
}
use openshell_image_builder.Text.{Text}
use openshell_image_builder.FilePath.{FilePath, join}
use openshell_image_builder.Host.{IoError, FileSystem}
use openshell_image_builder.Host.Laws.{IsLawful}
use openshell_image_builder.Dns.{Net}
use openshell_image_builder.VmRootfs.{
  Unpacker, version, staging_name, remove_if_there, is_installed,
}
use openshell_image_builder.VmRootfs.Failure.{UnpacksInside}
use openshell_image_builder.VmRootfs.Staged.{HoldsRootfs}
use openshell_image_builder.VmRootfs.Install.{rename-installed}
use openshell_image_builder.VmRootfs.Process.{
  Pc, looking, clearing, creating, unpacking, marking, relooking, leaving, removing, renaming,
  listing, sweeping, cleaning, ended, proceed, as_process, key, unpack_with, sweep_with, move,
}
use openshell_image_builder.VmRootfs.Process.System.{
  System, start, update-elim, pick, restart, IsTorn, Run, begun, then_pick, then_restart,
}
use openshell_image_builder.VmRootfs.Process.Staged.{HasStaged}
use openshell_image_builder.VmRootfs.Process.Invariant.{started-AllStaged}

-- What a process at a place is sure of, for a fact that it learns when the tree is in its place.
abbrev Knows : FilePath → Type 0 → Pc → Type 0
Knows there W leaving = W
Knows there W listing = W
Knows there W (sweeping es) = W
Knows there W (ended (ok p)) = (p ≡ there) × W
Knows there W pc = Unit {0}

Knows-map :
    (there : FilePath) (V W : Type 0) → (V → W) → (pc : Pc) → Knows there V pc → Knows there W pc
Knows-map there V W f looking h = tt
Knows-map there V W f clearing h = tt
Knows-map there V W f creating h = tt
Knows-map there V W f unpacking h = tt
Knows-map there V W f marking h = tt
Knows-map there V W f relooking h = tt
Knows-map there V W f leaving h = f h
Knows-map there V W f removing h = tt
Knows-map there V W f renaming h = tt
Knows-map there V W f listing h = f h
Knows-map there V W f (sweeping es) h = f h
Knows-map there V W f (cleaning e) h = tt
Knows-map there V W f (ended (ok p)) (same, h) = (same, f h)
Knows-map there V W f (ended (err e)) h = tt

module _ (fs : FileSystem) (net : Net fs.State) (unpacker : Unpacker fs) (archive : List ℕ)
    (digest : Text) (root : FilePath) where
  abbrev go : ℕ → Pc → fs.State → Pc × fs.State
  go = move fs net unpacker archive digest root

  abbrev the_key : Text
  the_key = key fs net unpacker archive digest root

  -- The directory of this version holds a rootfs with the marker of the archive.
  abbrev IsThere : fs.State → Type 0
  IsThere s = is_installed fs net (join root version) the_key s ≡ true

  -- One step of the process `i`, for a fact `W` that follows when the tree is there before the step or
  -- after it.
  module _ (L : IsLawful fs) (i : ℕ) (W : Type 0) where
    abbrev self : Unpacker fs
    self = as_process fs net unpacker archive digest root i

    abbrev Sure : Pc → Type 0
    Sure = Knows (join root version) W

    proceed-Sure :
        (pc : Pc) (what : IoError → Text) (x : Result IoError (Unit {0}) × fs.State)
        → ((u : fs.State) → x ≡ (ok tt, u) → Sure pc)
        → Sure (proceed pc what x).0
    unfolding proceed
    proceed-Sure pc what (ok _, u) h = h u refl
    proceed-Sure pc what (err e, u) h = tt

    unpack_with-Sure :
        (r : Result IoError unpacker.Stream) (s : fs.State)
        → Sure (unpack_with fs net unpacker archive digest root i r s).0
    unpack_with-Sure (err e) s = tt
    unpack_with-Sure (ok stream) s =
        proceed-Sure marking _ (unpacker.unpack stream (join root (staging_name i)) s) (λ u _. tt)

    sweep_with-Sure :
        (r : Result IoError (List (Result IoError Text))) (s : fs.State)
        → W
        → Sure (sweep_with fs net unpacker archive digest root r s).0
    sweep_with-Sure (err e) s w = (refl, w)
    sweep_with-Sure (ok es) s w = w

    looking-Sure : (s : fs.State) → (IsThere s → W) → Sure (go i looking s).0
    unfolding move
    looking-Sure s before = elim (Bool-cases (is_empty archive)) [
      | inl empty ↦ rw empty tt
      | inr full ↦ elim (Bool-cases (is_installed fs net (join root version) the_key s)) [
        | inl there ↦ rw (full, there) (refl, before there)
        | inr absent ↦ rw (full, absent) tt
      ]
    ]

    relooking-Sure : (s : fs.State) → (IsThere s → W) → Sure (go i relooking s).0
    unfolding move
    relooking-Sure s before =
        elim (Bool-cases (is_installed fs net (join root version) the_key s)) [
          | inl there ↦ rw there (before there)
          | inr absent ↦ rw absent tt
        ]

    renaming-Sure :
        (s : fs.State)
        → HasStaged fs net unpacker archive digest root i renaming s
        → (IsThere (go i renaming s).1 → W)
        → Sure (go i renaming s).0
    unfolding move HasStaged proceed
    renaming-Sure s staged later =
        proceed-Sure listing _ (fs.rename (join root (staging_name i)) (join root version) s)
          (λ u renamed.
            let there = rename-installed fs net self archive L root the_key s u staged renamed in
            later (rw renamed there))

    move-Sure :
        (pc : Pc) (s : fs.State)
        → HasStaged fs net unpacker archive digest root i pc s
        → (IsThere s → W)
        → (IsThere (go i pc s).1 → W)
        → Sure pc
        → Sure (go i pc s).0
    unfolding move
    move-Sure looking s staged before later w = looking-Sure s before
    move-Sure clearing s staged before later w =
        proceed-Sure creating _ (remove_if_there fs (join root (staging_name i)) s) (λ u _. tt)
    move-Sure creating s staged before later w =
        proceed-Sure unpacking _ (fs.create_dir_all (join root (staging_name i)) s) (λ u _. tt)
    move-Sure unpacking s staged before later w = unpack_with-Sure (unpacker.decoder archive) s
    move-Sure marking s staged before later w = proceed-Sure relooking _ _ (λ u _. tt)
    move-Sure relooking s staged before later w = relooking-Sure s before
    move-Sure leaving s staged before later w = (refl, w)
    move-Sure removing s staged before later w =
        proceed-Sure renaming _ (remove_if_there fs (join root version) s) (λ u _. tt)
    move-Sure renaming s staged before later w = renaming-Sure s staged later
    move-Sure listing s staged before later w = sweep_with-Sure (fs.read_dir s root) s w
    move-Sure (sweeping []) s staged before later w = (refl, w)
    move-Sure (sweeping (err e ∷ es)) s staged before later w = w
    move-Sure (sweeping (ok n ∷ es)) s staged before later w = w
    move-Sure (cleaning e) s staged before later w = tt
    move-Sure (ended r) s staged before later w = w

  module _ (L : IsLawful fs) (inside : UnpacksInside fs net unpacker archive root)
      (holds : HoldsRootfs fs net unpacker archive) where
    abbrev Goes : System fs.State → System fs.State → Type 0
    Goes = Run fs net unpacker archive digest root

    abbrev at_start : fs.State → System fs.State
    at_start = start fs net unpacker archive digest root

    -- The run passed through a state with the tree in its place.
    abbrev WasThere : fs.State → System fs.State → Type 0
    WasThere s y = (z : System fs.State) × (Goes (at_start s) z × (Goes z y × IsThere z.mem))

    abbrev AllKnow : fs.State → System fs.State → Type 0
    AllKnow s y = (k : ℕ) → Knows (join root version) (WasThere s y) (y.pc k)

    pick-AllKnow :
        (s : fs.State) (i : ℕ) (y : System fs.State)
        → Goes (at_start s) y
        → AllKnow s y
        → AllKnow s (pick fs net unpacker archive digest root i y)
    unfolding pick
    pick-AllKnow s i y run h =
        let V = WasThere s y in
        let y' = pick fs net unpacker archive digest root i y in
        let W = WasThere s y' in
        let longer : V → W = λ v. (v.0, (v.1.0, (then_pick i v.1.1.0, v.1.1.1))) in
        update-elim (λ k p. Knows (join root version) W p) y.pc i (go i (y.pc i) y.mem).0
          (move-Sure L i W (y.pc i) y.mem
            (started-AllStaged fs net unpacker archive digest root L inside holds run i)
            (λ there. longer (y, (run, (begun, there))))
            (λ there. (y', (then_pick i run, (begun, there))))
            (Knows-map (join root version) V W longer (y.pc i) (h i)))
          (λ k _. Knows-map (join root version) V W longer (y.pc k) (h k))

    restart-AllKnow :
        (s : fs.State) (i : ℕ) (t : fs.State) (y : System fs.State)
        → IsTorn fs net unpacker archive digest root i y t
        → AllKnow s y
        → AllKnow s (restart fs net unpacker archive digest root i t y)
    unfolding restart
    restart-AllKnow s i t y torn h =
        let V = WasThere s y in
        let W = WasThere s (restart fs net unpacker archive digest root i t y) in
        let longer : V → W = λ v. (v.0, (v.1.0, (then_restart i t v.1.1.0 torn, v.1.1.1))) in
        update-elim (λ k p. Knows (join root version) W p) y.pc i looking tt
          (λ k _. Knows-map (join root version) V W longer (y.pc k) (h k))

    Run-AllKnow : {s : fs.State} {y : System fs.State} → Goes (at_start s) y → AllKnow s y
    Run-AllKnow begun = λ k. tt
    Run-AllKnow {s} (then_pick {y} i run) = pick-AllKnow s i y run (Run-AllKnow run)
    Run-AllKnow {s} (then_restart {y} i t run torn) = restart-AllKnow s i t y torn (Run-AllKnow run)

    ended-Knows :
        (there p : FilePath) (W : Type 0) (pc : Pc)
        → Knows there W pc
        → pc ≡ ended (ok p)
        → (p ≡ there) × W
    ended-Knows there p W pc h e = subst (Knows there W) e h

    -- Whatever other processes do at the same time, on a lawful file system and for an archive that
    -- holds a build rootfs and unpacks inside its destination: a process that has returned a directory
    -- has returned the directory of this version, and the run passed through a state in which that
    -- directory had the marker of this archive and passed the check of a rootfs.
    pub ended-WasThere :
        {s : fs.State} {y : System fs.State} (i : ℕ) (p : FilePath)
        → Goes (at_start s) y
        → y.pc i ≡ ended (ok p)
        → (p ≡ join root version)
          × ((z : System fs.State) × (Goes (at_start s) z × (Goes z y × IsThere z.mem)))
    ended-WasThere {s} {y} i p run e =
        ended-Knows (join root version) p (WasThere s y) (y.pc i) (Run-AllKnow run i) e
