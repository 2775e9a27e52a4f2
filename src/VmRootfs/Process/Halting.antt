-- ===== src/VmRootfs/Process/Halting.antt =====
-- The number of steps that a process takes, with others at work between them.
use openshell_image_builder.Base.{ℕ, List, [], ◌∷◌, is_empty, Result, ok, err, inl, inr, Bool-cases}
use openshell_image_builder.Text.{Text}
use openshell_image_builder.FilePath.{FilePath, join}
use openshell_image_builder.Host.{IoError, FileSystem}
use openshell_image_builder.Dns.{Net}
use openshell_image_builder.VmRootfs.{
  Unpacker, version, staging_name, remove_if_there, is_installed,
}
use openshell_image_builder.VmRootfs.Process.{
  Pc, looking, clearing, creating, unpacking, marking, relooking, leaving, removing, renaming,
  listing, sweeping, cleaning, ended, proceed, key, unpack_with, sweep_with, move,
}

module _ (fs : FileSystem) (net : Net fs.State) (unpacker : Unpacker fs) (archive : List ℕ)
    (digest : Text) (root : FilePath) (pid : ℕ) where
  -- From this place the process ends after finitely many steps of its own, whatever state it finds the
  -- host in at each of them.
  pub data Halts : Pc → Type 0 where
    halted : {r : Result Text FilePath} → Halts (ended r)
    by_steps :
        {pc : Pc}
        → ((s : fs.State) → Halts (move fs net unpacker archive digest root pid pc s).0)
        → Halts pc

  cleaning-Halts : (e : Text) → Halts (cleaning e)
  cleaning-Halts e = by_steps {pc = cleaning e} (λ s. unfold move in halted)

  leaving-Halts : Halts leaving
  leaving-Halts = by_steps {pc = leaving} (λ s. unfold move in halted)

  unread-Halts :
      (e : IoError) (es : List (Result IoError Text))
      → Halts (sweeping es)
      → Halts (sweeping (err e ∷ es))
  unread-Halts e es h = by_steps {pc = sweeping (err e ∷ es)} (λ s. unfold move in h)

  entry-Halts :
      (n : Text) (es : List (Result IoError Text))
      → Halts (sweeping es)
      → Halts (sweeping (ok n ∷ es))
  entry-Halts n es h = by_steps {pc = sweeping (ok n ∷ es)} (λ s. unfold move in h)

  sweeping-Halts : (es : List (Result IoError Text)) → Halts (sweeping es)
  sweeping-Halts [] = by_steps {pc = sweeping []} (λ s. unfold move in halted)
  sweeping-Halts (err e ∷ es) = unread-Halts e es (sweeping-Halts es)
  sweeping-Halts (ok n ∷ es) = entry-Halts n es (sweeping-Halts es)

  sweep_with-Halts :
      (r : Result IoError (List (Result IoError Text))) (s : fs.State)
      → Halts (sweep_with fs net unpacker archive digest root r s).0
  sweep_with-Halts (err e) s = halted
  sweep_with-Halts (ok es) s = sweeping-Halts es

  listing-Halts : Halts listing
  listing-Halts =
      by_steps {pc = listing} (λ s. unfold move in sweep_with-Halts (fs.read_dir s root) s)

  proceed-Halts :
      (pc : Pc) (what : IoError → Text) (x : Result IoError (Unit {0}) × fs.State)
      → Halts pc
      → Halts (proceed pc what x).0
  unfolding proceed
  proceed-Halts pc what (ok _, s) h = h
  proceed-Halts pc what (err e, s) h = cleaning-Halts (what e)

  renaming-Halts : Halts renaming
  renaming-Halts =
      by_steps {pc = renaming} (λ s. unfold move in proceed-Halts listing _ _ listing-Halts)

  removing-Halts : Halts removing
  removing-Halts = by_steps {pc = removing} (λ s.
      unfold move in
      proceed-Halts renaming _ (remove_if_there fs (join root version) s) renaming-Halts)

  relooking-Halts : Halts relooking
  relooking-Halts = by_steps {pc = relooking} (λ s.
      unfold move in
      elim (Bool-cases
        (is_installed fs net (join root version) (key fs net unpacker archive digest root) s)) [
          | inl there ↦ rw there leaving-Halts
          | inr absent ↦ rw absent removing-Halts
        ])

  marking-Halts : Halts marking
  marking-Halts =
      by_steps {pc = marking} (λ s. unfold move in proceed-Halts relooking _ _ relooking-Halts)

  unpack_with-Halts :
      (r : Result IoError unpacker.Stream) (s : fs.State)
      → Halts (unpack_with fs net unpacker archive digest root pid r s).0
  unpack_with-Halts (err e) s = cleaning-Halts _
  unpack_with-Halts (ok stream) s =
      proceed-Halts marking _ (unpacker.unpack stream (join root (staging_name pid)) s)
        marking-Halts

  unpacking-Halts : Halts unpacking
  unpacking-Halts =
      by_steps {pc = unpacking} (λ s. unfold move in unpack_with-Halts (unpacker.decoder archive) s)

  creating-Halts : Halts creating
  creating-Halts =
      by_steps {pc = creating} (λ s. unfold move in proceed-Halts unpacking _ _ unpacking-Halts)

  clearing-Halts : Halts clearing
  clearing-Halts = by_steps {pc = clearing} (λ s.
      unfold move in
      proceed-Halts creating _ (remove_if_there fs (join root (staging_name pid)) s) creating-Halts)

  -- A process that installs ends after finitely many steps of its own, whatever state it finds the host
  -- in at each step: it never waits for another process, and no other process can keep it busy.
  pub looking-Halts : Halts looking
  looking-Halts = by_steps {pc = looking} (λ s.
      unfold move in
      elim (Bool-cases (is_empty archive)) [
        | inl empty ↦ rw empty halted
        | inr full ↦
            elim (Bool-cases (
              is_installed fs net (join root version) (key fs net unpacker archive digest root)
                s)) [
                  | inl there ↦ rw (full, there) halted
                  | inr absent ↦ rw (full, absent) clearing-Halts
                ]
      ])
