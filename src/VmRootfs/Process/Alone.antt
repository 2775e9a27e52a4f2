-- ===== src/VmRootfs/Process/Alone.antt =====
-- One process that runs alone: its steps against the function `install`.
use mathlib.Core.Path.{subst}
use openshell_image_builder.Base.{ℕ, List, [], ◌∷◌, is_empty, Result, ok, err, inl, inr, Bool-cases}
use openshell_image_builder.Text.{Text}
use openshell_image_builder.FilePath.{FilePath, join}
use openshell_image_builder.Host.{IoError, FileSystem}
use openshell_image_builder.Dns.{Net}
use openshell_image_builder.VmRootfs.{
  Unpacker, version, marker, staging_name, remove_if_there, is_installed, sweep_entry, install,
}
use openshell_image_builder.VmRootfs.Process.{
  Pc, looking, clearing, creating, unpacking, marking, relooking, leaving, removing, renaming,
  listing, sweeping, cleaning, ended, proceed, as_process, key, unpack_with, sweep_with, move,
}
use openshell_image_builder.VmRootfs.Process.Rest.{finish, finish_at, finish-move}

module _ (fs : FileSystem) (net : Net fs.State) (unpacker : Unpacker fs) (archive : List ℕ)
    (digest : Text) (root : FilePath) (pid : ℕ) where
  abbrev go : Pc → fs.State → Pc × fs.State
  go = move fs net unpacker archive digest root pid

  abbrev here : FilePath
  here = join root (staging_name pid)

  abbrev there : FilePath
  there = join root version

  abbrev the_key : Text
  the_key = key fs net unpacker archive digest root

  abbrev rest : Pc × fs.State → Result Text FilePath × fs.State
  rest = finish_at fs net unpacker archive digest root pid

  -- The steps of the process from one place and state to another, with no other process between.
  pub data Leads : Pc → fs.State → Pc → fs.State → Type 0 where
    here_already : {pc : Pc} {s : fs.State} → Leads pc s pc s
    by_step :
        {pc pc' : Pc} {s t : fs.State}
        → Leads
            (move fs net unpacker archive digest root pid pc s).0
            (move fs net unpacker archive digest root pid pc s).1
            pc'
            t
        → Leads pc s pc' t

  -- From a place and a state, the process ends with what the rest of the code makes of it.
  abbrev Ends : Pc × fs.State → Type 0
  Ends x = Leads x.0 x.1 (ended (rest x).0) (rest x).1

  step-Ends : (pc : Pc) (s : fs.State) → Ends (go pc s) → Ends (pc, s)
  step-Ends pc s h = by_step (
      subst (λ (y : Result Text FilePath × fs.State). Leads (go pc s).0 (go pc s).1 (ended y.0) y.1)
        (finish-move fs net unpacker archive digest root pid pc s) h)

  cleaning-Ends : (e : Text) (s : fs.State) → Ends (cleaning e, s)
  cleaning-Ends e s = step-Ends (cleaning e) s (unfold move finish in here_already)

  leaving-Ends : (s : fs.State) → Ends (leaving, s)
  leaving-Ends s = step-Ends leaving s (unfold move finish in here_already)

  ended-Ends : (r : Result Text FilePath) (s : fs.State) → Ends (ended r, s)
  ended-Ends r s = unfold finish in here_already

  proceed-Ends :
      (pc : Pc) (what : IoError → Text) (x : Result IoError (Unit {0}) × fs.State)
      → ((u : fs.State) → Ends (pc, u))
      → Ends (proceed pc what x)
  unfolding proceed
  proceed-Ends pc what (ok _, s) h = h s
  proceed-Ends pc what (err e, s) h = cleaning-Ends (what e) s

  unread-Ends :
      (e : IoError) (es : List (Result IoError Text)) (s : fs.State)
      → Ends (sweeping es, s)
      → Ends (sweeping (err e ∷ es), s)
  unread-Ends e es s h = step-Ends (sweeping (err e ∷ es)) s (unfold move in h)

  entry-Ends :
      (n : Text) (es : List (Result IoError Text)) (s : fs.State)
      → Ends (sweeping es, sweep_entry fs root there n s)
      → Ends (sweeping (ok n ∷ es), s)
  entry-Ends n es s h = step-Ends (sweeping (ok n ∷ es)) s (unfold move in h)

  sweeping-Ends : (es : List (Result IoError Text)) (s : fs.State) → Ends (sweeping es, s)
  sweeping-Ends [] s = step-Ends (sweeping []) s (unfold move in ended-Ends _ s)
  sweeping-Ends (err e ∷ es) s = unread-Ends e es s (sweeping-Ends es s)
  sweeping-Ends (ok n ∷ es) s = entry-Ends n es s (sweeping-Ends es (sweep_entry fs root there n s))

  sweep_with-Ends :
      (r : Result IoError (List (Result IoError Text))) (s : fs.State)
      → Ends (sweep_with fs net unpacker archive digest root r s)
  sweep_with-Ends (err e) s = ended-Ends _ s
  sweep_with-Ends (ok es) s = sweeping-Ends es s

  listing-Ends : (s : fs.State) → Ends (listing, s)
  listing-Ends s = step-Ends listing s (unfold move in sweep_with-Ends (fs.read_dir s root) s)

  renaming-Ends : (s : fs.State) → Ends (renaming, s)
  renaming-Ends s =
      step-Ends renaming s
        (unfold move in proceed-Ends listing _ (fs.rename here there s) listing-Ends)

  removing-Ends : (s : fs.State) → Ends (removing, s)
  removing-Ends s =
      step-Ends removing s
        (unfold move in proceed-Ends renaming _ (remove_if_there fs there s) renaming-Ends)

  relooking-Ends : (s : fs.State) → Ends (relooking, s)
  relooking-Ends s = step-Ends relooking s (
      unfold move in
      elim (Bool-cases (is_installed fs net there the_key s)) [
        | inl installed ↦ rw installed (leaving-Ends s)
        | inr absent ↦ rw absent (removing-Ends s)
      ])

  marking-Ends : (s : fs.State) → Ends (marking, s)
  marking-Ends s = step-Ends marking s (
      unfold move in
      proceed-Ends relooking _ (fs.write (join here marker) the_key s) relooking-Ends)

  unpack_with-Ends :
      (r : Result IoError unpacker.Stream) (s : fs.State)
      → Ends (unpack_with fs net unpacker archive digest root pid r s)
  unpack_with-Ends (err e) s = cleaning-Ends _ s
  unpack_with-Ends (ok stream) s =
      proceed-Ends marking _ (unpacker.unpack stream here s) marking-Ends

  unpacking-Ends : (s : fs.State) → Ends (unpacking, s)
  unpacking-Ends s =
      step-Ends unpacking s (unfold move in unpack_with-Ends (unpacker.decoder archive) s)

  creating-Ends : (s : fs.State) → Ends (creating, s)
  creating-Ends s =
      step-Ends creating s
        (unfold move in proceed-Ends unpacking _ (fs.create_dir_all here s) unpacking-Ends)

  clearing-Ends : (s : fs.State) → Ends (clearing, s)
  clearing-Ends s =
      step-Ends clearing s
        (unfold move in proceed-Ends creating _ (remove_if_there fs here s) creating-Ends)

  looking-Ends : (s : fs.State) → Ends (looking, s)
  looking-Ends s = step-Ends looking s (
      unfold move in
      elim (Bool-cases (is_empty archive)) [
        | inl empty ↦ rw empty (ended-Ends _ s)
        | inr full ↦ elim (Bool-cases (is_installed fs net there the_key s)) [
          | inl installed ↦ rw (full, installed) (ended-Ends _ s)
          | inr absent ↦ rw (full, absent) (clearing-Ends s)
        ]
      ])

  -- The steps of a process that runs alone come to an end, and in the result and the state that the
  -- function `install` gives.
  pub install-Leads :
      (s : fs.State)
      → Leads looking s
          (ended
            (install fs net
              (as_process fs net unpacker archive digest root pid)
              archive
              digest
              root
              s).0)
          (install fs net
            (as_process fs net unpacker archive digest root pid)
            archive
            digest
            root
            s).1
  unfolding finish
  install-Leads s = looking-Ends s
