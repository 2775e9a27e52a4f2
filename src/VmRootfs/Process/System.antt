-- ===== src/VmRootfs/Process/System.antt =====
-- Any number of processes at work on one cache: their steps in any order. A process may be killed, also
-- in the middle of a call, and a later one may be given its id.
use openshell_image_builder.Base.{
  ℕ, false, List, ◌==◌, if◌then◌else◌, ◌≡◌, ◌≢◌, inl, inr, Bool-cases, arith,
}
use openshell_image_builder.Text.{Text}
use openshell_image_builder.FilePath.{FilePath, join}
use openshell_image_builder.FilePath.Laws.{IsName}
use openshell_image_builder.Host.{FileSystem}
use openshell_image_builder.Dns.{Net}
use openshell_image_builder.VmRootfs.{Unpacker, version, staging_name}
use openshell_image_builder.VmRootfs.Paths.{Keeps}
use openshell_image_builder.VmRootfs.Sweep.{IsProtected}
use openshell_image_builder.VmRootfs.Process.Frame.{Replaces}
use openshell_image_builder.VmRootfs.Process.{Pc, looking, move}

-- The disk, and where the process of each id stands.
pub record System (S : Type 0) : Type 0 where
  pub mem : S
  pub pc : ℕ → Pc

-- The place of one process is another, and all others stand where they stood.
unfoldable pub update : (ℕ → Pc) → ℕ → Pc → ℕ → Pc
update pc i p k = if k == i then p else pc k

-- A family of facts on the places survives a step of one process, when it holds of its new place and
-- was kept for the others.
pub update-elim :
    (P : ℕ → Pc → Type 0) (pc : ℕ → Pc) (i : ℕ) (p : Pc)
    → P i p
    → ((k : ℕ) → (k == i) ≡ false → P k (pc k))
    → (k : ℕ) → P k (update pc i p k)
unfolding update
update-elim P pc i p own others k = elim (Bool-cases (k == i)) [
  | inl same ↦ let e : k ≡ i = ground (arith, same) in rw same (rw e own)
  | inr differ ↦ rw differ (others k differ)
]

module _ (fs : FileSystem) (net : Net fs.State) (unpacker : Unpacker fs) (archive : List ℕ)
    (digest : Text) (root : FilePath) where
  abbrev pub start : fs.State → System fs.State
  start s = record { mem = s; pc = λ _. looking }

  -- The process `i` takes its next step.
  unfoldable pub pick : ℕ → System fs.State → System fs.State
  pick i x =
      let y = move fs net unpacker archive digest root i (x.pc i) x.mem in
      record { mem = y.1; pc = update x.pc i y.0 }

  -- What is left of the disk when the process `i` is killed in its next call: that call is about the
  -- staging directory, about the installed tree if it replaces one, or about an old tree.
  abbrev pub IsTorn : ℕ → System fs.State → fs.State → Type 0
  IsTorn i x t =
      (m : Text)
      → IsName m
      → staging_name i ≢ m
      → IsProtected root (join root version) m
      → (Replaces (x.pc i) → version ≢ m)
      → Keeps fs root m x.mem t

  -- A process with the id `i` is started on the disk `t`, after the one before it has ended or was
  -- killed.
  unfoldable pub restart : ℕ → fs.State → System fs.State → System fs.State
  restart i t x = record { mem = t; pc = update x.pc i looking }

  pub data Run (x : System fs.State) : System fs.State → Type 0 where
    begun : Run x x
    then_pick : {y : System fs.State} (i : ℕ) → Run x y → Run x (pick i y)
    then_restart :
        {y : System fs.State} (i : ℕ) (t : fs.State)
        → Run x y
        → IsTorn i y t
        → Run x (restart i t y)
