-- ===== src/VmImage/Rootfs.antt =====
-- What `check_rootfs` accepts, and how it refuses.
use Prim.Native.Nat.{bit_and}
use openshell_image_builder.Base.{
  ℕ, ◌/◌, ◌%◌, ◌<◌, Bool, true, false, not, ◌||◌, ◌==◌, if◌then◌else◌, Result, ok, err, ◌≡◌, refl,
  ◌↔◌, inl, inr, Bool-cases, passes_under, passes_under-at, arith,
}
use openshell_image_builder.FilePath.{FilePath}
use openshell_image_builder.Host.{FileSystem, IoError}
use openshell_image_builder.VmImage.Config.{check_rootfs, check_mode, helper_of}

-- The owner, the group or others may execute: the lowest bits of the three octal digits of a mode.
abbrev pub may_execute : ℕ → Bool
may_execute mode = mode / 64 % 2 == 1 || (mode / 8 % 2 == 1 || mode % 2 == 1)

abbrev agrees : ℕ → Bool
agrees m = if bit_and m 0o111 == 0 then not (may_execute m) else may_execute m

execute_table : passes_under agrees 65536 ≡ true
unfolding passes_under
execute_table = refl

execute_bits : (m : ℕ) → m < 65536 → (bit_and m 0o111 == 0) ≡ not (may_execute m)
execute_bits m h = ground (arith, passes_under-at agrees 65536 execute_table m h)

-- A directory on the host from which the VM can start: it has the build helper, and somebody may
-- execute it.
pub record IsBuildRootfs (fs : FileSystem) (s : fs.State) (path : FilePath) : Type 0 where
  pub is_dir : (fs.stat s path).is_dir ≡ true
  pub has_helper : (fs.stat s (helper_of path)).is_file ≡ true
  pub mode : ℕ
  pub mode_eq : (fs.stat s (helper_of path)).mode ≡ ok mode
  pub executable : may_execute mode ≡ true

check_mode-ok :
    (path : FilePath) (r : Result IoError ℕ)
    → check_mode path r ≡ ok tt
    → (m : ℕ) × (r ≡ ok m) × ((bit_and m 0o111 == 0) ≡ false)
unfolding check_mode
check_mode-ok path (ok m) h = (m, refl, ground arith)
check_mode-ok path (err e) h = absurd (cc h)

module _ (fs : FileSystem) (path : FilePath) (s : fs.State)
    (fits : (m : ℕ) → (fs.stat s (helper_of path)).mode ≡ ok m → m < 65536) where
  check_rootfs_sound : check_rootfs fs path s ≡ ok tt → IsBuildRootfs fs s path
  unfolding check_rootfs
  check_rootfs_sound h = elim (Bool-cases (fs.stat s path).is_dir) [
    | inr d ↦ absurd (ground arith)
    | inl d ↦ elim (Bool-cases (fs.stat s (helper_of path)).is_file) [
      | inr f ↦ absurd (ground arith)
      | inl f ↦
          let (m, read, bits) = check_mode-ok path _ (ground arith) in
          record {
            is_dir = d;
            has_helper = f;
            mode = m;
            mode_eq = read;
            executable = ground (arith, execute_bits m (fits m read));
          }
    ]
  ]

  check_rootfs_complete : IsBuildRootfs fs s path → check_rootfs fs path s ≡ ok tt
  unfolding check_rootfs check_mode
  check_rootfs_complete r = ground (arith, execute_bits r.mode (fits r.mode r.mode_eq))

  -- Where modes have 16 bits, `check_rootfs` passes exactly the directories that hold the build helper
  -- as a file which the owner, the group or others may execute.
  pub check_rootfs_iff : (check_rootfs fs path s ≡ ok tt) ↔ IsBuildRootfs fs s path
  check_rootfs_iff = (check_rootfs_sound, check_rootfs_complete)
