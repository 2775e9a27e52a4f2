-- ===== src/VmImage/Threads.antt =====
-- `check_single_threaded` and `host_thread_count` of crates/vm-image-builder/src/lib.rs.
-- `proc_pidinfo` is a parameter: its return value, the field that it fills in, and `errno`.
use openshell_image_builder.Base.{
  ℕ, ◌≤◌, Bool, true, false, not, ◌++◌, ◌==◌, ltb, if◌then◌else◌, Result, ok, err, map_err, ◌≡◌,
  refl, ◌↔◌, arith,
}
use openshell_image_builder.Base.Int.{ℤ, pos, negsuc, is_negative}
use openshell_image_builder.Text.{codes, show}
use openshell_image_builder.Host.{IoError, other}
use openshell_image_builder.VmImage.Error.{VmBuildError, io, multi_threaded, show_int}

-- One call of `proc_pidinfo(.., PROC_PIDTASKINFO, ..)` on the process itself.
pub record TaskInfo : Type 0 where
  pub ret : ℤ
  pub pti_threadnum : ℤ
  pub last_os_error : IoError

-- The size of `proc_taskinfo`, and whether the target is macOS.
pub record ThreadHost (S : Type 0) : Type 0 where
  pub macos : Bool
  pub size : ℕ
  pub proc_pidinfo : S → TaskInfo

abbrev int_eq : ℤ → ℕ → Bool
int_eq (pos n) m = n == m
int_eq (negsuc n) m = false

-- `max(0) as usize`
abbrev or_zero : ℤ → ℕ
or_zero (pos n) = n
or_zero (negsuc n) = 0

abbrev short_read : ℤ → ℕ → IoError
short_read ret size = record {
  kind = other;
  message =
      codes "proc_pidinfo(PROC_PIDTASKINFO) wrote "
      ++ (show_int ret ++ (codes " bytes, expected " ++ show size));
}

unfoldable pub thread_count : ℕ → TaskInfo → Result IoError ℕ
thread_count size info =
    if is_negative info.ret
    then err info.last_os_error
    else if not (int_eq info.ret size)
    then err (short_read info.ret size)
    else ok (or_zero info.pti_threadnum)

abbrev at_most_one : Result VmBuildError ℕ → Result VmBuildError (Unit {0})
at_most_one (err e) = err e
at_most_one (ok threads) = if ltb 1 threads then err (multi_threaded threads) else ok tt

module _ {S : Type 0} (host : ThreadHost S) where
  unfoldable pub host_thread_count : S → Result IoError ℕ
  host_thread_count s = thread_count host.size (host.proc_pidinfo s)

  unfoldable pub check_single_threaded : S → Result VmBuildError (Unit {0})
  check_single_threaded s =
      if host.macos then at_most_one (map_err io (host_thread_count s)) else ok tt

  -- The kernel filled in the whole structure and counted one thread at most.
  pub record IsSingleThreaded (s : S) : Type 0 where
    pub filled : (host.proc_pidinfo s).ret ≡ pos host.size
    pub threads : ℕ
    pub counted : or_zero (host.proc_pidinfo s).pti_threadnum ≡ threads
    pub alone : threads ≤ 1

  single_sound : (s : S) → host.macos ≡ true → check_single_threaded s ≡ ok tt → IsSingleThreaded s
  unfolding check_single_threaded host_thread_count thread_count
  single_sound s mac h = record {
    filled = ground arith;
    threads = or_zero (host.proc_pidinfo s).pti_threadnum;
    counted = refl;
    alone = ground arith;
  }

  single_complete :
      (s : S) → host.macos ≡ true → IsSingleThreaded s → check_single_threaded s ≡ ok tt
  unfolding check_single_threaded host_thread_count thread_count
  single_complete s mac h = ground (arith, h.filled, h.counted, h.alone)

  -- On macOS the check passes exactly when the thread count was read in full and is at most one: a
  -- count that cannot be read does not pass.
  pub check_single_threaded_iff :
      (s : S) → host.macos ≡ true → (check_single_threaded s ≡ ok tt) ↔ IsSingleThreaded s
  check_single_threaded_iff s mac = (single_sound s mac, single_complete s mac)
