-- ===== src/Conformance/VmErrors.antt =====
-- The tests of crates/vm-image-builder/src/lib.rs on the thread check, on a build without libkrun, and
-- on what the errors display. A test on the threads of the process that runs it is on a host that
-- counts several.
use openshell_image_builder.Base.{ℕ, Bool, true, false, ◌&&◌, ltb, none, some, [], ◌≡◌, refl}
use openshell_image_builder.Base.Int.{pos, negsuc}
use openshell_image_builder.Text.{Text, codes, text_eq}
use openshell_image_builder.Host.{IoError, not_found, other}
use openshell_image_builder.VmImage.Error.{
  VmBuildError, io, unsupported, multi_threaded, krun, failed, display,
}
use openshell_image_builder.VmImage.Platform.{Platform, check_supported}
use openshell_image_builder.VmImage.Threads.{ThreadHost, check_single_threaded}
use openshell_image_builder.Conformance.Asserts.{contains, fails}

abbrev failure : Text → IoError
failure message = record { kind = other; message = message }

-- A process of macOS with this many threads.
abbrev process : ℕ → ThreadHost (Unit {0})
process threads = record {
  macos = true;
  size = 96;
  proc_pidinfo =
      λ s. record { ret = pos 96; pti_threadnum = pos threads; last_os_error = failure [] };
}

abbrev threads_over_one : VmBuildError → Bool
threads_over_one (multi_threaded threads) = ltb 1 threads
threads_over_one _ = false

abbrev check_single_threaded_rejects_a_threaded_process : ℕ → Bool
check_single_threaded_rejects_a_threaded_process threads =
    fails (check_single_threaded (process threads) tt) threads_over_one
    && contains (display (multi_threaded 7)) (codes "7 threads")
    && contains (display (multi_threaded 7)) (codes "single-threaded")

abbrev is_unsupported : VmBuildError → Bool
is_unsupported (unsupported reason) = true
is_unsupported _ = false

-- Without libkrun, `run` returns the refusal of `check_supported`.
abbrev krun_runner_reports_unsupported_without_the_feature : Platform → Bool
krun_runner_reports_unsupported_without_the_feature platform =
    fails (check_supported platform)
      (λ e. is_unsupported e && contains (display e) (codes "not available"))

abbrev io_error_display : Bool
io_error_display =
    text_eq (display (io (record { kind = not_found; message = codes "file not found" })))
      (codes "I/O error: file not found")

abbrev krun_error_display_names_the_call : Bool
krun_error_display_names_the_call =
    let msg = display (krun (codes "krun_create_ctx") (negsuc 21)) in
    contains msg (codes "krun_create_ctx") && contains msg (codes "-22")

abbrev failed_with_exit_code_display : Bool
failed_with_exit_code_display =
    text_eq (display (failed (some (pos 1)))) (codes "VM build failed with exit code 1")

abbrev failed_without_exit_code_display : Bool
failed_without_exit_code_display =
    text_eq (display (failed none)) (codes "VM build was terminated by a signal")

abbrev is_io : VmBuildError → Bool
is_io (io e) = true
is_io _ = false

-- `VmBuildError::from` is the constructor.
abbrev from_io_error_wraps_correctly : Bool
from_io_error_wraps_correctly = is_io (io (failure (codes "denied")))

tests_pass :
    (check_single_threaded_rejects_a_threaded_process 5 ≡ true)
    × (krun_runner_reports_unsupported_without_the_feature
          (record { apple_silicon = true; feature_krun = false })
        ≡ true)
    × (krun_runner_reports_unsupported_without_the_feature
          (record { apple_silicon = false; feature_krun = true })
        ≡ true)
    × (io_error_display ≡ true)
    × (krun_error_display_names_the_call ≡ true)
    × (failed_with_exit_code_display ≡ true)
    × (failed_without_exit_code_display ≡ true)
    × (from_io_error_wraps_correctly ≡ true)
unfolding check_supported check_single_threaded display contains text_eq
    openshell_image_builder.VmImage.Threads.host_thread_count
    openshell_image_builder.VmImage.Threads.thread_count
tests_pass = (refl, refl, refl, refl, refl, refl, refl, refl)
