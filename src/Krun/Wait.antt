-- ===== src/Krun/Wait.antt =====
-- `wait_for` of krun.rs: the loop round `waitpid`, and what the status means.
use openshell_image_builder.Base.{
  ℕ, zero, suc, ◌%◌, ◌<◌, Bool, true, false, Option, none, some, ◌==◌, if◌then◌else◌, Result, ok,
  err, ◌≡◌, refl, Bool-cases, ◌∙◌, ◌≢◌, ◌⊎◌, inl, inr, arith,
}
use openshell_image_builder.Base.Int.{pos, negsuc}
use openshell_image_builder.Text.{codes}
use openshell_image_builder.Host.{IoError, ErrorKind, not_found, interrupted, invalid_input, other}
use openshell_image_builder.VmImage.Error.{VmBuildError, io, krun, failed}
use openshell_image_builder.Krun.Enter.{
  WaitStatus, Waited, wait_failed, waited, LibKrun, Ended, returned, taken_over, exit_code,
  exit_setup_failed, exit_enter_failed,
}

abbrev is_interrupted : ErrorKind → Bool
is_interrupted interrupted = true
is_interrupted not_found = false
is_interrupted invalid_input = false
is_interrupted other = false

abbrev pub setup_failed : VmBuildError
setup_failed = krun (codes "krun_* configuration") (negsuc 0)

abbrev pub enter_failed : VmBuildError
enter_failed = krun (codes "krun_start_enter") (negsuc 0)

unfoldable pub outcome : WaitStatus → Result VmBuildError (Unit {0})
outcome status =
    if status.signaled
    then err (failed none)
    else if status.exit_status == 0
    then ok tt
    else if status.exit_status == exit_setup_failed
    then err setup_failed
    else if status.exit_status == exit_enter_failed
    then err enter_failed
    else err (failed (some (pos status.exit_status)))

-- What the parent is meant to report of a child's end; a status has eight bits.
abbrev pub intended : Ended → Result VmBuildError (Unit {0})
intended (returned code) = if code == exit_setup_failed then err setup_failed else err enter_failed
intended (taken_over code) =
    if code % 256 == 0 then ok tt else err (failed (some (pos (code % 256))))

-- The status of a child that was not killed.
abbrev pub status_of : Ended → WaitStatus
status_of e = record { signaled = false; exit_status = exit_code e % 256 }

-- The codes that `enter_vm` returns, and the exit statuses of a workload that differ from them.
abbrev pub IsTold : Ended → Type 0
IsTold (returned code) = (code ≡ exit_setup_failed) ⊎ (code ≡ exit_enter_failed)
IsTold (taken_over code) = (code % 256 ≢ exit_setup_failed) × (code % 256 ≢ exit_enter_failed)

-- The parent reports how the child ended: the two failures of `enter_vm`, success for a workload that
-- exits with 0, and the workload's own status for any other but 118 and 119.
pub outcome-intended : (e : Ended) → IsTold e → outcome (status_of e) ≡ intended e
unfolding outcome
outcome-intended (returned code) told = ground arith
outcome-intended (taken_over code) told = ground arith

module _ {S : Type 0} (lib : LibKrun S) where
  abbrev again :
      (S → Option (Result VmBuildError (Unit {0}) × S))
      → Waited × S
      → Option (Result VmBuildError (Unit {0}) × S)
  again retry (waited status, s) = some (outcome status, s)
  again retry (wait_failed e, s) = elim (is_interrupted e.kind) [
    | true ↦ retry s
    | false ↦ some (err (io e), s)
  ]

  -- A call that a signal interrupts is made again. The fuel is the number of calls; `none` stands for
  -- a parent that is still waiting.
  unfoldable pub wait_for : ℕ → ℕ → S → Option (Result VmBuildError (Unit {0}) × S)
  wait_for zero pid s = none
  wait_for (suc fuel) pid s = again (wait_for fuel pid) (lib.waitpid pid s)

  again-interrupted :
      (retry : S → Option (Result VmBuildError (Unit {0}) × S)) (e : IoError) (s : S)
      → e.kind ≡ interrupted
      → again retry (wait_failed e, s) ≡ retry s
  again-interrupted retry e s h = rw h

  -- The calls that are interrupted, from one state to another, counted.
  pub data Interrupts (pid : ℕ) : ℕ → S → S → Type 0 where
    here : {s : S} → Interrupts pid zero s s
    next :
        {n : ℕ} {s s' t : S} {e : IoError}
        → lib.waitpid pid s ≡ (wait_failed e, s')
        → e.kind ≡ interrupted
        → Interrupts pid n s' t
        → Interrupts pid (suc n) s t

  -- However often signals interrupt it, the loop ends when the child's status arrives, with what the
  -- status means; one more round than there are interruptions is enough.
  pub wait_for-Interrupts :
      (pid : ℕ) {n : ℕ} {s t : S} (u : S) (fuel : ℕ) (status : WaitStatus)
      → n < fuel
      → Interrupts pid n s t
      → lib.waitpid pid t ≡ (waited status, u)
      → wait_for fuel pid s ≡ some (outcome status, u)
  unfolding wait_for
  wait_for-Interrupts pid u zero status h _ arrived = absurd (omega arith)
  wait_for-Interrupts pid u (suc fuel) status h here arrived = rw (arrived, wait_for)
  wait_for-Interrupts pid u (suc fuel) status h (next {n = n} {s' = s'} {e = e} call kind rest)
        arrived =
      let later = wait_for-Interrupts pid {n = n} u fuel status (omega arith) rest arrived in
      rw (call, wait_for) (again-interrupted (wait_for fuel pid) e s' kind ∙ later)

  -- The call that ended the loop, and what it told.
  pub record IsOver (pid : ℕ) (s : S) (status : WaitStatus) (t : S) : Type 0 where
    pub count : ℕ
    pub before : S
    pub calls : Interrupts pid count s before
    pub arrived : lib.waitpid pid before ≡ (waited status, t)

  outcome-ok :
      (status : WaitStatus)
      → outcome status ≡ ok tt
      → (status.signaled ≡ false) × (status.exit_status ≡ 0)
  unfolding outcome
  outcome-ok status h = ground arith

  is_interrupted-eq : (k : ErrorKind) → is_interrupted k ≡ true → k ≡ interrupted
  is_interrupted-eq interrupted h = refl
  is_interrupted-eq not_found h = absurd (cc h)
  is_interrupted-eq invalid_input h = absurd (cc h)
  is_interrupted-eq other h = absurd (cc h)

  again-ok :
      (retry : S → Option (Result VmBuildError (Unit {0}) × S)) (pid : ℕ) (s t : S) (w : Waited × S)
      → lib.waitpid pid s ≡ w
      → ((s' : S)
          → retry s' ≡ some (ok tt, t)
          → (status : WaitStatus) × (IsOver pid s' status t
              × ((status.signaled ≡ false) × (status.exit_status ≡ 0))))
      → again retry w ≡ some (ok tt, t)
      → (status : WaitStatus) × (IsOver pid s status t
          × ((status.signaled ≡ false) × (status.exit_status ≡ 0)))
  again-ok retry pid s t (waited status, u) call later h =
      let told : outcome status ≡ ok tt = cc h in
      let end : u ≡ t = cc h in
      (
        status,
        (
          record { count = 0; before = s; calls = here; arrived = cc (call, end) },
          outcome-ok status told,
        ),
      )
  again-ok retry pid s t (wait_failed e, u) call later h =
      elim (Bool-cases (is_interrupted e.kind)) [
        | inl retried ↦
            let (status, (over, told)) = later u (rw (again, retried) at h) in
            (
              status,
              (
                record {
                  count = suc over.count;
                  before = over.before;
                  calls = next call (is_interrupted-eq e.kind retried) over.calls;
                  arrived = over.arrived;
                },
                told,
              ),
            )
        | inr broken ↦ absurd (cc (rw (again, broken) at h))
      ]

  -- The loop reports success only for a status of a child that was not killed and exited with 0.
  pub wait_for-ok :
      (fuel pid : ℕ) (s t : S)
      → wait_for fuel pid s ≡ some (ok tt, t)
      → (status : WaitStatus) × (IsOver pid s status t
          × ((status.signaled ≡ false) × (status.exit_status ≡ 0)))
  unfolding wait_for
  wait_for-ok zero pid s t h = absurd (cc h)
  wait_for-ok (suc fuel) pid s t h =
      again-ok (wait_for fuel pid) pid s t (lib.waitpid pid s) refl
        (λ s'. wait_for-ok fuel pid s' t) h
