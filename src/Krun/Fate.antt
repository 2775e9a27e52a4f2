-- ===== src/Krun/Fate.antt =====
-- All ways in which the child of krun.rs can end, and what its parent tells of them.
use openshell_image_builder.Base.{
  ℕ, ◌%◌, true, none, Result, err, ◌≡◌, refl, ◌≢◌, ◌⊎◌, ◌↔◌, inl, inr,
}
use openshell_image_builder.VmImage.Error.{VmBuildError, failed}
use openshell_image_builder.Krun.Enter.{
  WaitStatus, returned, taken_over, exit_setup_failed, exit_enter_failed,
}
use openshell_image_builder.Krun.Wait.{
  setup_failed, enter_failed, outcome, intended, status_of, outcome-intended,
}

outcome-collision :
    (code : ℕ)
    → (code % 256 ≡ exit_enter_failed) ⊎ (code % 256 ≡ exit_setup_failed)
    → outcome (status_of (taken_over code)) ≢ intended (taken_over code)
unfolding outcome
outcome-collision code (inl h) = rw h (λ e. cc e)
outcome-collision code (inr h) = rw h (λ e. cc e)

-- All ways in which the child can end: `enter_vm` returns, a workload of the guest exits, or a signal
-- kills the child, where the exit status that could be read from the status word means nothing.
pub data Fate : Type 0 where
  not_configured not_entered : Fate
  workload : ℕ → Fate
  killed : ℕ → Fate

-- What `waitpid` tells the parent of it.
abbrev pub fate_status : Fate → WaitStatus
fate_status not_configured = status_of (returned exit_setup_failed)
fate_status not_entered = status_of (returned exit_enter_failed)
fate_status (workload code) = status_of (taken_over code)
fate_status (killed word) = record { signaled = true; exit_status = word }

-- What the caller is meant to be told of it.
abbrev pub meant : Fate → Result VmBuildError (Unit {0})
meant not_configured = err setup_failed
meant not_entered = err enter_failed
meant (workload code) = intended (taken_over code)
meant (killed word) = err (failed none)

-- A workload whose status is one that the child uses for its own failures.
abbrev pub IsMistaken : Fate → Type 0
IsMistaken not_configured = ⊥
IsMistaken not_entered = ⊥
IsMistaken (workload code) = (code % 256 ≡ exit_enter_failed) ⊎ (code % 256 ≡ exit_setup_failed)
IsMistaken (killed word) = ⊥

-- However the child ends, the parent reports it as it is meant to, except in exactly one case: a
-- workload that exits with 118 or 119, which is reported otherwise. A failure to configure libkrun, a
-- failure to enter the VM, a child that a signal killed, whatever its status word holds, and every
-- other exit of a workload are told apart: success for 0, else the workload's own status.
pub outcome-meant_iff : (f : Fate) → (outcome (fate_status f) ≡ meant f) ↔ (¬ IsMistaken f)
unfolding outcome
outcome-meant_iff not_configured = ((λ _ b. b), (λ _. refl))
outcome-meant_iff not_entered = ((λ _ b. b), (λ _. refl))
outcome-meant_iff (killed word) = ((λ _ b. b), (λ _. refl))
outcome-meant_iff (workload code) = (
  (λ same mistaken. outcome-collision code mistaken same),
  (λ clear. outcome-intended (taken_over code) ((λ e. clear (inr e)), (λ e. clear (inl e)))),
)
