-- ===== src/Krun/Enter.antt =====
-- `enter_vm` of krun.rs, and what libkrun and the process calls are for the model.
use openshell_image_builder.Base.{
  ℕ, Bool, false, Option, none, some, List, [], ◌∷◌, if◌then◌else◌, any, ◌≡◌, refl, ◌↔◌, ◌⊎◌, inl,
  inr, Bool-cases, arith,
}
use openshell_image_builder.Base.Int.{ℤ, pos, negsuc, is_negative}
use openshell_image_builder.Text.{Text}
use openshell_image_builder.Host.{IoError}
use openshell_image_builder.Krun.Args.{Args}

-- `krun_start_enter` returns only when it refuses; else libkrun ends the process with the status of
-- the workload.
pub data Entered : Type 0 where
  refused : ℤ → Entered
  exited : ℕ → Entered

-- The status that `waitpid` stores, as WIFSIGNALED and WEXITSTATUS read it.
pub record WaitStatus : Type 0 where
  pub signaled : Bool
  pub exit_status : ℕ

pub data Waited : Type 0 where
  wait_failed : IoError → Waited
  waited : WaitStatus → Waited

-- After `fork` there are two processes, each with its own state.
pub data Forked (S : Type 0) : Type 0 where
  fork_failed : IoError → S → Forked S
  forked : ℕ → S → S → Forked S

pub record LibKrun (S : Type 0) : Type 0 where
  pub debug_enabled : S → Bool
  pub set_log_level : ℕ → S → S
  pub create_ctx : S → ℤ × S
  pub set_vm_config : ℕ → ℕ → ℕ → S → ℤ × S
  pub add_virtiofs : ℕ → Text → Text → S → ℤ × S
  pub set_workdir : ℕ → Text → S → ℤ × S
  pub set_exec : ℕ → Text → List Text → List Text → S → ℤ × S
  pub start_enter : ℕ → S → Entered × S
  pub fork : S → Forked S
  pub waitpid : ℕ → S → Waited × S

abbrev pub exit_setup_failed : ℕ
exit_setup_failed = 119

abbrev pub exit_enter_failed : ℕ
exit_enter_failed = 118

abbrev pub krun_log_level_trace : ℕ
krun_log_level_trace = 5

-- A C array of strings ends at its first null pointer.
unfoldable pub c_array : List (Option Text) → List Text
c_array [] = []
c_array (none ∷ ps) = []
c_array (some p ∷ ps) = p ∷ c_array ps

abbrev pub argv : Args → List (Option Text)
argv args = some args.containerfile ∷ some args.tag ∷ some args.output_filename ∷ none ∷ []

abbrev pub envp : Args → List (Option Text)
envp args = some args.path_env ∷ args.dns_env ∷ none ∷ []

-- How the child ends: `enter_vm` has returned a code, or libkrun has exited with one.
pub data Ended : Type 0 where
  returned : ℕ → Ended
  taken_over : ℕ → Ended

abbrev pub exit_code : Ended → ℕ
exit_code (returned code) = code
exit_code (taken_over code) = code

module _ {S : Type 0} (lib : LibKrun S) where
  -- The array `steps`: all six calls are made, and then their values are read.
  unfoldable pub steps : Args → ℕ → ℕ → ℕ → S → List ℤ × S
  unfolding c_array
  steps args cpus memory_mib ctx s =
      let (vm, s1) = lib.set_vm_config ctx cpus memory_mib s in
      let (root, s2) = lib.add_virtiofs ctx args.tag_root args.rootfs s1 in
      let (context, s3) = lib.add_virtiofs ctx args.tag_context args.context s2 in
      let (output, s4) = lib.add_virtiofs ctx args.tag_output args.output_dir s3 in
      let (workdir, s5) = lib.set_workdir ctx args.workdir s4 in
      let (exec, s6) = lib.set_exec ctx args.exec (c_array (argv args)) (c_array (envp args)) s5 in
      (vm ∷ root ∷ context ∷ output ∷ workdir ∷ exec ∷ [], s6)

  abbrev end_of : Entered → Ended
  end_of (refused ret) = returned exit_enter_failed
  end_of (exited code) = taken_over code

  abbrev start : ℕ → List ℤ × S → Ended
  start ctx (results, s) =
      if any is_negative results
      then returned exit_setup_failed
      else end_of (lib.start_enter ctx s).0

  abbrev configure : Args → ℕ → ℕ → ℤ × S → Ended
  configure args cpus memory_mib (negsuc n, s) = returned exit_setup_failed
  configure args cpus memory_mib (pos ctx, s) = start ctx (steps args cpus memory_mib ctx s)

  abbrev pub logging : S → S
  logging s = if lib.debug_enabled s then lib.set_log_level krun_log_level_trace s else s

  unfoldable pub enter_vm : Args → ℕ → ℕ → S → Ended
  enter_vm args cpus memory_mib s = configure args cpus memory_mib (lib.create_ctx (logging s))

  -- Every call that configures the VM has succeeded, and then libkrun took the process over.
  pub record IsBooted (args : Args) (cpus memory_mib : ℕ) (s : S) (code : ℕ) : Type 0 where
    pub ctx : ℕ
    pub after_ctx : S
    pub created : lib.create_ctx (logging s) ≡ (pos ctx, after_ctx)
    pub accepted : any is_negative (steps args cpus memory_mib ctx after_ctx).0 ≡ false
    pub entered : (lib.start_enter ctx (steps args cpus memory_mib ctx after_ctx).1).0 ≡ exited code

  end_of-taken_over : (e : Entered) (code : ℕ) → end_of e ≡ taken_over code → e ≡ exited code
  end_of-taken_over (refused r) code h = absurd (cc h)
  end_of-taken_over (exited c) code h = ground arith

  start-taken_over :
      (ctx : ℕ) (p : List ℤ × S) (code : ℕ)
      → start ctx p ≡ taken_over code
      → (any is_negative p.0 ≡ false) × ((lib.start_enter ctx p.1).0 ≡ exited code)
  start-taken_over ctx (results, s) code h =
      ground (arith, end_of-taken_over (lib.start_enter ctx s).0 code)

  booted :
      (args : Args) (cpus memory_mib : ℕ) (s : S) (code : ℕ) (p : ℤ × S)
      → lib.create_ctx (logging s) ≡ p
      → configure args cpus memory_mib p ≡ taken_over code
      → IsBooted args cpus memory_mib s code
  booted args cpus memory_mib s code (negsuc n, s') e h = absurd (cc h)
  booted args cpus memory_mib s code (pos ctx, s') e h =
      let (accepted, entered) = start-taken_over ctx (steps args cpus memory_mib ctx s') code h in
      record { ctx = ctx; after_ctx = s'; created = e; accepted = accepted; entered = entered }

  enter_vm_complete :
      (args : Args) (cpus memory_mib : ℕ) (s : S) (code : ℕ)
      → IsBooted args cpus memory_mib s code
      → enter_vm args cpus memory_mib s ≡ taken_over code
  unfolding enter_vm
  enter_vm_complete args cpus memory_mib s code b = rw b.created (rw b.accepted (rw b.entered))

  -- The VM runs, and ends with `code`, exactly when the context was created, each of the six
  -- configuring calls returned no negative value, and `krun_start_enter` took over.
  pub enter_vm_iff :
      (args : Args) (cpus memory_mib : ℕ) (s : S) (code : ℕ)
      → (enter_vm args cpus memory_mib s ≡ taken_over code) ↔ IsBooted args cpus memory_mib s code
  unfolding enter_vm
  enter_vm_iff args cpus memory_mib s code =
      (booted args cpus memory_mib s code _ refl, enter_vm_complete args cpus memory_mib s code)

  end_of-told :
      (e : Entered) (code : ℕ)
      → end_of e ≡ returned code
      → (code ≡ exit_setup_failed) ⊎ (code ≡ exit_enter_failed)
  end_of-told (refused r) code h = inr (ground arith)
  end_of-told (exited c) code h = absurd (cc h)

  start-told :
      (ctx : ℕ) (p : List ℤ × S) (code : ℕ)
      → start ctx p ≡ returned code
      → (code ≡ exit_setup_failed) ⊎ (code ≡ exit_enter_failed)
  start-told ctx (results, s) code h = elim (Bool-cases (any is_negative results)) [
    | inl failed ↦
        let same : returned exit_setup_failed ≡ returned code = rw failed at h in inl (ground arith)
    | inr accepted ↦ end_of-told (lib.start_enter ctx s).0 code (rw accepted at h)
  ]

  configure-told :
      (args : Args) (cpus memory_mib : ℕ) (p : ℤ × S) (code : ℕ)
      → configure args cpus memory_mib p ≡ returned code
      → (code ≡ exit_setup_failed) ⊎ (code ≡ exit_enter_failed)
  configure-told args cpus memory_mib (negsuc n, s) code h = inl (ground arith)
  configure-told args cpus memory_mib (pos ctx, s) code h =
      start-told ctx (steps args cpus memory_mib ctx s) code h

  -- `enter_vm` returns no code but the two for its failures.
  pub enter_vm-told :
      (args : Args) (cpus memory_mib : ℕ) (s : S) (code : ℕ)
      → enter_vm args cpus memory_mib s ≡ returned code
      → (code ≡ exit_setup_failed) ⊎ (code ≡ exit_enter_failed)
  unfolding enter_vm
  enter_vm-told args cpus memory_mib s code h =
      configure-told args cpus memory_mib (lib.create_ctx (logging s)) code h
