-- ===== src/Main/Exit.antt =====
-- `main`: what the exit code stands for.
use openshell_image_builder.Base.{none, some, ◌++◌, Result, ok, err, ◌≡◌, refl, ◌⊎◌, inl, inr}
use openshell_image_builder.Base.Io.{next-cases, retag-eq-ok, result_eq, state_eq, ok_injective}
use openshell_image_builder.Text.{Text, codes}
use openshell_image_builder.Host.{FileSystem}
use openshell_image_builder.ContainerImage.{Runner}
use openshell_image_builder.VmImage.Build.{VmRunner}
use openshell_image_builder.Main.{
  Cli, Selected, Outside, check_vm_flags, build_summary, backend_for, message, run, Ending, exit_of,
  attempt, main,
}
use openshell_image_builder.Main.Select.{IsSelected, select_runtime-IsSelected}

module _ (fs : FileSystem) (outside : Outside fs) (container_runner : Runner fs.State)
    (krun_runner : VmRunner fs.State) where
  -- The program has done what the command line asks for.
  pub record IsDone (args : Cli) (s : fs.State) (ending : Ending fs outside) (t : fs.State)
      : Type 0 where
    pub flags : check_vm_flags args ≡ ok tt
    pub selected : Selected
    pub between : fs.State
    pub selected_by : IsSelected fs outside args s between selected
    pub ran :
        run fs outside args.tag args.from args.copy_containerfile
          (backend_for container_runner krun_runner selected)
          between
        ≡ (ok tt, t)
    pub stdout : ending.stdout ≡ build_summary selected
    pub stderr : ending.stderr ≡ none

  attempt-IsDone :
      (args : Cli) (s t : fs.State) (selected : Selected)
      → attempt fs outside container_runner krun_runner args s ≡ (ok selected, t)
      → IsDone args s (record { code = 0; stdout = build_summary selected; stderr = none }) t
  unfolding attempt
  attempt-IsDone args s t selected h = next-cases _ _ h λ _ s1 passed h1.
      next-cases _ _ h1 λ chosen s2 found h2. next-cases _ _ h2 λ _ s3 built end.
        let start : s ≡ s1 = state_eq passed in
        let same : chosen ≡ selected = ok_injective (result_eq end) in
        record {
          flags = result_eq passed;
          selected = chosen;
          between = s2;
          selected_by = select_runtime-IsSelected fs outside args s s2 chosen (rw start found);
          ran = rw (← state_eq end) (
              retag-eq-ok (message outside.debug)
                (run fs outside args.tag args.from args.copy_containerfile
                  (backend_for container_runner krun_runner chosen) s2)
                built);
          stdout = rw same;
          stderr = refl;
        }

  exit_of-cases :
      (args : Cli) (s : fs.State) (x : Result Text Selected × fs.State)
      → attempt fs outside container_runner krun_runner args s ≡ x
      → (((exit_of fs outside x).0.code ≡ 0)
          × IsDone args s (exit_of fs outside x).0 (exit_of fs outside x).1)
        ⊎ (((exit_of fs outside x).0.code ≡ 1)
            × ((exit_of fs outside x).0.stdout ≡ none)
            × ((e : Text) × ((exit_of fs outside x).0.stderr ≡ some (codes "Error: " ++ e))))
  exit_of-cases args s (ok selected, t) h = inl (refl, attempt-IsDone args s t selected h)
  exit_of-cases args s (err e, t) h = inr (refl, refl, (e, refl))

  -- The program exits with 0 and no error text only when the flags were accepted, a usable backend was
  -- selected and the run on it succeeded, and then it prints the summary of that backend; else it exits
  -- with 1, prints nothing on stdout, and one line that starts with "Error: " on stderr.
  pub main-IsDone :
      (args : Cli) (s : fs.State)
      → (((main fs outside container_runner krun_runner args s).0.code ≡ 0)
          × IsDone args s
              (main fs outside container_runner krun_runner args s).0
              (main fs outside container_runner krun_runner args s).1)
        ⊎ (((main fs outside container_runner krun_runner args s).0.code ≡ 1)
            × ((main fs outside container_runner krun_runner args s).0.stdout ≡ none)
            × ((e : Text) × ((main fs outside container_runner krun_runner args s).0.stderr
                  ≡ some (codes "Error: " ++ e))))
  unfolding main
  main-IsDone args s =
      exit_of-cases args s (attempt fs outside container_runner krun_runner args s) refl
