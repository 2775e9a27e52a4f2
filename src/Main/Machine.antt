-- ===== src/Main/Machine.antt =====
-- `main` with the libkrun backend of krun.rs: from the command line to the machine that is started.
use openshell_image_builder.Base.{ℕ, ◌%◌, Option, none, some, ok, ◌≡◌}
use openshell_image_builder.Text.{Text}
use openshell_image_builder.Host.{FileSystem}
use openshell_image_builder.Host.Laws.{IsLawful}
use openshell_image_builder.ContainerImage.{Runner}
use openshell_image_builder.VmImage.Config.{VmBuild}
use openshell_image_builder.VmImage.Build.{VmRunner}
use openshell_image_builder.VmImage.Threads.{ThreadHost}
use openshell_image_builder.Krun.Enter.{LibKrun, exited}
use openshell_image_builder.Krun.Run
use openshell_image_builder.Krun.Guest.{Machine, Configures, machine_of}
use openshell_image_builder.Krun.Served.{Reports, run-succeeded}
use openshell_image_builder.Main.{Cli, Outside, container_cli, main}
use openshell_image_builder.Main.Finished.{IsRequested, IsFinished, in_vm, by_command}
use openshell_image_builder.Main.EndToEnd.{main-IsFinished}

module _ (fs : FileSystem) (outside : Outside fs) (container_runner : Runner fs.State)
    (krun_runner : VmRunner fs.State) (host : ThreadHost fs.State) (lib : LibKrun fs.State)
    (view : ℕ → fs.State → Machine) where
  -- The runner succeeds as the `run` of krun.rs does, after some number of calls of `waitpid`.
  abbrev pub IsKrunRunner : Type 0
  IsKrunRunner =
      (build : VmBuild) (s t : fs.State)
      → krun_runner.run build s ≡ (ok tt, t)
      → (fuel : ℕ) × (Run.run outside.net host lib fuel build s ≡ some (ok tt, t))

  finished-IsRequested :
      (args : Cli) (s t : fs.State) (stdout : Option Text)
      → container_cli args.runtime ≡ none
      → IsFinished fs outside container_runner krun_runner args s stdout t
      → IsRequested fs outside container_runner krun_runner args s stdout t
  finished-IsRequested args s t stdout vm (in_vm _ requested) = requested
  finished-IsRequested args s t stdout vm (by_command chosen _) = absurd (cc (vm, chosen))

  -- What was started for a request.
  pub record IsStarted (build : VmBuild) : Type 0 where
    pub ctx : ℕ
    pub at : fs.State
    pub described : view ctx at ≡ machine_of outside.net build
    pub code : ℕ
    pub entered : (lib.start_enter ctx at).0 ≡ exited code
    pub success : code % 256 ≡ 0

  -- With the runner of krun.rs, on a lawful file system, where libkrun configures machines and
  -- `waitpid` reports children as documented: when the program exits with 0 for the VM, the request
  -- that the command line asks for was made, the machine that this request describes was started, and
  -- its workload has exited with 0.
  pub main-IsStarted :
      (L : IsLawful fs)
      → IsKrunRunner
      → Configures lib view
      → ((build : VmBuild) (s : fs.State) → Reports outside.net host lib build s)
      → (args : Cli) (s : fs.State) → container_cli args.runtime ≡ none
      → (main fs outside container_runner krun_runner args s).0.code ≡ 0
      → (r : IsRequested fs outside container_runner krun_runner args s
          (main fs outside container_runner krun_runner args s).0.stdout
          (main fs outside container_runner krun_runner args s).1)
        × IsStarted r.request
  main-IsStarted L runs C reports args s vm zero =
      let r =
        finished-IsRequested args s _ _ vm
          (main-IsFinished fs outside container_runner krun_runner L args s zero) in
      let (fuel, ran) = runs r.request r.at r.done r.ran in
      let (ctx, code, at, described, entered, success) =
        run-succeeded outside.net host lib view C r.request fuel r.at r.done
          (reports r.request r.at) ran in
      (
        r,
        record {
          ctx = ctx;
          at = at;
          described = described;
          code = code;
          entered = entered;
          success = success;
        },
      )
