-- ===== src/Main/Parsed.antt =====
-- What clap has checked of a command line before `main` runs (the attributes of `Cli` in src/main.rs),
-- and what follows for the Containerfile and for a build by a CLI.
use openshell_image_builder.Base.{ℕ, ◌^◌, ◌<◌, ◌≤◌, true, none, some, ok, ◌≡◌, refl, arith}
use openshell_image_builder.Base.Io.{next, retag}
use openshell_image_builder.Text.{Text, codes}
use openshell_image_builder.Host.{FileSystem}
use openshell_image_builder.Containerfile.{parse_image_reference, template, generate}
use openshell_image_builder.ContainerImage.{ContainerCli, binary, check_in_path, ExitStatus, Runner}
use openshell_image_builder.ContainerImage.Outcome.{IsRun, build-succeeds}
use openshell_image_builder.VmImage.Build.{VmRunner}
use openshell_image_builder.Main.{
  Cli, Outside, check_vm_flags, container_cli, copy_into, build_with, run_in, run, backend_for,
  select_runtime, build_summary, attempt, main,
}

-- The value parsers: `parse_image_reference` of --from, `value_parser!(u8).range(1..)` of --vm-cpus and
-- `value_parser!(u32).range(1..)` of --vm-memory.
pub record IsParsed (args : Cli) : Type 0 where
  pub given : Text
  pub from : parse_image_reference given ≡ ok args.from
  pub cpus : (n : ℕ) → args.vm_cpus ≡ some n → (1 ≤ n) × (n < 2 ^ 8)
  pub memory : (n : ℕ) → args.vm_memory ≡ some n → (1 ≤ n) × (n < 2 ^ 32)

parse_image_reference-eq_ok :
    (s t : Text) → parse_image_reference s ≡ ok t → parse_image_reference t ≡ ok t
unfolding parse_image_reference
parse_image_reference-eq_ok s t h = let same : s ≡ t = ground (arith, h) in rw same at h

-- A reference that clap has accepted is accepted again when the Containerfile is generated.
pub parsed-generates :
    (args : Cli)
    → IsParsed args
    → generate args.from args.copy_containerfile ≡ ok (template args.from args.copy_containerfile)
unfolding generate
parsed-generates args parsed =
    rw (parse_image_reference-eq_ok parsed.given args.from parsed.from) refl

module _ (fs : FileSystem) (outside : Outside fs) where
  module _ (container_runner : Runner fs.State) (krun_runner : VmRunner fs.State) where
    -- For a command line that clap has accepted, a CLI that is in the search path and flags that go with
    -- it: when the context directory is made, the copy is written if it is asked for, and the CLI, run on
    -- the generated Containerfile, exits with success, then the program exits with 0 and prints nothing,
    -- and both temporary paths are dropped.
    pub main-succeeds :
        (args : Cli) (c : ContainerCli) (dir : outside.temp.TempDir) (status : ExitStatus)
        (s created before done : fs.State)
        → IsParsed args
        → check_vm_flags args ≡ ok tt
        → container_cli args.runtime ≡ some c
        → outside.which s (binary c) ≡ true
        → outside.temp.new_dir (codes "openshell-build-image") s ≡ (ok dir, created)
        → copy_into fs outside args.copy_containerfile
            (outside.temp.dir_path dir)
            (template args.from args.copy_containerfile)
            created
          ≡ (ok tt, before)
        → (ran : IsRun outside.temp
            (template args.from args.copy_containerfile)
            args.tag
            c
            container_runner
            (outside.temp.dir_path dir)
            before
            status
            done)
        → status.success ≡ true
        → main fs outside container_runner krun_runner args s ≡ (
          record { code = 0; stdout = none; stderr = none },
          outside.temp.drop_dir dir (outside.temp.drop_file ran.file done),
        )
    unfolding main attempt select_runtime check_in_path run run_in build_with backend_for
        build_summary next retag
    main-succeeds args c dir status s created before done parsed flags chosen found made copied ran
          success =
        let built =
          build-succeeds outside.temp (template args.from args.copy_containerfile) args.tag c
            container_runner (outside.temp.dir_path dir) before done status ran success in
        rw (flags, chosen, found, made, parsed-generates args parsed, copied, built)
