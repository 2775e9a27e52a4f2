-- ===== src/Main/Success.antt =====
-- `main` with the VM, where nothing fails: from the parts of a build to the exit code.
use openshell_image_builder.Base.{true, none, some, ◌++◌, Result, ok, err, ◌≡◌, refl}
use openshell_image_builder.Base.Io.{next, retag}
use openshell_image_builder.Text.{Text, codes}
use openshell_image_builder.FilePath.{FilePath, join, parent}
use openshell_image_builder.Host.{FileSystem}
use openshell_image_builder.Containerfile.{template}
use openshell_image_builder.ContainerImage.{Runner}
use openshell_image_builder.VmImage.Error.{VmBuildError, display, display_path}
use openshell_image_builder.VmImage.Config.{VmConfig, check_rootfs, containerfile_name}
use openshell_image_builder.VmImage.Build.{
  VmRunner, containerfile_options, parent_or_current, output_name, write_containerfile,
  canonicalize, build,
}
use openshell_image_builder.VmImage.Platform.{check_supported}
use openshell_image_builder.Main
use openshell_image_builder.Main.Parsed.{IsParsed, parsed-generates}
use openshell_image_builder.Main.{
  Cli, Runtime, Outside, message, Ending, is_vm, container_cli, check_vm_flags, unwrap_or,
  vm_output_path, vm_config, copy_into, build_with, run_in, run, backend_for, select_runtime,
  select_vm, build_summary, attempt, main,
}

module _ (fs : FileSystem) (text tag : Text) (config : VmConfig) (runner : VmRunner fs.State)
    (context_dir output : FilePath) where
  -- The calls that a VM build makes, each with success up to the runner, whose result is `result`.
  pub record Reaches (result : Result VmBuildError (Unit {0})) (s : fs.State) : Type 0 where
    pub usable : check_rootfs fs config.rootfs s ≡ ok tt
    pub handle : fs.Handle
    pub after_open : fs.State
    pub opened :
        fs.open_file containerfile_options (join context_dir containerfile_name) s
        ≡ (ok handle, after_open)
    pub after_write : fs.State
    pub written : fs.write_all handle text after_open ≡ (ok tt, after_write)
    pub rootfs : FilePath
    pub rootfs_found : fs.canonicalize after_write config.rootfs ≡ ok rootfs
    pub context : FilePath
    pub context_found : fs.canonicalize after_write context_dir ≡ ok context
    pub filename : Text
    pub named : output_name output ≡ ok filename
    pub prepared : fs.State
    pub created :
        fs.create_dir_all (parent_or_current (parent output)) after_write ≡ (ok tt, prepared)
    pub output_dir : FilePath
    pub output_found : fs.canonicalize prepared (parent_or_current (parent output)) ≡ ok output_dir
    pub done : fs.State
    pub ran :
        runner.run
          (record {
            rootfs = rootfs;
            context = context;
            output_dir = output_dir;
            output_filename = filename;
            tag = tag;
            cpus = config.cpus;
            memory_mib = config.memory_mib;
            nameservers = config.nameservers;
          })
          prepared
        ≡ (result, done)

  build-result :
      (result : Result VmBuildError (Unit {0})) (s : fs.State) (n : Reaches result s)
      → build fs text tag config runner context_dir output s ≡ (result, n.done)
  unfolding build write_containerfile canonicalize next retag
  build-result result s n = rw (
    n.usable, n.opened, n.written, n.rootfs_found, n.context_found, n.named, n.created,
    n.output_found, n.ran,
  )

no_cli-is_vm : (r : Runtime) → container_cli r ≡ none → is_vm r ≡ true
unfolding container_cli
no_cli-is_vm Main.vm h = refl
no_cli-is_vm Main.podman h = absurd (cc h)
no_cli-is_vm Main.docker h = absurd (cc h)
no_cli-is_vm Main.macos_container h = absurd (cc h)

vm-flags : (args : Cli) → container_cli args.runtime ≡ none → check_vm_flags args ≡ ok tt
unfolding check_vm_flags
vm-flags args h = rw (no_cli-is_vm args.runtime h)

-- The path of the tarball.
abbrev pub tarball : Cli → FilePath
tarball args = unwrap_or (vm_output_path args.tag) args.vm_output

module _ (fs : FileSystem) (outside : Outside fs) where
  -- What comes before the build for the VM, each part with success: the flags, the platform, the
  -- configuration, the check of its rootfs, the context directory, and the copy if it is asked for.
  pub record IsPrepared (args : Cli) (s before : fs.State) : Type 0 where
    pub parsed : IsParsed args
    pub vm : container_cli args.runtime ≡ none
    pub supported : check_supported outside.platform ≡ ok tt
    pub config : VmConfig
    pub configured : fs.State
    pub made :
        vm_config fs outside args.vm_rootfs args.vm_cpus args.vm_memory args.vm_dns s
        ≡ (ok config, configured)
    pub usable : check_rootfs fs config.rootfs configured ≡ ok tt
    pub dir : outside.temp.TempDir
    pub created : fs.State
    pub dir_made :
        outside.temp.new_dir (codes "openshell-build-image") configured ≡ (ok dir, created)
    pub copied :
        copy_into fs outside args.copy_containerfile
          (outside.temp.dir_path dir)
          (template args.from args.copy_containerfile)
          created
        ≡ (ok tt, before)

  -- The build of the generated Containerfile reaches the runner.
  abbrev pub Builds :
      (krun_runner : VmRunner fs.State) (args : Cli) (s before : fs.State)
      → IsPrepared args s before
      → Result VmBuildError (Unit {0})
      → Type 0
  Builds krun_runner args s before p result =
      Reaches fs (template args.from args.copy_containerfile) args.tag p.config krun_runner
        (outside.temp.dir_path p.dir) (tarball args) result before

  module _ (container_runner : Runner fs.State) (krun_runner : VmRunner fs.State) (args : Cli)
      (s before : fs.State) (p : IsPrepared args s before) where
    -- What the program leaves when the runner returns a result.
    abbrev told : Result VmBuildError (Unit {0}) → Ending fs outside
    told (ok _) = record {
      code = 0;
      stdout = some (codes "Wrote " ++ display_path (tarball args));
      stderr = none;
    }
    told (err e) = record { code = 1; stdout = none; stderr = some (codes "Error: " ++ display e) }

    -- For a command line that clap has accepted, where the VM is asked for and what comes before the
    -- build succeeds: when the build of the generated Containerfile reaches the runner, the program ends
    -- with what the runner returns: with 0 and the path of the tarball on success, and else with 1 and the
    -- text of the error. In both cases the context directory is dropped.
    pub main-told :
        (result : Result VmBuildError (Unit {0})) (n : Builds krun_runner args s before p result)
        → main fs outside container_runner krun_runner args s
          ≡ (told result, outside.temp.drop_dir p.dir n.done)
    unfolding main attempt select_runtime select_vm run run_in build_with backend_for build_summary
        message next retag
    main-told (ok _) n =
        let generated = parsed-generates args p.parsed in
        let built =
          build-result fs (template args.from args.copy_containerfile) args.tag p.config krun_runner
            (outside.temp.dir_path p.dir) (tarball args) (ok tt) before n in
        rw (
          vm-flags args p.vm,
          p.vm,
          p.supported,
          p.made,
          p.usable,
          p.dir_made,
          generated,
          p.copied,
          built,
        )
    main-told (err e) n =
        let generated = parsed-generates args p.parsed in
        let built =
          build-result fs (template args.from args.copy_containerfile) args.tag p.config krun_runner
            (outside.temp.dir_path p.dir) (tarball args) (err e) before n in
        rw (
          vm-flags args p.vm,
          p.vm,
          p.supported,
          p.made,
          p.usable,
          p.dir_made,
          generated,
          p.copied,
          built,
        )
