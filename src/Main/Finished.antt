-- ===== src/Main/Finished.antt =====
-- What a run of `main` has done when it exits with 0: the one request or command that was run, at the
-- states that the run has passed through.
use openshell_image_builder.Base.{true, false, Option, none, some, ◌++◌, ok, ◌≡◌, arith}
use openshell_image_builder.Text.{Text, codes, text_eq}
use openshell_image_builder.Text.Laws.{Lacks, text_eq-cancel}
use openshell_image_builder.FilePath.{FilePath, join, parent}
use openshell_image_builder.FilePath.Laws.{join-base}
use openshell_image_builder.Host.{FileSystem}
use openshell_image_builder.Host.Temp.{Temp}
use openshell_image_builder.Containerfile.{generate}
use openshell_image_builder.ContainerImage.{ContainerCli, binary, ExitStatus, Runner}
use openshell_image_builder.ContainerImage.Outcome.{IsRun}
use openshell_image_builder.VmImage.Error.{display_path}
use openshell_image_builder.VmImage.Config.{
  VmBuild, check_rootfs, default_cpus, default_memory_mib, containerfile_name,
}
use openshell_image_builder.VmImage.Build.{
  VmRunner, parent_or_current, output_name, write_containerfile,
}
use openshell_image_builder.VmRootfs.{ensure_extracted}
use openshell_image_builder.Main.{Cli, Outside, container_cli, unwrap_or, vm_output_path, copy_into}
use openshell_image_builder.Main.Config.{IsAccepted}

containerfile-Lacks : Lacks b'/' containerfile_name
containerfile-Lacks = omega arith

build_containerfile-Lacks : Lacks b'/' (codes "build-containerfile")
build_containerfile-Lacks = omega arith

-- The file that the copy was written to is not the Containerfile.
pub copy-differs :
    (dir : FilePath)
    → text_eq (join dir containerfile_name) (join dir (codes "build-containerfile")) ≡ false
unfolding text_eq
copy-differs dir = rw (
  join-base dir containerfile_name containerfile-Lacks,
  join-base dir (codes "build-containerfile") build_containerfile-Lacks,
  text_eq-cancel,
)

-- The output file of a VM build.
abbrev pub output_of : Cli → FilePath
output_of args = unwrap_or (vm_output_path args.tag) args.vm_output

module _ (fs : FileSystem) (outside : Outside fs) (container_runner : Runner fs.State)
    (krun_runner : VmRunner fs.State) where
  abbrev temp : Temp fs.State
  temp = outside.temp

  -- One request for a VM was made and has succeeded. The states are those of this run, in their order:
  -- `s`, then `selected` behind the selection, `created` with the context directory, `before` with the
  -- copy in it, `prepared` with the Containerfile, `at` with the directory of the output, `done` behind
  -- the VM, and `t`.
  pub record IsRequested (args : Cli) (s : fs.State) (stdout : Option Text) (t : fs.State)
      : Type 0 where
    pub text : Text
    pub generated : generate args.from args.copy_containerfile ≡ ok text
    pub rootfs : FilePath
    pub selected : fs.State
    pub given : (path : FilePath) → args.vm_rootfs ≡ some path → (rootfs ≡ path) × (selected ≡ s)
    pub embedded :
        args.vm_rootfs ≡ none
        → ensure_extracted fs outside.net outside.unpacker outside.archive outside.digest s
          ≡ (ok rootfs, selected)
    pub selectable : check_rootfs fs rootfs selected ≡ ok tt
    pub dir : temp.TempDir
    pub created : fs.State
    pub new_dir : temp.new_dir (codes "openshell-build-image") selected ≡ (ok dir, created)
    pub before : fs.State
    pub copy_made :
        copy_into fs outside args.copy_containerfile (temp.dir_path dir) text created
        ≡ (ok tt, before)
    pub usable : check_rootfs fs rootfs before ≡ ok tt
    pub prepared : fs.State
    pub wrote : write_containerfile fs (temp.dir_path dir) text before ≡ (ok tt, prepared)
    pub request : VmBuild
    pub context : fs.canonicalize prepared (temp.dir_path dir) ≡ ok request.context
    pub resolved : fs.canonicalize prepared rootfs ≡ ok request.rootfs
    pub at : fs.State
    pub parented :
        fs.create_dir_all (parent_or_current (parent (output_of args))) prepared ≡ (ok tt, at)
    pub output_dir :
        fs.canonicalize at (parent_or_current (parent (output_of args))) ≡ ok request.output_dir
    pub staged : (fs.stat at (join (temp.dir_path dir) containerfile_name)).contents ≡ ok text
    pub copied :
        args.copy_containerfile ≡ true
        → (fs.stat at (join (temp.dir_path dir) (codes "build-containerfile"))).contents ≡ ok text
    pub done : fs.State
    pub ran : krun_runner.run request at ≡ (ok tt, done)
    pub dropped : t ≡ temp.drop_dir dir done
    pub nameservers : IsAccepted fs outside args.vm_dns s request.nameservers
    pub cpus : request.cpus ≡ unwrap_or default_cpus args.vm_cpus
    pub memory_mib : request.memory_mib ≡ unwrap_or default_memory_mib args.vm_memory
    pub tagged : request.tag ≡ args.tag
    pub filename : output_name (output_of args) ≡ ok request.output_filename
    pub told : stdout ≡ some (codes "Wrote " ++ display_path (output_of args))

  -- One command of a container CLI was run and has succeeded. The states are those of this run: `s`,
  -- then `created` with the context directory, `before` with the copy in it, those of `ran`, `done`
  -- behind the CLI, and `t`.
  pub record IsCommanded (c : ContainerCli) (args : Cli) (s : fs.State) (stdout : Option Text)
      (t : fs.State) : Type 0 where
    pub on_path : outside.which s (binary c) ≡ true
    pub text : Text
    pub generated : generate args.from args.copy_containerfile ≡ ok text
    pub dir : temp.TempDir
    pub created : fs.State
    pub new_dir : temp.new_dir (codes "openshell-build-image") s ≡ (ok dir, created)
    pub before : fs.State
    pub copy_made :
        copy_into fs outside args.copy_containerfile (temp.dir_path dir) text created
        ≡ (ok tt, before)
    pub copied :
        args.copy_containerfile ≡ true
        → (fs.stat before (join (temp.dir_path dir) (codes "build-containerfile"))).contents
          ≡ ok text
    pub status : ExitStatus
    pub done : fs.State
    pub ran : IsRun temp text args.tag c container_runner (temp.dir_path dir) before status done
    pub success : status.success ≡ true
    pub dropped : t ≡ temp.drop_dir dir (temp.drop_file ran.file done)
    pub told : stdout ≡ none

  pub data IsFinished (args : Cli) (s : fs.State) (stdout : Option Text) (t : fs.State)
      : Type 0 where
    in_vm :
        container_cli args.runtime ≡ none → IsRequested args s stdout t → IsFinished args s stdout t
    by_command :
        {c : ContainerCli}
        → container_cli args.runtime ≡ some c
        → IsCommanded c args s stdout t
        → IsFinished args s stdout t
