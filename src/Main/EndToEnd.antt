-- ===== src/Main/EndToEnd.antt =====
-- `main` with its backends: from the command line to the one request or command that is run.
use mathlib.Core.Path.{subst}
use openshell_image_builder.Base.{true, Option, ok, ◌≡◌, refl, sym, ◌∙◌, ap, inl, inr}
use openshell_image_builder.Base.Io.{retag-eq-ok}
use openshell_image_builder.Text.{Text, codes}
use openshell_image_builder.FilePath.{join}
use openshell_image_builder.Host.{FileSystem}
use openshell_image_builder.Host.Laws.{IsLawful}
use openshell_image_builder.Host.Temp.{Temp}
use openshell_image_builder.ContainerImage.{ContainerCli, binary, Runner}
use openshell_image_builder.ContainerImage.Outcome.{build-IsRun}
use openshell_image_builder.VmImage.Config.{VmConfig, check_rootfs}
use openshell_image_builder.VmImage.Build.{VmRunner}
use openshell_image_builder.VmImage.Handover.{build-IsHandedOver}
use openshell_image_builder.Main.{
  Cli, Selected, Outside, container_cli, unwrap_or, vm_output_path, container, vm_config, copy_into,
  build_with, backend_for, build_summary, run, Ending, main,
}
use openshell_image_builder.Main
use openshell_image_builder.Main.Config.{IsAccepted, IsConfigured, vm_config-IsConfigured}
use openshell_image_builder.Main.Select.{IsSelected, by_cli, by_vm}
use openshell_image_builder.Main.Run.{run-IsBuilt}
use openshell_image_builder.Main.Exit.{IsDone, main-IsDone}
use openshell_image_builder.Main.Finished.{
  output_of, copy-differs, IsRequested, IsCommanded, IsFinished, in_vm, by_command,
}

module _ (fs : FileSystem) (outside : Outside fs) (container_runner : Runner fs.State)
    (krun_runner : VmRunner fs.State) where
  abbrev temp : Temp fs.State
  temp = outside.temp

  module _ (L : IsLawful fs) (args : Cli) (s between t : fs.State) where
    vm-IsRequested :
        (config : VmConfig)
        → IsConfigured fs outside args.vm_rootfs args.vm_cpus args.vm_memory args.vm_dns s between
            config
        → check_rootfs fs config.rootfs between ≡ ok tt
        → run fs outside args.tag args.from args.copy_containerfile
            (Main.vm config krun_runner (output_of args))
            between
          ≡ (ok tt, t)
        → IsRequested fs outside container_runner krun_runner args s
            (build_summary (Main.vm config (output_of args)))
            t
    unfolding build_with build_summary
    vm-IsRequested config c checked ran =
        let b =
          run-IsBuilt fs outside L args.tag args.from args.copy_containerfile
            (Main.vm config krun_runner (output_of args)) between t ran in
        let h =
          build-IsHandedOver fs L b.output args.tag config krun_runner (temp.dir_path b.dir)
            (output_of args) b.before b.behind (retag-eq-ok Main.vm _ b.built) in
        record {
          text = b.output;
          generated = b.generated;
          rootfs = config.rootfs;
          selected = between;
          given = c.given;
          embedded = c.embedded;
          selectable = checked;
          dir = b.dir;
          created = b.created;
          new_dir = b.new_dir;
          before = b.before;
          copy_made = b.copy_made;
          usable = h.usable;
          prepared = h.prepared;
          wrote = h.wrote;
          request = h.request;
          context = h.context;
          resolved = h.rootfs;
          at = h.at;
          parented = h.parented;
          output_dir = h.output_dir;
          staged = h.staged;
          copied = λ asked.
              h.kept (join (temp.dir_path b.dir) (codes "build-containerfile")) b.output
                (copy-differs (temp.dir_path b.dir)) (b.copied asked);
          done = b.behind;
          ran = h.ran;
          dropped = b.dropped;
          nameservers =
              subst (IsAccepted fs outside args.vm_dns s) (sym h.nameservers) c.nameservers;
          cpus = h.cpus ∙ c.cpus_eq;
          memory_mib = h.memory_mib ∙ c.memory_eq;
          tagged = h.tagged;
          filename = h.filename;
          told = refl;
        }

    cli-IsCommanded :
        (c : ContainerCli)
        → outside.which s (binary c) ≡ true
        → between ≡ s
        → run fs outside args.tag args.from args.copy_containerfile
            (Main.cli c container_runner)
            between
          ≡ (ok tt, t)
        → IsCommanded fs outside container_runner krun_runner c args s
            (build_summary (Main.cli c))
            t
    unfolding build_with build_summary
    cli-IsCommanded c found same ran =
        let b =
          run-IsBuilt fs outside L args.tag args.from args.copy_containerfile
            (Main.cli c container_runner) between t ran in
        let (status, done, invoked, success, dropped) =
          build-IsRun temp b.output args.tag c container_runner (temp.dir_path b.dir) b.before
            b.behind (retag-eq-ok container _ b.built) in
        record {
          on_path = found;
          text = b.output;
          generated = b.generated;
          dir = b.dir;
          created = b.created;
          new_dir = rw same at b.new_dir;
          before = b.before;
          copy_made = b.copy_made;
          copied = b.copied;
          status = status;
          done = done;
          ran = invoked;
          success = success;
          dropped = b.dropped ∙ ap (temp.drop_dir b.dir) dropped;
          told = refl;
        }

    selected-IsFinished :
        (selected : Selected)
        → IsSelected fs outside args s between selected
        → run fs outside args.tag args.from args.copy_containerfile
            (backend_for container_runner krun_runner selected)
            between
          ≡ (ok tt, t)
        → IsFinished fs outside container_runner krun_runner args s (build_summary selected) t
    unfolding backend_for
    selected-IsFinished _ (by_cli {c} chosen found same) ran =
        by_command chosen (cli-IsCommanded c found same ran)
    selected-IsFinished _ (by_vm {config} chosen supported made usable) ran = in_vm chosen (
        vm-IsRequested config
          (vm_config-IsConfigured fs outside args.vm_rootfs args.vm_cpus args.vm_memory args.vm_dns
            s between config made)
          usable ran)

  done-IsFinished :
      (L : IsLawful fs) (args : Cli) (s t : fs.State) (ending : Ending fs outside)
      → IsDone fs outside container_runner krun_runner args s ending t
      → IsFinished fs outside container_runner krun_runner args s ending.stdout t
  done-IsFinished L args s t ending d =
      subst (λ (o : Option Text). IsFinished fs outside container_runner krun_runner args s o t)
        (sym d.stdout) (selected-IsFinished L args s d.between t d.selected d.selected_by d.ran)

  -- On a lawful file system, when the program exits with 0, then either a CLI was asked for, and it was
  -- run once, with success, on the Containerfile generated from the command line; or the VM was asked
  -- for, and one request was made and succeeded: a rootfs, the one given or the one embedded, has passed
  -- its check when the VM was selected and again in the build; the request is made at the state that
  -- the run's own steps have led to, where the context holds the generated Containerfile and the copy
  -- if it was asked for; it has nameservers that the VM can reach, the resources and the tag of the
  -- command line, and the file name of the path that the summary tells. A CLI is run on a context that
  -- has received the copy that was asked for. In both cases the context is dropped afterwards.
  pub main-IsFinished :
      (L : IsLawful fs) (args : Cli) (s : fs.State)
      → (main fs outside container_runner krun_runner args s).0.code ≡ 0
      → IsFinished fs outside container_runner krun_runner args s
          (main fs outside container_runner krun_runner args s).0.stdout
          (main fs outside container_runner krun_runner args s).1
  main-IsFinished L args s zero =
      elim (main-IsDone fs outside container_runner krun_runner args s) [
        | inl (_, done) ↦ done-IsFinished L args s _ _ done
        | inr (one, _, _) ↦ absurd (cc (one, zero))
      ]
