-- ===== src/Tests/Whole.antt =====
-- The whole program at concrete command lines, with a VM and with a CLI.
use openshell_image_builder.Base.{
  ℕ, ◌<◌, ◌≤◌, ◌^◌, true, false, none, some, [], ◌∷◌, Option, ok, ◌≡◌, refl, arith,
}
use openshell_image_builder.Base.Int.{pos}
use openshell_image_builder.Text.{Text, codes}
use openshell_image_builder.FilePath.{FilePath, parent}
use openshell_image_builder.Host.Memory.{dir, file, Disk, put}
use openshell_image_builder.Containerfile.{template, generate}
use openshell_image_builder.ContainerImage
use openshell_image_builder.ContainerImage.{ExitStatus}
use openshell_image_builder.ContainerImage.Outcome.{IsRun}
use openshell_image_builder.VmImage.Build.{parent_or_current, output_name}
use openshell_image_builder.Main
use openshell_image_builder.Main.{Cli, vm_output_path, container_cli, check_vm_flags, main}
use openshell_image_builder.Main.Finished.{IsFinished}
use openshell_image_builder.Main.EndToEnd.{main-IsFinished}
use openshell_image_builder.Main.Parsed.{IsParsed, main-succeeds}
use openshell_image_builder.Main.OutputName.{vm_output_path-named}
use openshell_image_builder.Tests.World.{
  fs, fs-IsLawful, outside, temp, context, container_runner, krun_runner, empty_disk,
}
use openshell_image_builder.Tests.Program.{by_vm, vm_disk}

abbrev vm_run : Main.Ending fs outside × Disk
vm_run = main fs outside container_runner krun_runner by_vm vm_disk

vm_run-code : vm_run.0.code ≡ 0
unfolding openshell_image_builder.Main.vm_nameservers openshell_image_builder.Main.vm_config
    openshell_image_builder.Main.select_runtime openshell_image_builder.Main.select_vm
    openshell_image_builder.Main.vm_output_path openshell_image_builder.Main.safe_char
    openshell_image_builder.Main.container_cli openshell_image_builder.Main.check_vm_flags
    openshell_image_builder.Main.run openshell_image_builder.Main.run_in
    openshell_image_builder.Main.build_with openshell_image_builder.Main.main
    openshell_image_builder.Main.attempt openshell_image_builder.Main.backend_for
    openshell_image_builder.Text.is_ascii_alphanumeric openshell_image_builder.Text.is_control
    openshell_image_builder.Dns.Addr.is_reachable_from_vm
    openshell_image_builder.Containerfile.generate
    openshell_image_builder.Containerfile.parse_image_reference
    openshell_image_builder.Containerfile.is_forbidden
    openshell_image_builder.VmImage.Platform.check_supported
    openshell_image_builder.Text.is_whitespace openshell_image_builder.VmImage.Config.check_rootfs
    openshell_image_builder.VmImage.Config.check_mode
    openshell_image_builder.VmImage.Config.helper_of openshell_image_builder.Base.Io.next
    openshell_image_builder.Base.Io.retag openshell_image_builder.VmImage.Build.build
    openshell_image_builder.VmImage.Build.write_containerfile
    openshell_image_builder.VmImage.Build.canonicalize
    openshell_image_builder.VmImage.Build.output_name openshell_image_builder.FilePath.file_name
    openshell_image_builder.FilePath.parent
vm_run-code = refl

main-IsFinished_example :
    IsFinished fs outside container_runner krun_runner by_vm vm_disk vm_run.0.stdout vm_run.1
main-IsFinished_example =
    main-IsFinished fs outside container_runner krun_runner fs-IsLawful by_vm vm_disk vm_run-code

by_vm-IsParsed : IsParsed by_vm
unfolding openshell_image_builder.Containerfile.parse_image_reference
    openshell_image_builder.Containerfile.is_forbidden openshell_image_builder.Text.is_whitespace
    openshell_image_builder.Text.is_control
by_vm-IsParsed = record {
  given = codes "fedora:42";
  from = refl;
  cpus = λ n e. ground (arith, e);
  memory = λ n e. absurd (cc e);
}

abbrev plain : Cli
plain = record {
  tag = codes "t";
  runtime = Main.podman;
  from = codes "fedora:42";
  verbose = 0;
  copy_containerfile = false;
  vm_rootfs = none;
  vm_output = none;
  vm_cpus = none;
  vm_memory = none;
  vm_dns = [];
}

abbrev success : ExitStatus
success = record { success = true; code = some (pos 0) }

abbrev plain_text : Text
plain_text = template (codes "fedora:42") false

plain-IsRun :
    IsRun temp plain_text
      (codes "t")
      ContainerImage.podman
      container_runner
      context
      (put context dir empty_disk)
      success
      (put
        (codes "/tmp/file")
        (file 0o600 plain_text)
        (put (codes "/tmp/file") (file 0o600 []) (put context dir empty_disk)))
unfolding openshell_image_builder.ContainerImage.command
plain-IsRun = record {
  file = codes "/tmp/file";
  created = put (codes "/tmp/file") (file 0o600 []) (put context dir empty_disk);
  written =
      put (codes "/tmp/file") (file 0o600 plain_text)
        (put (codes "/tmp/file") (file 0o600 []) (put context dir empty_disk));
  new_file = refl;
  write_all = refl;
  invoked = ContainerImage.command ContainerImage.podman (codes "/tmp/file") (codes "t") context;
  program = refl;
  args = refl;
  ran = refl;
}

plain-flags : check_vm_flags plain ≡ ok tt
unfolding openshell_image_builder.Main.check_vm_flags openshell_image_builder.Main.given
plain-flags = refl

plain-cli : container_cli plain.runtime ≡ some ContainerImage.podman
unfolding openshell_image_builder.Main.container_cli
plain-cli = refl

plain-found : outside.which empty_disk (ContainerImage.binary ContainerImage.podman) ≡ true
unfolding openshell_image_builder.ContainerImage.binary openshell_image_builder.Text.text_eq
plain-found = refl

plain-IsParsed : IsParsed plain
unfolding openshell_image_builder.Containerfile.parse_image_reference
    openshell_image_builder.Containerfile.is_forbidden openshell_image_builder.Text.is_whitespace
    openshell_image_builder.Text.is_control
plain-IsParsed = record {
  given = codes "fedora:42";
  from = refl;
  cpus = λ n e. absurd (cc e);
  memory = λ n e. absurd (cc e);
}

main-succeeds_example : main fs outside container_runner krun_runner plain empty_disk ≡ (
  record { code = 0; stdout = none; stderr = none },
  temp.drop_dir context (
      temp.drop_file plain-IsRun.file (
        put
          (codes "/tmp/file")
          (file 0o600 plain_text)
          (put (codes "/tmp/file") (file 0o600 []) (put context dir empty_disk)))),
)
main-succeeds_example =
    main-succeeds fs outside container_runner krun_runner plain ContainerImage.podman context
      success empty_disk (put context dir empty_disk) (put context dir empty_disk)
      (put (codes "/tmp/file") (file 0o600 plain_text)
        (put (codes "/tmp/file") (file 0o600 []) (put context dir empty_disk)))
      plain-IsParsed plain-flags plain-cli plain-found refl refl plain-IsRun refl

-- A tag that spells the parent directory.
vm_output_path-named_instance :
    (output_name (vm_output_path (codes "../..")) ≡ ok (vm_output_path (codes "../..")))
    × (parent_or_current (parent (vm_output_path (codes "../.."))) ≡ codes ".")
vm_output_path-named_instance = vm_output_path-named (codes "../..")
