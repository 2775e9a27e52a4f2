-- ===== src/Tests/Success.antt =====
-- VM builds that reach the runner, from the command line to the exit code.
use openshell_image_builder.Base.{
  ℕ, true, false, none, some, [], ◌∷◌, ◌++◌, Result, ok, err, ◌≡◌, refl, arith,
}
use openshell_image_builder.Base.Int.{pos}
use openshell_image_builder.VmImage.Build.{VmRunner}
use openshell_image_builder.Text.{Text, codes}
use openshell_image_builder.FilePath.{FilePath}
use openshell_image_builder.Host.Memory.{dir, file, Disk, put}
use openshell_image_builder.Containerfile.{template, generate}
use openshell_image_builder.VmImage.Config.{check_rootfs}
use openshell_image_builder.VmImage.Error.{VmBuildError, failed, display_path}
use openshell_image_builder.VmImage.Platform.{check_supported}
use openshell_image_builder.Main.{container_cli, unwrap_or, vm_output_path, vm_config, main}
use openshell_image_builder.Main.Parsed.{IsParsed}
use openshell_image_builder.Main.Success.{IsPrepared, Builds, tarball, main-told}
use openshell_image_builder.Tests.World.{fs, outside, temp, context, container_runner}
use openshell_image_builder.Tests.Program.{by_vm, vm_disk, config}

abbrev text : Text
text = template (codes "fedora:42") false

abbrev in_context : FilePath
in_context = codes "/tmp/context/Containerfile"

abbrev with_context : Disk
with_context = put context dir vm_disk

abbrev opened : Disk
opened = put in_context (file 0o644 []) with_context

abbrev written : Disk
written = put in_context (file 0o644 text) opened

configured :
    vm_config fs outside by_vm.vm_rootfs by_vm.vm_cpus by_vm.vm_memory by_vm.vm_dns vm_disk
    ≡ (ok config, vm_disk)
unfolding openshell_image_builder.Main.vm_nameservers openshell_image_builder.Main.vm_config
    openshell_image_builder.Dns.Addr.is_reachable_from_vm openshell_image_builder.Base.Io.next
configured = refl

usable : check_rootfs fs config.rootfs vm_disk ≡ ok tt
unfolding openshell_image_builder.VmImage.Config.check_rootfs
    openshell_image_builder.VmImage.Config.check_mode
    openshell_image_builder.VmImage.Config.helper_of openshell_image_builder.FilePath.file_name
usable = refl

supported : check_supported outside.platform ≡ ok tt
unfolding openshell_image_builder.VmImage.Platform.check_supported
supported = refl

no_cli : container_cli by_vm.runtime ≡ none
unfolding container_cli
no_cli = refl

by_vm-IsParsed : IsParsed by_vm
unfolding openshell_image_builder.Containerfile.parse_image_reference
    openshell_image_builder.Containerfile.is_forbidden openshell_image_builder.Text.is_whitespace
    openshell_image_builder.Text.is_control
by_vm-IsParsed = record {
  given = codes "fedora:42";
  from = refl;
  cpus = λ n e. ground (arith, e);
  memory = λ n e. absurd (cc e);
}

abbrev prepared : IsPrepared fs outside by_vm vm_disk with_context
prepared = record {
  parsed = by_vm-IsParsed;
  vm = no_cli;
  supported = supported;
  config = config;
  configured = vm_disk;
  made = configured;
  usable = usable;
  dir = context;
  created = with_context;
  dir_made = refl;
  copied = refl;
}

-- A runner that returns one result.
abbrev runner : Result VmBuildError (Unit {0}) → VmRunner Disk
runner result = record { run = λ build d. (result, d); check_supported = λ d. (ok tt, d) }

builds :
    (result : Result VmBuildError (Unit {0}))
    → Builds fs outside (runner result) by_vm vm_disk with_context prepared result
unfolding openshell_image_builder.Main.vm_output_path openshell_image_builder.Main.safe_char
    openshell_image_builder.VmImage.Config.check_rootfs
    openshell_image_builder.VmImage.Config.check_mode
    openshell_image_builder.VmImage.Config.helper_of
    openshell_image_builder.VmImage.Build.output_name openshell_image_builder.Text.to_string_lossy
    openshell_image_builder.Text.is_ascii_alphanumeric openshell_image_builder.FilePath.parent
    openshell_image_builder.FilePath.file_name
builds result = record {
  usable = refl;
  handle = in_context;
  after_open = opened;
  opened = refl;
  after_write = written;
  written = refl;
  rootfs = config.rootfs;
  rootfs_found = refl;
  context = context;
  context_found = refl;
  filename = codes "me-app-1.0.tar";
  named = refl;
  prepared = _;
  created = refl;
  output_dir = codes ".";
  output_found = refl;
  done = _;
  ran = refl;
}

main-told_example : main fs outside container_runner (runner (ok tt)) by_vm vm_disk ≡ (
  record {
    code = 0;
    stdout = some (codes "Wrote " ++ display_path (tarball by_vm));
    stderr = none;
  },
  temp.drop_dir context (builds (ok tt)).done,
)
main-told_example =
    main-told fs outside container_runner (runner (ok tt)) by_vm vm_disk with_context prepared
      (ok tt) (builds (ok tt))

abbrev failure : VmBuildError
failure = failed (some (pos 125))

told_failure : main fs outside container_runner (runner (err failure)) by_vm vm_disk ≡ (
  record {
    code = 1;
    stdout = none;
    stderr = some (codes "Error: VM build failed with exit code 125");
  },
  temp.drop_dir context (builds (err failure)).done,
)
unfolding openshell_image_builder.VmImage.Error.display
    openshell_image_builder.VmImage.Error.show_int openshell_image_builder.Text.show
told_failure =
    main-told fs outside container_runner (runner (err failure)) by_vm vm_disk with_context prepared
      (err failure) (builds (err failure))
