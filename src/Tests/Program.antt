-- ===== src/Tests/Program.antt =====
-- Command lines, configurations and the selection of a backend at concrete inputs.
use openshell_image_builder.Base.{
  ℕ, Bool, true, false, not, Option, none, some, List, [], ◌∷◌, ◌++◌, any, find, Result, ok, err,
  ◌≡◌, refl, ◌≢◌, ◌↔◌, ◌⊎◌, inl, inr, arith,
}
use openshell_image_builder.Text.{Text, codes}
use openshell_image_builder.Host.Memory.{dir, file, Disk, put}
use openshell_image_builder.Dns.Addr.{IpAddr, v4, is_reachable_from_vm}
use openshell_image_builder.VmImage.Config.{VmConfig}
use openshell_image_builder.Main
use openshell_image_builder.Main.{
  Runtime, Cli, is_vm, Backend, RunError, containerfile, Selected, check_vm_flags,
  unreachable_message, vm_nameservers, vm_config, select_runtime, run, main,
}
use openshell_image_builder.Main.Flags.{HasNoVmFlags, check_vm_flags_iff}
use openshell_image_builder.Main.Config.{vm_config-refused}
use openshell_image_builder.Tests.World.{fs, outside, empty_disk}

abbrev by_podman : Cli
by_podman = record {
  tag = codes "me/app:1.0";
  runtime = Main.podman;
  from = codes "fedora:42";
  verbose = 0;
  copy_containerfile = true;
  vm_rootfs = none;
  vm_output = none;
  vm_cpus = none;
  vm_memory = none;
  vm_dns = [];
}

check_vm_flags_iff_example :
    (check_vm_flags by_podman ≡ ok tt) ↔ ((is_vm by_podman.runtime ≡ true) ⊎ HasNoVmFlags by_podman)
check_vm_flags_iff_example = check_vm_flags_iff by_podman

abbrev servers : List IpAddr
servers = v4 8 8 8 8 ∷ []

servers-ok : vm_nameservers fs outside servers empty_disk ≡ ok servers
unfolding openshell_image_builder.Main.vm_nameservers
    openshell_image_builder.Dns.Addr.is_reachable_from_vm
servers-ok = refl

abbrev bad_servers : List IpAddr
bad_servers = v4 8 8 8 8 ∷ v4 127 0 0 1 ∷ []

bad_servers-any : any (λ addr. not (is_reachable_from_vm addr)) bad_servers ≡ true
unfolding openshell_image_builder.Dns.Addr.is_reachable_from_vm
bad_servers-any = refl

vm_config-refused_example :
    (addr : IpAddr) × (find (λ a. not (is_reachable_from_vm a)) bad_servers ≡ some addr)
    × (vm_config fs outside none none none bad_servers empty_disk
        ≡ (err (unreachable_message fs outside addr), empty_disk))
vm_config-refused_example =
    vm_config-refused fs outside none none none bad_servers empty_disk bad_servers-any

abbrev pub config_run : Result Text VmConfig × Disk
config_run = vm_config fs outside (some (codes "/rootfs")) (some 4) none servers empty_disk

abbrev pub config : VmConfig
config = record { rootfs = codes "/rootfs"; cpus = 4; memory_mib = 4096; nameservers = servers }

pub config-ok : config_run.0 ≡ ok config
unfolding openshell_image_builder.Main.vm_nameservers openshell_image_builder.Main.vm_config
    openshell_image_builder.Dns.Addr.is_reachable_from_vm openshell_image_builder.Base.Io.next
config-ok = refl

abbrev pub by_vm : Cli
by_vm = record {
  tag = codes "me/app:1.0";
  runtime = Main.vm;
  from = codes "fedora:42";
  verbose = 0;
  copy_containerfile = false;
  vm_rootfs = some (codes "/rootfs");
  vm_output = none;
  vm_cpus = some 4;
  vm_memory = none;
  vm_dns = servers;
}

abbrev pub vm_disk : Disk
vm_disk =
    put (codes "/rootfs/usr/local/bin/vm-build") (file 0o755 [])
      (put (codes "/rootfs") dir empty_disk)

abbrev vm_selected : Result Text Selected × Disk
vm_selected = select_runtime fs outside by_vm vm_disk

vm_selected-ok : vm_selected.0 ≡ ok (Main.vm config (codes "me-app-1.0.tar"))
unfolding openshell_image_builder.Main.vm_nameservers openshell_image_builder.Main.vm_config
    openshell_image_builder.Main.select_runtime openshell_image_builder.Main.select_vm
    openshell_image_builder.Main.vm_output_path openshell_image_builder.Main.safe_char
    openshell_image_builder.Main.container_cli openshell_image_builder.Text.is_ascii_alphanumeric
    openshell_image_builder.Dns.Addr.is_reachable_from_vm
    openshell_image_builder.VmImage.Platform.check_supported openshell_image_builder.Text.text_eq
    openshell_image_builder.VmImage.Config.check_rootfs
    openshell_image_builder.VmImage.Config.check_mode
    openshell_image_builder.VmImage.Config.helper_of openshell_image_builder.Base.Io.next
vm_selected-ok = refl
