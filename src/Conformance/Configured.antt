-- ===== src/Conformance/Configured.antt =====
-- The tests of src/main.rs on the configuration of the VM and its nameservers.
use openshell_image_builder.Base.{
  ℕ, Bool, true, false, not, ◌&&◌, Option, none, some, List, [], ◌∷◌, ◌++◌, all, is_empty, ◌==◌,
  Result, ok, err, String, ◌≡◌, refl,
}
use openshell_image_builder.Text.{Text, codes, text_eq}
use openshell_image_builder.FilePath.{FilePath}
use openshell_image_builder.Dns.Addr.{IpAddr, is_reachable_from_vm}
use openshell_image_builder.VmImage.Config.{VmConfig, default_cpus, default_memory_mib}
use openshell_image_builder.Main
use openshell_image_builder.Main.{
  Runtime, Cli, container_cli, check_vm_flags, vm_output_path, Selected, Backend, build_summary,
  backend_for, vm_nameservers, vm_config, select_vm, select_runtime,
}
use openshell_image_builder.Conformance.Asserts.{contains, passes, fails, addrs_eq}
use openshell_image_builder.Conformance.Addresses.{ip, net}
use openshell_image_builder.Conformance.World.{fs, bench}
use openshell_image_builder.Conformance.Program.{outside}

-- `vm_config` on a host with nothing embedded.
abbrev configured : Option FilePath → Option ℕ → Option ℕ → List IpAddr → Result Text VmConfig
configured rootfs cpus memory dns = (vm_config fs outside rootfs cpus memory dns (bench 0o755)).0

abbrev vm_config_uses_defaults_when_unset : Bool
vm_config_uses_defaults_when_unset =
    passes (configured (some (codes "/tmp/rootfs")) none none []) (λ config.
      text_eq config.rootfs (codes "/tmp/rootfs")
      && config.cpus == default_cpus
      && config.memory_mib == default_memory_mib
      && not (is_empty config.nameservers))

abbrev vm_config_uses_the_given_resources : Bool
vm_config_uses_the_given_resources =
    let dns = ip "10.0.0.1" ∷ ip "10.0.0.2" ∷ [] in
    passes (configured (some (codes "/tmp/rootfs")) (some 8) (some 16384) dns)
      (λ config. config.cpus == 8 && config.memory_mib == 16384 && addrs_eq config.nameservers dns)

abbrev nameservers_for : List IpAddr → Result Text (List IpAddr)
nameservers_for dns = vm_nameservers fs outside dns (bench 0o755)

abbrev vm_nameservers_falls_back_to_the_host_when_unset : Bool
vm_nameservers_falls_back_to_the_host_when_unset =
    passes (nameservers_for []) (λ addrs. not (is_empty addrs) && all is_reachable_from_vm addrs)

abbrev vm_nameservers_keeps_what_the_user_asked_for_in_order : Bool
vm_nameservers_keeps_what_the_user_asked_for_in_order =
    let dns = ip "8.8.8.8" ∷ ip "192.168.1.254" ∷ [] in passes (nameservers_for dns) (addrs_eq dns)

abbrev vm_nameservers_rejects_an_address_the_guest_cannot_reach : Bool
vm_nameservers_rejects_an_address_the_guest_cannot_reach =
    all
      (λ addr.
        fails (nameservers_for (ip addr ∷ []))
          (λ e. contains e (codes addr) && contains e (codes "--vm-dns")))
      ("127.0.0.1" ∷ "::1" ∷ "169.254.1.1" ∷ [])

abbrev vm_config_without_a_rootfs_falls_back_to_the_embedded_one : Bool
vm_config_without_a_rootfs_falls_back_to_the_embedded_one =
    fails (configured none none none []) (λ e. contains e (codes "--vm-rootfs"))

abbrev vm_config_rejects_bad_dns_before_resolving_the_rootfs : Bool
vm_config_rejects_bad_dns_before_resolving_the_rootfs =
    fails (configured none none none (ip "127.0.0.1" ∷ [])) (λ e. contains e (codes "--vm-dns"))

config_tests_pass :
    (vm_config_uses_defaults_when_unset ≡ true)
    × (vm_config_uses_the_given_resources ≡ true)
    × (vm_nameservers_falls_back_to_the_host_when_unset ≡ true)
    × (vm_nameservers_keeps_what_the_user_asked_for_in_order ≡ true)
    × (vm_nameservers_rejects_an_address_the_guest_cannot_reach ≡ true)
    × (vm_config_without_a_rootfs_falls_back_to_the_embedded_one ≡ true)
    × (vm_config_rejects_bad_dns_before_resolving_the_rootfs ≡ true)
unfolding contains addrs_eq ip vm_nameservers vm_config is_reachable_from_vm
    openshell_image_builder.Main.unreachable_message
    openshell_image_builder.VmImage.Config.helper_of openshell_image_builder.Base.Io.next
    openshell_image_builder.Dns.default_nameservers openshell_image_builder.Dns.host_nameservers
    openshell_image_builder.Dns.scutil_output openshell_image_builder.Conformance.Addresses.shown
    openshell_image_builder.VmRootfs.ensure_extracted openshell_image_builder.VmRootfs.cache_root
    openshell_image_builder.VmRootfs.install
config_tests_pass = (refl, refl, refl, refl, refl, refl, refl)
