-- ===== src/Conformance/VmCheck.antt =====
-- The tests of crates/vm-image-builder/src/lib.rs on `VmConfig` and its check of the rootfs.
use openshell_image_builder.Base.{ℕ, Bool, true, not, ◌&&◌, all, is_empty, ◌==◌, Result, ◌≡◌, refl}
use openshell_image_builder.Text.{codes, text_eq}
use openshell_image_builder.FilePath.{FilePath}
use openshell_image_builder.Dns.Addr.{is_reachable_from_vm}
use openshell_image_builder.VmImage.Error.{VmBuildError, display}
use openshell_image_builder.VmImage.Config.{
  VmConfig, VmBuild, default_cpus, default_memory_mib, check_rootfs, dns_env_value,
  containerfile_vm_path, containerfile_name, output_path,
}
use openshell_image_builder.Conformance.Asserts.{contains, fails, is_ok}
use openshell_image_builder.Conformance.World.{fs, tmp, bench, fake_rootfs, config_for}

abbrev vm_config_new_uses_defaults : Bool
vm_config_new_uses_defaults =
    let config = config_for (codes "/tmp/rootfs") in
    text_eq config.rootfs (codes "/tmp/rootfs")
    && config.cpus == default_cpus
    && config.memory_mib == default_memory_mib
    && not (is_empty config.nameservers)
    && all is_reachable_from_vm config.nameservers

abbrev checked : FilePath → ℕ → Result VmBuildError (Unit {0})
checked at mode = check_rootfs fs (config_for at).rootfs (bench mode)

abbrev check_rootfs_accepts_a_rootfs_with_the_helper : Bool
check_rootfs_accepts_a_rootfs_with_the_helper = is_ok (checked fake_rootfs 0o755)

abbrev check_rootfs_rejects_a_missing_directory : Bool
check_rootfs_rejects_a_missing_directory =
    fails (checked (codes "/a/really/improbable/rootfs") 0o755) (λ e.
      contains (display e) (codes "not a directory")
      && contains (display e) (codes "make-rootfs.sh"))

abbrev check_rootfs_rejects_a_directory_without_the_helper : Bool
check_rootfs_rejects_a_directory_without_the_helper =
    fails (checked tmp 0o755) (λ e. contains (display e) (codes "vm-build"))

abbrev check_rootfs_rejects_a_helper_without_the_execute_bit : Bool
check_rootfs_rejects_a_helper_without_the_execute_bit =
    fails (checked fake_rootfs 0o644) (λ e. contains (display e) (codes "not executable"))

check_tests_pass :
    (vm_config_new_uses_defaults ≡ true)
    × (check_rootfs_accepts_a_rootfs_with_the_helper ≡ true)
    × (check_rootfs_rejects_a_missing_directory ≡ true)
    × (check_rootfs_rejects_a_directory_without_the_helper ≡ true)
    × (check_rootfs_rejects_a_helper_without_the_execute_bit ≡ true)
unfolding check_rootfs display contains dns_env_value output_path text_eq is_reachable_from_vm
    openshell_image_builder.VmImage.Config.check_mode
    openshell_image_builder.VmImage.Config.helper_of openshell_image_builder.VmImage.Config.new
    openshell_image_builder.Dns.default_nameservers openshell_image_builder.Dns.host_nameservers
    openshell_image_builder.Dns.scutil_output
check_tests_pass = (refl, refl, refl, refl, refl)
