-- ===== src/Main/Select.antt =====
-- `select_runtime` and `select_vm`: what a backend has passed before it is used.
use mathlib.Core.Path.{subst}
use openshell_image_builder.Base.{
  Bool, true, none, some, ok, ◌≡◌, sym, ◌∙◌, inl, inr, arith, Option-cases,
}
use openshell_image_builder.Base.Io.{next-cases, map_err-eq-ok, result_eq, state_eq, ok_injective}
use openshell_image_builder.Text.{Text}
use openshell_image_builder.Host.{FileSystem}
use openshell_image_builder.ContainerImage.{ContainerCli, binary, check_in_path, not_found_message}
use openshell_image_builder.VmImage.Error.{display}
use openshell_image_builder.VmImage.Config.{VmConfig, check_rootfs}
use openshell_image_builder.VmImage.Platform.{Platform, is_supported, check_supported}
use openshell_image_builder.Main.{
  Runtime, podman, docker, macos_container, container_cli, is_vm, Cli, unwrap_or, vm_output_path,
  Selected, Outside, vm_config, select_vm, select_runtime,
}
use openshell_image_builder.Main

check_supported-ok :
    (platform : Platform) → check_supported platform ≡ ok tt → is_supported platform ≡ true
unfolding check_supported
check_supported-ok platform h = ground arith

check_in_path-ok :
    {S : Type 0} (which : S → Text → Bool) (c : ContainerCli) (s : S)
    → check_in_path which c s ≡ ok tt
    → which s (binary c) ≡ true
unfolding check_in_path
check_in_path-ok which c s h = ground arith

module _ (fs : FileSystem) (outside : Outside fs) where
  -- What holds when a backend has been selected.
  pub data IsSelected (args : Cli) (s t : fs.State) : Selected → Type 0 where
    by_cli :
        {c : ContainerCli}
        → container_cli args.runtime ≡ some c
        → outside.which s (binary c) ≡ true
        → t ≡ s
        → IsSelected args s t (Main.cli c)
    by_vm :
        {config : VmConfig}
        → container_cli args.runtime ≡ none
        → is_supported outside.platform ≡ true
        → vm_config fs outside args.vm_rootfs args.vm_cpus args.vm_memory args.vm_dns s
          ≡ (ok config, t)
        → check_rootfs fs config.rootfs t ≡ ok tt
        → IsSelected args s t (Main.vm config (unwrap_or (vm_output_path args.tag) args.vm_output))

  select_vm-IsSelected :
      (args : Cli) (s t : fs.State) (selected : Selected)
      → container_cli args.runtime ≡ none
      → is_supported outside.platform ≡ true
      → select_vm fs outside args s ≡ (ok selected, t)
      → IsSelected args s t selected
  unfolding select_vm
  select_vm-IsSelected args s t selected runtime supported h = next-cases _ _ h λ config s1 made h1.
      next-cases _ _ h1 λ _ s2 checked end.
        let same : s1 ≡ t = state_eq checked ∙ state_eq end in
        subst (IsSelected args s t) (ok_injective (result_eq end)) (
          by_vm runtime supported (rw (← same) made) (
            rw (← same)
              (map_err-eq-ok display (check_rootfs fs config.rootfs s1) (result_eq checked))))

  -- A backend is selected only when it can be used: a CLI that was asked for and is in the search
  -- path, with nothing done; or, for the VM, a host that supports it, the configuration from the
  -- command line, a rootfs that passes its check, and the output file given or derived from the tag.
  pub select_runtime-IsSelected :
      (args : Cli) (s t : fs.State) (selected : Selected)
      → select_runtime fs outside args s ≡ (ok selected, t)
      → IsSelected args s t selected
  unfolding select_runtime
  select_runtime-IsSelected args s t selected h = elim (Option-cases (container_cli args.runtime)) [
    | inl vm ↦ next-cases _ _ (rw vm at h) λ _ s1 supported rest.
        select_vm-IsSelected args s t selected vm
          (check_supported-ok outside.platform
            (map_err-eq-ok display (check_supported outside.platform) (result_eq supported)))
          (rw (state_eq supported) rest)
    | inr (c, found) ↦ next-cases _ _ (rw found at h) λ _ s1 checked end.
        subst (IsSelected args s t) (ok_injective (result_eq end)) (
          by_cli found
            (check_in_path-ok outside.which c s (
              map_err-eq-ok not_found_message (check_in_path outside.which c s)
                (result_eq checked)))
            (sym (state_eq checked ∙ state_eq end)))
  ]
