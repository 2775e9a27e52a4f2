-- ===== src/Main/Config.antt =====
-- `vm_config` and `vm_nameservers`: what the VM is configured with.
use mathlib.Core.Path.{subst}
use openshell_image_builder.Base.{
  ℕ, Bool, true, not, Option, none, some, List, [], ◌∷◌, any, find, Result, ok, err, ◌≡◌, refl, sym,
  ◌≢◌, ◌∙◌, inl, inr, arith, Bool-cases, Option-cases,
}
use openshell_image_builder.Base.Io.{next, next-cases, result_eq, state_eq, ok_injective}
use openshell_image_builder.Text.{Text}
use openshell_image_builder.FilePath.{FilePath}
use openshell_image_builder.Host.{FileSystem}
use openshell_image_builder.Dns.{default_nameservers}
use openshell_image_builder.Dns.Addr.{IpAddr, is_reachable_from_vm}
use openshell_image_builder.Dns.Usable.{AllReachable, default_nameservers-IsUsable}
use openshell_image_builder.VmImage.Config.{VmConfig, default_cpus, default_memory_mib}
use openshell_image_builder.VmRootfs.{ensure_extracted}
use openshell_image_builder.Main.{
  unwrap_or, Outside, unreachable_message, vm_nameservers, vm_config,
}

abbrev unreached : IpAddr → Bool
unreached addr = not (is_reachable_from_vm addr)

find-none : (xs : List IpAddr) → find unreached xs ≡ none → AllReachable xs
find-none [] h = tt
find-none (x ∷ xs) h = (ground arith, find-none xs (ground arith))

find-some :
    (xs : List IpAddr) → any unreached xs ≡ true → (x : IpAddr) × (find unreached xs ≡ some x)
find-some [] h = absurd (cc h)
find-some (x ∷ xs) h = elim (Bool-cases (unreached x)) [
  | inl found ↦ (x, rw found)
  | inr other ↦ let (y, later) = find-some xs (ground (arith, h, other)) in (y, rw (other, later))
]

module _ (fs : FileSystem) (outside : Outside fs) where
  -- The nameservers that are accepted.
  pub record IsAccepted (dns : List IpAddr) (s : fs.State) (nameservers : List IpAddr)
      : Type 0 where
    pub some_server : nameservers ≢ []
    pub reachable : AllReachable nameservers
    pub default : dns ≡ [] → nameservers ≡ default_nameservers fs outside.net s
    pub as_given : dns ≢ [] → nameservers ≡ dns

  -- The nameservers are those of the command line if there are any, all of them and in their order,
  -- and else those of the host; in both cases there is one at least, and the VM can reach each.
  pub vm_nameservers-IsAccepted :
      (dns nameservers : List IpAddr) (s : fs.State)
      → vm_nameservers fs outside dns s ≡ ok nameservers
      → IsAccepted dns s nameservers
  unfolding vm_nameservers
  vm_nameservers-IsAccepted [] nameservers s h =
      let same = ok_injective h in
      let (some_server, usable) = default_nameservers-IsUsable fs outside.net s in
      record {
        some_server = rw (← same) some_server;
        reachable = rw (← same) usable.reachable;
        default = λ _. sym same;
        as_given = λ ne. absurd (ne refl);
      }
  vm_nameservers-IsAccepted (x ∷ dns) nameservers s h =
      elim (Option-cases (find unreached (x ∷ dns))) [
        | inr (y, found) ↦ absurd (cc (rw found at h))
        | inl none_found ↦
            let same : x ∷ dns ≡ nameservers = ok_injective (rw none_found at h) in
            record {
              some_server = rw (← same) (λ e. cc e);
              reachable = rw (← same) (find-none (x ∷ dns) none_found);
              default = λ e. absurd (cc e);
              as_given = λ _. sym same;
            }
      ]

  nameservers-refused :
      (dns : List IpAddr) (s : fs.State)
      → any unreached dns ≡ true
      → (addr : IpAddr) × (find unreached dns ≡ some addr)
        × (vm_nameservers fs outside dns s ≡ err (unreachable_message fs outside addr))
  unfolding vm_nameservers
  nameservers-refused [] s h = absurd (cc h)
  nameservers-refused (x ∷ dns) s h = let (y, found) = find-some (x ∷ dns) h in (y, found, rw found)

  -- One address that the VM cannot reach among those given, wherever it stands: the configuration
  -- fails with a message that names the first of them, and nothing has been done, so no rootfs is
  -- unpacked.
  pub vm_config-refused :
      (rootfs : Option FilePath) (cpus memory : Option ℕ) (dns : List IpAddr) (s : fs.State)
      → any (λ addr. not (is_reachable_from_vm addr)) dns ≡ true
      → (addr : IpAddr) × (find (λ a. not (is_reachable_from_vm a)) dns ≡ some addr)
        × (vm_config fs outside rootfs cpus memory dns s
            ≡ (err (unreachable_message fs outside addr), s))
  unfolding vm_config next
  vm_config-refused rootfs cpus memory dns s h =
      let (y, found, failed) = nameservers-refused dns s h in (y, found, rw failed)

  -- What a configuration holds, from the command line and from the host.
  pub record IsConfigured (rootfs : Option FilePath) (cpus memory : Option ℕ) (dns : List IpAddr)
      (s t : fs.State) (config : VmConfig) : Type 0 where
    pub nameservers : IsAccepted dns s config.nameservers
    pub cpus_eq : config.cpus ≡ unwrap_or default_cpus cpus
    pub memory_eq : config.memory_mib ≡ unwrap_or default_memory_mib memory
    pub given : (path : FilePath) → rootfs ≡ some path → (config.rootfs ≡ path) × (t ≡ s)
    pub embedded :
        rootfs ≡ none
        → ensure_extracted fs outside.net outside.unpacker outside.archive outside.digest s
          ≡ (ok config.rootfs, t)

  -- A configuration that is made has usable nameservers, the CPUs and the memory given or else the
  -- defaults, and the rootfs given, with nothing done, or else the one that was unpacked.
  pub vm_config-IsConfigured :
      (rootfs : Option FilePath) (cpus memory : Option ℕ) (dns : List IpAddr) (s t : fs.State)
      (config : VmConfig)
      → vm_config fs outside rootfs cpus memory dns s ≡ (ok config, t)
      → IsConfigured rootfs cpus memory dns s t config
  unfolding vm_config
  vm_config-IsConfigured rootfs cpus memory dns s t config h =
      next-cases _ _ h λ nameservers s1 resolved h1. next-cases _ _ h1 λ path s2 found made.
        let same : s ≡ s1 = state_eq resolved in
        let end : s2 ≡ t = state_eq made in
        subst (IsConfigured rootfs cpus memory dns s t) (ok_injective (result_eq made)) (record {
          nameservers = vm_nameservers-IsAccepted dns nameservers s (result_eq resolved);
          cpus_eq = refl;
          memory_eq = refl;
          given = λ p e.
              let kept : ◌≡◌ {A = Result Text FilePath × fs.State} (ok p, s1) (ok path, s2) =
                rw e at found in
              (sym (ok_injective (result_eq kept)), sym (same ∙ (state_eq kept ∙ end)));
          embedded = λ e. rw (same, ← end) (rw e at found);
        })
