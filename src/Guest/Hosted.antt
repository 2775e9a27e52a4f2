-- ===== src/Guest/Hosted.antt =====
-- The build helper in the machine that the program starts: from the command line to the commands that
-- have run inside the VM.
use openshell_image_builder.Base.{ℕ, ◌%◌, none, List, [], ◌∷◌, ◌≡◌, refl, sym, ap, ◌∙◌}
use openshell_image_builder.Text.{Text, codes}
use openshell_image_builder.Dns
use openshell_image_builder.Dns.{Net}
use openshell_image_builder.Dns.Addr.{IpAddr}
use openshell_image_builder.Host.{FileSystem}
use openshell_image_builder.Host.Laws.{IsLawful}
use openshell_image_builder.ContainerImage.{Runner}
use openshell_image_builder.VmImage.Config.{VmBuild}
use openshell_image_builder.VmImage.Build.{VmRunner}
use openshell_image_builder.VmImage.Threads.{ThreadHost}
use openshell_image_builder.Krun.Args.{vm_path}
use openshell_image_builder.Krun.Enter.{LibKrun, exited}
use openshell_image_builder.Krun.Guest.{Machine, Configures, machine_of, dns_entries}
use openshell_image_builder.Krun.Served.{Reports}
use openshell_image_builder.Main.{Cli, Outside, container_cli, main}
use openshell_image_builder.Main.Finished.{IsRequested}
use openshell_image_builder.Main.Machine.{IsKrunRunner, IsStarted, main-IsStarted}
use openshell_image_builder.Shell.{Shell, argument, variable}
use openshell_image_builder.Guest.{vm_build}
use openshell_image_builder.Guest.Ends.{IsPosix, IsComplete, vm_build-IsComplete}

module _ {G : Type 0} (sh : Shell G) where
  -- The script as the program of a machine.
  abbrev pub as_program : Machine → G → ℕ × G
  as_program m =
      vm_build sh (argument m.arguments 0) (argument m.arguments 1) (argument m.arguments 2)
        (variable (codes "OPENSHELL_VM_DNS") m.environment)

  -- libkrun exits with the status of the program of the machine; when that is the build helper, it is
  -- this script, which starts in some state of the VM.
  abbrev pub Boots : {S : Type 0} → LibKrun S → (ℕ → S → Machine) → Type 0
  Boots {S} lib view =
      (ctx : ℕ) (at : S) (code : ℕ)
      → (lib.start_enter ctx at).0 ≡ exited code
      → (view ctx at).program ≡ codes "/usr/local/bin/vm-build"
      → (g : G) × (code ≡ (as_program (view ctx at) g).0)

variable-dns :
    {S : Type 0} (net : Net S) (addrs : List IpAddr)
    → variable (codes "OPENSHELL_VM_DNS") (vm_path ∷ dns_entries net addrs) ≡ Dns.join net addrs
unfolding openshell_image_builder.Text.strip_prefix Dns.join openshell_image_builder.Text.join
variable-dns net [] = refl
variable-dns net (x ∷ addrs) = refl

module _ (fs : FileSystem) (outside : Outside fs) (container_runner : Runner fs.State)
    (krun_runner : VmRunner fs.State) (host : ThreadHost fs.State) (lib : LibKrun fs.State)
    (view : ℕ → fs.State → Machine) {G : Type 0} (sh : Shell G) where
  -- The machine of a request runs the script on the Containerfile in the context share, the tag, the
  -- file name and the nameservers of the request.
  abbrev helper : VmBuild → G → ℕ × G
  helper build =
      vm_build sh (codes "/build/context/Containerfile") build.tag build.output_filename
        (Dns.join outside.net build.nameservers)

  program-helper :
      (build : VmBuild) (g : G) → as_program sh (machine_of outside.net build) g ≡ helper build g
  program-helper build g =
      ap
        (λ (dns : Text).
          vm_build sh (codes "/build/context/Containerfile") build.tag build.output_filename dns g)
        (variable-dns outside.net build.nameservers)

  -- What the script has done for a request.
  pub record IsDelivered (build : VmBuild) : Type 0 where
    pub booted : G
    pub left : G
    pub complete :
        IsComplete sh
          (codes "/build/context/Containerfile")
          build.tag
          build.output_filename
          (Dns.join outside.net build.nameservers)
          booted
          left

  started-IsDelivered :
      IsPosix sh
      → Boots sh lib view
      → (build : VmBuild) → IsStarted fs outside container_runner krun_runner host lib view build
      → IsDelivered build
  started-IsDelivered P boots build started =
      let (g, same) =
        boots started.ctx started.at started.code started.entered
          (ap (λ (m : Machine). m.program) started.described) in
      let code : started.code ≡ (helper build g).0 =
        same
        ∙ ap (λ (m : Machine). (as_program sh m g).0) started.described
        ∙ ap (λ (x : ℕ × G). x.0) (program-helper build g) in
      record {
        booted = g;
        left = _;
        complete =
            vm_build-IsComplete sh (codes "/build/context/Containerfile") build.tag
              build.output_filename (Dns.join outside.net build.nameservers) g P
              (sym (ap (λ (n : ℕ). n % 256) code) ∙ started.success);
      }

  -- On a lawful file system, with the runner of krun.rs, where libkrun configures machines and
  -- `waitpid` reports children as documented, and libkrun exits with the status of the build helper,
  -- which a POSIX shell runs: when the program exits with 0 for the VM, the request that the command
  -- line asks for was made, and inside the VM all commands of vm-build have succeeded in their order,
  -- for the Containerfile in the context share, and for the tag, the file name and the nameservers of
  -- the request.
  pub main-IsDelivered :
      (L : IsLawful fs)
      → IsKrunRunner fs outside container_runner krun_runner host lib view
      → Configures lib view
      → ((build : VmBuild) (s : fs.State) → Reports outside.net host lib build s)
      → IsPosix sh
      → Boots sh lib view
      → (args : Cli) (s : fs.State) → container_cli args.runtime ≡ none
      → (main fs outside container_runner krun_runner args s).0.code ≡ 0
      → (r : IsRequested fs outside container_runner krun_runner args s
          (main fs outside container_runner krun_runner args s).0.stdout
          (main fs outside container_runner krun_runner args s).1)
        × IsDelivered r.request
  main-IsDelivered L runs C reports P boots args s vm zero =
      let (r, started) =
        main-IsStarted fs outside container_runner krun_runner host lib view L runs C reports args s
          vm zero in
      (r, started-IsDelivered P boots r.request started)
