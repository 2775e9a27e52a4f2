-- ===== src/Guest/Resolves.antt =====
-- The nameservers inside the VM: from the command line to the resolv.conf that the VM reads.
use openshell_image_builder.Base.{ℕ, none, List, [], ◌∷◌, ◌++◌, map, All, ◌≡◌, refl, ◌≢◌}
use openshell_image_builder.Text
use openshell_image_builder.Text.{Text, codes}
use openshell_image_builder.Dns
use openshell_image_builder.Dns.{Net, parse_resolv_conf}
use openshell_image_builder.Dns.Addr.{IpAddr}
use openshell_image_builder.Dns.Usable.{AllReachable}
use openshell_image_builder.Dns.RoundTrip.{IsSpelled, guest_resolv_conf, parse_resolv_conf-guest}
use openshell_image_builder.Host.{FileSystem}
use openshell_image_builder.Host.Laws.{IsLawful}
use openshell_image_builder.ContainerImage.{Runner}
use openshell_image_builder.VmImage.Config.{VmBuild}
use openshell_image_builder.VmImage.Build.{VmRunner}
use openshell_image_builder.VmImage.Threads.{ThreadHost}
use openshell_image_builder.Krun.Enter.{LibKrun}
use openshell_image_builder.Krun.Guest.{Machine, Configures}
use openshell_image_builder.Krun.Served.{Reports}
use openshell_image_builder.Main.{Cli, Outside, container_cli, main}
use openshell_image_builder.Main.Config.{IsAccepted}
use openshell_image_builder.Main.Finished.{IsRequested}
use openshell_image_builder.Main.Machine.{IsKrunRunner}
use openshell_image_builder.Shell.{Action, simple, redirected, Completed, Shell}
use openshell_image_builder.Shell.Steps.{Step, ran, told, Performed, performed}
use openshell_image_builder.Guest.{words, shares, mem_total, storage}
use openshell_image_builder.Guest.Ends.{IsPosix, IsComplete}
use openshell_image_builder.Guest.Hosted.{Boots, IsDelivered, main-IsDelivered}

module _ {G : Type 0} (sh : Shell G) where
  -- A command that was performed with success.
  pub record Succeeded (a : Action) : Type 0 where
    pub at : G
    pub left : G
    pub completed : Completed
    pub performed : sh.perform a at ≡ (completed, left)
    pub success : completed.status ≡ 0

  Performed-Succeeded :
      (xs : List Step) (a : Action) (ys : List Step) {s t : G}
      → Performed sh (xs ++ ran a ∷ ys) s t
      → Succeeded a
  Performed-Succeeded [] a ys {s} (performed {t = t} c e f p) = record {
    at = s;
    left = t;
    completed = c;
    performed = e;
    success = f;
  }
  Performed-Succeeded (x ∷ xs) a ys (performed c e f p) = Performed-Succeeded xs a ys p

  -- What the script does for the name resolution, when it is given some text for it.
  abbrev write_resolv_conf : Text → Action
  write_resolv_conf text = redirected (codes "/run/resolv.conf") text

  abbrev bind_resolv_conf : Action
  bind_resolv_conf = simple (words "mount -o bind /run/resolv.conf /etc/resolv.conf")

  complete-resolves :
      (cfile tag output_file dns : Text) (s t : G)
      → dns ≢ []
      → IsComplete sh cfile tag output_file dns s t
      → Succeeded (write_resolv_conf (guest_resolv_conf dns)) × Succeeded bind_resolv_conf
  complete-resolves cfile tag output_file [] s t some_dns c = absurd (some_dns refl)
  complete-resolves cfile tag output_file (d ∷ dns) s t some_dns c =
      let front =
        map ran shares ++ told mem_total c.outputs.mem ∷ map ran (storage c.outputs.size) in
      let write = write_resolv_conf (guest_resolv_conf (d ∷ dns)) in
      (
        Performed-Succeeded front write _ c.performed,
        Performed-Succeeded (front ++ ran write ∷ []) bind_resolv_conf _ c.performed,
      )

append-ne_nil : (s t : Text) → s ≢ [] → (s ++ t) ≢ []
append-ne_nil [] t h _ = h refl
append-ne_nil (c ∷ s) t h e = cc e

join-ne_nil :
    {S : Type 0} (net : Net S) (addrs : List IpAddr)
    → addrs ≢ []
    → All (IsSpelled net) addrs
    → Dns.join net addrs ≢ []
unfolding Dns.join Text.join
join-ne_nil net [] some_addr h = absurd (some_addr refl)
join-ne_nil net (x ∷ []) some_addr h = h.0.nonempty
join-ne_nil net (x ∷ y ∷ addrs) some_addr h = append-ne_nil (net.show_addr x) _ h.0.nonempty

module _ (fs : FileSystem) (outside : Outside fs) (container_runner : Runner fs.State)
    (krun_runner : VmRunner fs.State) (host : ThreadHost fs.State) (lib : LibKrun fs.State)
    (view : ℕ → fs.State → Machine) {G : Type 0} (sh : Shell G) where
  -- The nameservers of a request are those of the resolv.conf in the VM.
  pub record IsResolved (build : VmBuild) : Type 0 where
    pub text : Text
    pub written : Succeeded sh (write_resolv_conf sh text)
    pub bound : Succeeded sh (bind_resolv_conf sh)
    pub reads : parse_resolv_conf outside.net text ≡ build.nameservers
    pub reachable : AllReachable build.nameservers

  delivered-IsResolved :
      (args : Cli) (s : fs.State) (build : VmBuild)
      → ((addrs : List IpAddr)
          → IsAccepted fs outside args.vm_dns s addrs
          → All (IsSpelled outside.net) addrs)
      → IsAccepted fs outside args.vm_dns s build.nameservers
      → IsDelivered fs outside container_runner krun_runner host lib view sh build
      → IsResolved build
  delivered-IsResolved args s build spelled accepted d =
      let words = spelled build.nameservers accepted in
      let (written, bound) =
        complete-resolves sh (codes "/build/context/Containerfile") build.tag build.output_filename
          (Dns.join outside.net build.nameservers) d.booted d.left
          (join-ne_nil outside.net build.nameservers accepted.some_server words) d.complete in
      record {
        text = guest_resolv_conf (Dns.join outside.net build.nameservers);
        written = written;
        bound = bound;
        reads = parse_resolv_conf-guest outside.net build.nameservers words;
        reachable = accepted.reachable;
      }

  -- Under the hypotheses of `main-IsDelivered`, and where std writes the accepted nameservers as words
  -- that it reads back: when the program exits with 0 for the VM, a resolv.conf has been written in the
  -- VM and mounted over /etc/resolv.conf, with success, and the reader of dns.rs finds in it the
  -- nameservers of the request, in their order, which the VM can all reach.
  pub main-IsResolved :
      (L : IsLawful fs)
      → IsKrunRunner fs outside container_runner krun_runner host lib view
      → Configures lib view
      → ((build : VmBuild) (s : fs.State) → Reports outside.net host lib build s)
      → IsPosix sh
      → Boots sh lib view
      → (args : Cli) (s : fs.State)
      → ((addrs : List IpAddr)
          → IsAccepted fs outside args.vm_dns s addrs
          → All (IsSpelled outside.net) addrs)
      → container_cli args.runtime ≡ none
      → (main fs outside container_runner krun_runner args s).0.code ≡ 0
      → (r : IsRequested fs outside container_runner krun_runner args s
          (main fs outside container_runner krun_runner args s).0.stdout
          (main fs outside container_runner krun_runner args s).1)
        × IsResolved r.request
  main-IsResolved L runs C reports P boots args s spelled vm zero =
      let (r, d) =
        main-IsDelivered fs outside container_runner krun_runner host lib view sh L runs C reports P
          boots args s vm zero in
      (r, delivered-IsResolved args s r.request spelled r.nameservers d)
