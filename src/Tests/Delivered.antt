-- ===== src/Tests/Delivered.antt =====
-- The program, libkrun and the build helper together, in a VM in which every command succeeds.
use openshell_image_builder.Base.{false, List, [], ◌∷◌, refl, sym, All}
use mathlib.Core.Path.{subst}
use openshell_image_builder.Text.{Text, codes}
use openshell_image_builder.Dns.Addr.{IpAddr, v4}
use openshell_image_builder.Dns.RoundTrip.{IsSpelled}
use openshell_image_builder.Krun.Guest.{blank}
use openshell_image_builder.Shell.{argument, variable}
use openshell_image_builder.Main.Config.{IsAccepted}
use openshell_image_builder.Main.Finished.{IsRequested}
use openshell_image_builder.Guest.Hosted.{Boots, IsDelivered, main-IsDelivered}
use openshell_image_builder.Guest.Resolves.{IsResolved, main-IsResolved}
use openshell_image_builder.Tests.World
use openshell_image_builder.Tests.Guest.{working, shell-IsPosix, working-succeeds}
use openshell_image_builder.Tests.Booted.{
  State, fs, fs-IsLawful, outside, container_runner, krun_runner, threads, lib, view,
  lib-Configures, lib-Reports, krun_runner-IsKrunRunner, by_vm-none, booted, booted-code,
}
use openshell_image_builder.Tests.Program.{by_vm, vm_disk}

-- libkrun ends with the status of the helper in a VM in which every command succeeds.
working-Boots : Boots working lib view
working-Boots ctx at code entered same =
    let m = view ctx at in
    let zero =
      working-succeeds (argument m.arguments 0) (argument m.arguments 1) (argument m.arguments 2)
        (variable (codes "OPENSHELL_VM_DNS") m.environment) [] in
    ([], cc (entered, zero))

main-IsDelivered_example :
    (r : IsRequested fs outside container_runner krun_runner by_vm
      (vm_disk, blank)
      booted.0.stdout
      booted.1)
    × IsDelivered fs outside container_runner krun_runner threads lib view working r.request
main-IsDelivered_example =
    main-IsDelivered fs outside container_runner krun_runner threads lib view working fs-IsLawful
      krun_runner-IsKrunRunner lib-Configures lib-Reports (shell-IsPosix (λ a. false)) working-Boots
      by_vm (vm_disk, blank) by_vm-none booted-code

server-IsSpelled : All (IsSpelled (World.net {S = State})) (v4 8 8 8 8 ∷ [])
unfolding openshell_image_builder.Text.show openshell_image_builder.Text.join
    openshell_image_builder.Text.is_whitespace openshell_image_builder.Text.text_eq
server-IsSpelled = (
  record {
    nonempty = λ e. cc e;
    word = (
      (refl, refl),
      (
        (refl, refl),
        ((refl, refl), ((refl, refl), ((refl, refl), ((refl, refl), ((refl, refl), tt))))),
      ),
    );
    reads = refl;
  },
  tt,
)

accepted-IsSpelled :
    (addrs : List IpAddr)
    → IsAccepted fs outside by_vm.vm_dns (vm_disk, blank) addrs
    → All (IsSpelled outside.net) addrs
accepted-IsSpelled addrs a =
    subst (All (IsSpelled outside.net)) (sym (a.as_given (λ e. cc e))) server-IsSpelled

main-IsResolved_example :
    (r : IsRequested fs outside container_runner krun_runner by_vm
      (vm_disk, blank)
      booted.0.stdout
      booted.1)
    × IsResolved fs outside container_runner krun_runner threads lib view working r.request
main-IsResolved_example =
    main-IsResolved fs outside container_runner krun_runner threads lib view working fs-IsLawful
      krun_runner-IsKrunRunner lib-Configures lib-Reports (shell-IsPosix (λ a. false)) working-Boots
      by_vm (vm_disk, blank) accepted-IsSpelled by_vm-none booted-code
