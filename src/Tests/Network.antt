-- ===== src/Tests/Network.antt =====
-- The nameservers at concrete inputs.
use openshell_image_builder.Base.{
  true, false, ℕ, not, List, [], ◌∷◌, any, keep, take, All, ◌≡◌, refl, ◌≢◌, arith,
}
use openshell_image_builder.Text.{Text, codes}
use openshell_image_builder.Dns.{
  max_nameservers, sanitize, join, parse_resolv_conf, default_nameservers,
}
use openshell_image_builder.Dns.Addr.{IpAddr, v4, v6, is_reachable_from_vm}
use openshell_image_builder.Dns.Reachable.{
  in_block, blocks, is_reachable_from_vm-blocks, mapped, is_reachable_from_vm-mapped,
}
use openshell_image_builder.Dns.Sanitize.{firsts, sanitize-eq-take}
use openshell_image_builder.Dns.Usable.{IsUsable, default_nameservers-IsUsable}
use openshell_image_builder.Dns.RoundTrip.{IsSpelled, guest_resolv_conf, parse_resolv_conf-guest}
use openshell_image_builder.Tests.World.{fs, net, empty_disk}

abbrev servers : List IpAddr
servers = v4 8 8 8 8 ∷ v4 9 9 9 9 ∷ []

abbrev many : List IpAddr
many = v4 127 0 0 1 ∷ v4 8 8 8 8 ∷ v4 8 8 8 8 ∷ v4 9 9 9 9 ∷ v4 1 1 1 1 ∷ v4 1 0 0 1 ∷ []

servers-IsSpelled : All (IsSpelled (net {S = ℕ})) servers
unfolding openshell_image_builder.Text.show openshell_image_builder.Text.join
    openshell_image_builder.Text.is_whitespace openshell_image_builder.Text.text_eq
servers-IsSpelled = (
  record {
    nonempty = λ e. cc e;
    word = (
      (refl, refl),
      (
        (refl, refl),
        ((refl, refl), ((refl, refl), ((refl, refl), ((refl, refl), ((refl, refl), tt))))),
      ),
    );
    reads = refl;
  },
  (
    record {
      nonempty = λ e. cc e;
      word = (
        (refl, refl),
        (
          (refl, refl),
          ((refl, refl), ((refl, refl), ((refl, refl), ((refl, refl), ((refl, refl), tt))))),
        ),
      );
      reads = refl;
    },
    tt,
  ),
)

parse_resolv_conf-guest_example :
    parse_resolv_conf (net {S = ℕ}) (guest_resolv_conf (join (net {S = ℕ}) servers)) ≡ servers
parse_resolv_conf-guest_example = parse_resolv_conf-guest (net {S = ℕ}) servers servers-IsSpelled

sanitize-eq-take_example :
    sanitize many ≡ take max_nameservers (firsts [] (keep is_reachable_from_vm many))
sanitize-eq-take_example = sanitize-eq-take many

is_reachable_from_vm-blocks_example :
    is_reachable_from_vm (v6 0xfebf 0 0 0 0 0 0 1)
    ≡ not (any (in_block (v6 0xfebf 0 0 0 0 0 0 1)) (blocks (v6 0xfebf 0 0 0 0 0 0 1)))
is_reachable_from_vm-blocks_example =
    is_reachable_from_vm-blocks (v6 0xfebf 0 0 0 0 0 0 1) (omega arith)

default_nameservers-IsUsable_example :
    (default_nameservers fs net empty_disk ≢ []) × IsUsable (default_nameservers fs net empty_disk)
default_nameservers-IsUsable_example = default_nameservers-IsUsable fs net empty_disk

is_reachable_from_vm-mapped_example :
    (is_reachable_from_vm (mapped 127 0 0 1) ≡ true) × (is_reachable_from_vm (v4 127 0 0 1) ≡ false)
is_reachable_from_vm-mapped_example = is_reachable_from_vm-mapped 127 0 0 1 (omega arith)
