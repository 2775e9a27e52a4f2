-- ===== src/Conformance/Dns.antt =====
-- The tests of crates/vm-image-builder/src/dns.rs, those for macOS included.
use openshell_image_builder.Base.{
  Bool, true, false, not, ◌&&◌, List, [], ◌∷◌, ◌++◌, all, is_empty, length, leb, ◌==◌, String, ◌≡◌,
  refl, ◌≢◌, arith,
}
use openshell_image_builder.Text.{Text, codes, text_eq}
use openshell_image_builder.Host.{FileSystem}
use openshell_image_builder.Dns
use openshell_image_builder.Dns.{
  max_nameservers, fallback_nameserver, sanitize, parse_scutil, parse_resolv_conf,
  default_nameservers,
}
use openshell_image_builder.Dns.Addr.{IpAddr, is_reachable_from_vm, addr_eq}
use openshell_image_builder.Dns.Usable.{AllReachable, IsUsable, default_nameservers-IsUsable}
use openshell_image_builder.Conformance.Asserts.{addrs_eq}
use openshell_image_builder.Conformance.Addresses.{ip, net}

abbrev routable_addresses_are_reachable : Bool
routable_addresses_are_reachable =
    all (λ addr. is_reachable_from_vm (ip addr))
      ("192.168.1.254" ∷ "10.0.0.1" ∷ "8.8.8.8" ∷ "1.1.1.1" ∷ "fd0f:ee:b0::1"
        ∷ "2606:4700:4700::1111" ∷ [])

abbrev addresses_that_mean_something_else_in_the_guest_are_rejected : Bool
addresses_that_mean_something_else_in_the_guest_are_rejected =
    all (λ addr. not (is_reachable_from_vm (ip addr)))
      ("127.0.0.53" ∷ "127.0.0.1" ∷ "::1" ∷ "0.0.0.0" ∷ "::" ∷ "169.254.1.1" ∷ "fe80::1" ∷ "febf::1"
        ∷ "224.0.0.1" ∷ "255.255.255.255" ∷ [])

abbrev the_fallback_is_usable : Bool
the_fallback_is_usable = is_reachable_from_vm fallback_nameserver

abbrev scutil_text : Text
scutil_text =
    codes "DNS configuration\n\nresolver #1\n"
    ++ codes "  nameserver[0] : 192.168.1.254\n"
    ++ codes "  nameserver[1] : fd0f:ee:b0::1\n"
    ++ codes "  if_index : 5 (en0)\n"
    ++ codes "  flags    : Request A records, Request AAAA records\n"
    ++ codes "\nresolver #2\n"
    ++ codes "  domain   : local\n"
    ++ codes "  options  : mdns\n"
    ++ codes "  timeout  : 5\n"
    ++ codes "\nresolver #3\n"
    ++ codes "  nameserver[0] : 10.0.0.1\n"

abbrev parse_scutil_reads_every_resolver_in_order : Bool
parse_scutil_reads_every_resolver_in_order =
    addrs_eq (parse_scutil (net {S = Unit {0}}) scutil_text)
      (ip "192.168.1.254" ∷ ip "fd0f:ee:b0::1" ∷ ip "10.0.0.1" ∷ [])

abbrev parse_scutil_ignores_everything_that_is_not_a_nameserver : Bool
parse_scutil_ignores_everything_that_is_not_a_nameserver = is_empty (
    parse_scutil (net {S = Unit {0}})
      (codes "  if_index : 5 (en0)\n  reach : 0x00020002 (Reachable)\n  order : 300000\n"))

abbrev parse_scutil_handles_empty_output : Bool
parse_scutil_handles_empty_output = is_empty (parse_scutil (net {S = Unit {0}}) [])

abbrev resolv_conf_addrs : String → List IpAddr
resolv_conf_addrs text = parse_resolv_conf (net {S = Unit {0}}) (codes text)

abbrev parse_resolv_conf_reads_nameserver_lines : Bool
parse_resolv_conf_reads_nameserver_lines =
    addrs_eq
      (resolv_conf_addrs
        "# generated by something\nsearch example.com\nnameserver 192.168.1.254\nnameserver 8.8.8.8\noptions edns0\n")
      (ip "192.168.1.254" ∷ ip "8.8.8.8" ∷ [])

abbrev parse_resolv_conf_skips_comments : Bool
parse_resolv_conf_skips_comments =
    addrs_eq
      (resolv_conf_addrs "#nameserver 9.9.9.9\n;nameserver 9.9.9.10\nnameserver 8.8.8.8 # inline\n")
      (ip "8.8.8.8" ∷ [])

abbrev parse_resolv_conf_requires_a_separator_after_the_directive : Bool
parse_resolv_conf_requires_a_separator_after_the_directive =
    is_empty (resolv_conf_addrs "nameserverX 8.8.8.8\n")

abbrev parse_resolv_conf_ignores_unparseable_addresses : Bool
parse_resolv_conf_ignores_unparseable_addresses =
    addrs_eq (resolv_conf_addrs "nameserver not-an-address\nnameserver 8.8.8.8\n")
      (ip "8.8.8.8" ∷ [])

abbrev sanitize_drops_unreachable_addresses : Bool
sanitize_drops_unreachable_addresses =
    addrs_eq (sanitize (ip "127.0.0.53" ∷ ip "192.168.1.254" ∷ ip "fe80::1" ∷ []))
      (ip "192.168.1.254" ∷ [])

abbrev sanitize_deduplicates_while_keeping_order : Bool
sanitize_deduplicates_while_keeping_order =
    addrs_eq (sanitize (ip "8.8.8.8" ∷ ip "1.1.1.1" ∷ ip "8.8.8.8" ∷ []))
      (ip "8.8.8.8" ∷ ip "1.1.1.1" ∷ [])

abbrev starts_with_addr : List IpAddr → IpAddr → Bool
starts_with_addr [] a = false
starts_with_addr (x ∷ xs) a = addr_eq x a

abbrev sanitize_caps_at_the_resolver_limit : Bool
sanitize_caps_at_the_resolver_limit =
    let kept =
      sanitize (ip "1.0.0.1" ∷ ip "1.0.0.2" ∷ ip "1.0.0.3" ∷ ip "1.0.0.4" ∷ ip "1.0.0.5" ∷ []) in
    length kept == max_nameservers && starts_with_addr kept (ip "1.0.0.1")

abbrev sanitize_of_nothing_usable_is_empty : Bool
sanitize_of_nothing_usable_is_empty = is_empty (sanitize (ip "127.0.0.1" ∷ ip "::1" ∷ []))

-- On any host: the theorem on `default_nameservers` has the same assertions for every state.
abbrev default_nameservers_is_never_empty_and_always_usable : (fs : FileSystem) → fs.State → Bool
default_nameservers_is_never_empty_and_always_usable fs s =
    let nameservers = default_nameservers fs net s in
    not (is_empty nameservers)
    && all is_reachable_from_vm nameservers
    && leb (length nameservers) max_nameservers

abbrev join_separates_with_spaces : Bool
join_separates_with_spaces =
    text_eq (Dns.join (net {S = Unit {0}}) (ip "8.8.8.8" ∷ ip "fd00::1" ∷ []))
      (codes "8.8.8.8 fd00::1")
    && is_empty (Dns.join (net {S = Unit {0}}) [])

reachable_tests_pass :
    (routable_addresses_are_reachable ≡ true)
    × (addresses_that_mean_something_else_in_the_guest_are_rejected ≡ true)
    × (the_fallback_is_usable ≡ true)
unfolding ip is_reachable_from_vm
reachable_tests_pass = (refl, refl, refl)

parse_tests_pass :
    (parse_scutil_reads_every_resolver_in_order ≡ true)
    × (parse_scutil_ignores_everything_that_is_not_a_nameserver ≡ true)
    × (parse_scutil_handles_empty_output ≡ true)
    × (parse_resolv_conf_reads_nameserver_lines ≡ true)
    × (parse_resolv_conf_skips_comments ≡ true)
    × (parse_resolv_conf_requires_a_separator_after_the_directive ≡ true)
    × (parse_resolv_conf_ignores_unparseable_addresses ≡ true)
unfolding ip addrs_eq openshell_image_builder.Conformance.Addresses.parsed parse_scutil
    parse_resolv_conf openshell_image_builder.Dns.scutil_line
    openshell_image_builder.Dns.resolv_conf_line openshell_image_builder.Dns.starts_with_whitespace
    openshell_image_builder.Text.lines openshell_image_builder.Text.trim
    openshell_image_builder.Text.trim_start openshell_image_builder.Text.trim_end
    openshell_image_builder.Text.before openshell_image_builder.Text.strip_prefix
    openshell_image_builder.Text.split_once openshell_image_builder.Text.is_whitespace
parse_tests_pass = (refl, refl, refl, refl, refl, refl, refl)

list_tests_pass :
    (sanitize_drops_unreachable_addresses ≡ true)
    × (sanitize_deduplicates_while_keeping_order ≡ true)
    × (sanitize_caps_at_the_resolver_limit ≡ true)
    × (sanitize_of_nothing_usable_is_empty ≡ true)
    × (join_separates_with_spaces ≡ true)
unfolding ip addrs_eq addr_eq sanitize openshell_image_builder.Dns.sanitize_from
    openshell_image_builder.Dns.contains is_reachable_from_vm Dns.join
    openshell_image_builder.Text.join openshell_image_builder.Conformance.Addresses.shown text_eq
list_tests_pass = (refl, refl, refl, refl, refl)

all-of_All : (xs : List IpAddr) → AllReachable xs → all is_reachable_from_vm xs ≡ true
all-of_All [] _ = refl
all-of_All (x ∷ xs) (h, k) = rw h (all-of_All xs k)

usable-asserts :
    (xs : List IpAddr)
    → xs ≢ []
    → IsUsable xs
    → (not (is_empty xs) && all is_reachable_from_vm xs && leb (length xs) max_nameservers) ≡ true
usable-asserts [] nonempty h = absurd (nonempty refl)
usable-asserts (x ∷ xs) nonempty h =
    rw (all-of_All (x ∷ xs) h.reachable) (ground (arith, h.bounded))

-- The test does not depend on the host that runs it.
default_nameservers_test_passes :
    (fs : FileSystem) (s : fs.State)
    → default_nameservers_is_never_empty_and_always_usable fs s ≡ true
default_nameservers_test_passes fs s =
    let (nonempty, usable) = default_nameservers-IsUsable fs net s in
    usable-asserts (default_nameservers fs net s) nonempty usable
