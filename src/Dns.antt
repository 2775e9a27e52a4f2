-- ===== src/Dns.antt =====
-- crates/vm-image-builder/src/dns.rs: the nameservers for the build VM. The text syntax of
-- addresses and the run of `scutil` are parameters. The log lines are not modelled.
pub mod Addr
pub mod Reachable
pub mod Sanitize
pub mod Usable
pub mod RoundTrip
use openshell_image_builder.Base.{
  ℕ, Bool, true, false, not, ◌&&◌, ◌||◌, Option, none, some, List, [], ◌∷◌, ◌++◌, map, Result, ok,
  err, ◌==◌, if◌then◌else◌, is_empty, length, filter_map,
}
use openshell_image_builder.Base.Maybe.{◌>>=◌}
use openshell_image_builder.Text
use openshell_image_builder.Text.{
  Text, codes, is_whitespace, trim_start, trim, before, strip_prefix, split_once, lines, to_str,
}
use openshell_image_builder.FilePath.{FilePath}
use openshell_image_builder.Host.{IoError, FileSystem}
use openshell_image_builder.Dns.Addr.{IpAddr, v4, is_reachable_from_vm, addr_eq}

-- What a command that has ended leaves: `std::process::Output`.
pub record Output : Type 0 where
  pub success : Bool
  pub stdout : Text

-- What the module takes from outside: std's text syntax of addresses, the target, and `scutil`.
pub record Net (S : Type 0) : Type 0 where
  pub parse_addr : Text → Option IpAddr
  pub show_addr : IpAddr → Text
  pub macos : Bool
  pub scutil : S → Result IoError Output

abbrev pub fallback_nameserver : IpAddr
fallback_nameserver = v4 1 1 1 1

abbrev pub max_nameservers : ℕ
max_nameservers = 3

abbrev pub resolv_conf : FilePath
resolv_conf = codes "/etc/resolv.conf"

unfoldable pub contains : List IpAddr → IpAddr → Bool
contains [] a = false
contains (x ∷ xs) a = addr_eq x a || contains xs a

-- The loop of `sanitize`, over what it has kept so far.
unfoldable pub sanitize_from : List IpAddr → List IpAddr → List IpAddr
sanitize_from kept [] = kept
sanitize_from kept (addr ∷ addrs) = elim (is_reachable_from_vm addr) [
  | false ↦ sanitize_from kept addrs
  | true ↦
      let kept' = if contains kept addr then kept else kept ++ addr ∷ [] in
      elim (length kept' == max_nameservers) [ true ↦ kept' | false ↦ sanitize_from kept' addrs ]
]

unfoldable pub sanitize : List IpAddr → List IpAddr
sanitize addrs = sanitize_from [] addrs

-- `#` and `;` both start a comment.
abbrev pub is_comment : ℕ → Bool
is_comment c = c == b'#' || c == b';'

unfoldable pub starts_with_whitespace : Text → Bool
starts_with_whitespace [] = false
starts_with_whitespace (c ∷ s) = is_whitespace c

module _ {S : Type 0} (net : Net S) where
  unfoldable pub join : List IpAddr → Text
  join addrs = Text.join (codes " ") (map net.show_addr addrs)

  unfoldable pub scutil_line : Text → Option IpAddr
  scutil_line line = do
    rest ← strip_prefix (codes "nameserver[") (trim_start line)
    parts ← split_once (codes " : ") rest
    net.parse_addr (trim parts.1)

  unfoldable pub parse_scutil : Text → List IpAddr
  parse_scutil output = filter_map scutil_line (lines output)

  unfoldable pub resolv_conf_line : Text → Option IpAddr
  resolv_conf_line line = do
    rest ← strip_prefix (codes "nameserver") (trim (before is_comment line))
    if not (starts_with_whitespace rest) then none else net.parse_addr (trim rest)

  unfoldable pub parse_resolv_conf : Text → List IpAddr
  parse_resolv_conf text = filter_map resolv_conf_line (lines text)

  abbrev succeeded : Result IoError Output → Option Text
  succeeded (err e) = none
  succeeded (ok output) = if not output.success then none else to_str output.stdout

  unfoldable pub scutil_output : S → Option Text
  scutil_output s = succeeded (net.scutil s)

  abbrev from_resolv_conf : Result IoError Text → List IpAddr
  from_resolv_conf (ok text) = sanitize (parse_resolv_conf text)
  from_resolv_conf (err e) = []

  abbrev from_scutil : Option Text → List IpAddr
  from_scutil none = []
  from_scutil (some output) = sanitize (parse_scutil output)

-- Fails over from `scutil`, which only macOS has, to `resolv.conf`.
unfoldable pub host_nameservers : (fs : FileSystem) → Net fs.State → fs.State → List IpAddr
host_nameservers fs net s =
    let rest = from_resolv_conf net (fs.stat s resolv_conf).contents in
    let addrs = from_scutil net (scutil_output net s) in
    if net.macos && not (is_empty addrs) then addrs else rest

unfoldable pub default_nameservers : (fs : FileSystem) → Net fs.State → fs.State → List IpAddr
default_nameservers fs net s =
    let discovered = host_nameservers fs net s in
    if is_empty discovered then fallback_nameserver ∷ [] else discovered
