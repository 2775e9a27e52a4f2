-- ===== src/Conformance/Addresses.antt =====
-- The addresses that the tests write as texts, and the instance of std's parser and printer that knows
-- them.
use openshell_image_builder.Base.{
  true, Option, none, some, List, [], ◌∷◌, err, if◌then◌else◌, String,
}
use openshell_image_builder.Text.{Text, codes, text_eq}
use openshell_image_builder.Host.{other, IoError}
use openshell_image_builder.Dns.{Net}
use openshell_image_builder.Dns.Addr.{IpAddr, v4, v6, addr_eq}

abbrev known : List (Text × IpAddr)
known =
    (codes "192.168.1.254", v4 192 168 1 254)
    ∷ (codes "10.0.0.1", v4 10 0 0 1)
    ∷ (codes "10.0.0.2", v4 10 0 0 2)
    ∷ (codes "8.8.8.8", v4 8 8 8 8)
    ∷ (codes "1.1.1.1", v4 1 1 1 1)
    ∷ (codes "9.9.9.9", v4 9 9 9 9)
    ∷ (codes "9.9.9.10", v4 9 9 9 10)
    ∷ (codes "1.0.0.1", v4 1 0 0 1)
    ∷ (codes "1.0.0.2", v4 1 0 0 2)
    ∷ (codes "1.0.0.3", v4 1 0 0 3)
    ∷ (codes "1.0.0.4", v4 1 0 0 4)
    ∷ (codes "1.0.0.5", v4 1 0 0 5)
    ∷ (codes "127.0.0.53", v4 127 0 0 53)
    ∷ (codes "127.0.0.1", v4 127 0 0 1)
    ∷ (codes "169.254.1.1", v4 169 254 1 1)
    ∷ (codes "224.0.0.1", v4 224 0 0 1)
    ∷ (codes "255.255.255.255", v4 255 255 255 255)
    ∷ (codes "::1", v6 0 0 0 0 0 0 0 1)
    ∷ (codes "::", v6 0 0 0 0 0 0 0 0)
    ∷ (codes "fe80::1", v6 0xfe80 0 0 0 0 0 0 1)
    ∷ (codes "febf::1", v6 0xfebf 0 0 0 0 0 0 1)
    ∷ (codes "fd00::1", v6 0xfd00 0 0 0 0 0 0 1)
    ∷ (codes "fd0f:ee:b0::1", v6 0xfd0f 0xee 0xb0 0 0 0 0 1)
    ∷ (codes "2606:4700:4700::1111", v6 0x2606 0x4700 0x4700 0 0 0 0 0x1111)
    ∷ (codes "0.0.0.0", v4 0 0 0 0)
    ∷ []

unfoldable pub parsed : List (Text × IpAddr) → Text → Option IpAddr
unfolding text_eq
parsed [] t = none
parsed ((s, addr) ∷ rest) t = if text_eq s t then some addr else parsed rest t

unfoldable pub shown : List (Text × IpAddr) → IpAddr → Text
unfolding addr_eq
shown [] a = []
shown ((s, addr) ∷ rest) a = if addr_eq addr a then s else shown rest a

abbrev or_unspecified : Option IpAddr → IpAddr
or_unspecified none = v4 0 0 0 0
or_unspecified (some addr) = addr

-- `s.parse().unwrap()`, for the texts above.
unfoldable pub ip : String → IpAddr
unfolding parsed
ip s = or_unspecified (parsed known (codes s))

abbrev no_scutil : IoError
no_scutil = record { kind = other; message = codes "no such command" }

-- A macOS host on which `scutil` does not run.
abbrev pub net : {S : Type 0} → Net S
net = record {
  parse_addr = parsed known;
  show_addr = shown known;
  macos = true;
  scutil = λ s. err no_scutil;
}
