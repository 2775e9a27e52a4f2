-- ===== src/Dns/Addr.antt =====
-- `std::net::IpAddr` with std's classification of addresses, and the program's own test
-- `is_reachable_from_vm`. An octet is below 2 ^ 8 and a segment below 2 ^ 16.
use Prim.Native.Nat.{bit_and}
use openshell_image_builder.Base.{
  ℕ, Bool, true, false, not, ◌&&◌, ◌||◌, ◌==◌, leb, if◌then◌else◌, ◌≡◌, arith, ◌<◌,
}

pub data IpAddr : Type 0 where
  v4 : ℕ → ℕ → ℕ → ℕ → IpAddr
  v6 : ℕ → ℕ → ℕ → ℕ → ℕ → ℕ → ℕ → ℕ → IpAddr

abbrev pub IsOctet : ℕ → Type 0
IsOctet n = n < 256

abbrev pub IsSegment : ℕ → Type 0
IsSegment n = n < 65536

abbrev pub IsValid : IpAddr → Type 0
IsValid (v4 a b c d) = IsOctet a × IsOctet b × IsOctet c × IsOctet d
IsValid (v6 a b c d e f g h) =
    IsSegment a
    × IsSegment b
    × IsSegment c
    × IsSegment d
    × IsSegment e
    × IsSegment f
    × IsSegment g
    × IsSegment h

unfoldable pub addr_eq : IpAddr → IpAddr → Bool
addr_eq (v4 a b c d) (v4 a' b' c' d') = a == a' && b == b' && c == c' && d == d'
addr_eq (v6 a b c d e f g h) (v6 a' b' c' d' e' f' g' h') =
    a == a' && b == b' && c == c' && d == d' && e == e' && f == f' && g == g' && h == h'
addr_eq (v4 a b c d) (v6 a' b' c' d' e' f' g' h') = false
addr_eq (v6 a b c d e f g h) (v4 a' b' c' d') = false

unfoldable pub is_loopback : IpAddr → Bool
is_loopback (v4 a b c d) = a == 127
is_loopback (v6 a b c d e f g h) =
    a == 0 && b == 0 && c == 0 && d == 0 && e == 0 && f == 0 && g == 0 && h == 1

unfoldable pub is_unspecified : IpAddr → Bool
is_unspecified (v4 a b c d) = a == 0 && b == 0 && c == 0 && d == 0
is_unspecified (v6 a b c d e f g h) =
    a == 0 && b == 0 && c == 0 && d == 0 && e == 0 && f == 0 && g == 0 && h == 0

-- `Ipv6Addr::is_multicast` looks at the first octet.
unfoldable pub is_multicast : IpAddr → Bool
is_multicast (v4 a b c d) = leb 224 a && leb a 239
is_multicast (v6 a b c d e f g h) = bit_and a 0xff00 == 0xff00

unfoldable pub is_link_local : ℕ → ℕ → Bool
is_link_local a b = a == 169 && b == 254

unfoldable pub is_broadcast : ℕ → ℕ → ℕ → ℕ → Bool
is_broadcast a b c d = a == 255 && b == 255 && c == 255 && d == 255

-- The `match` behind the early return.
unfoldable pub is_reachable_kind : IpAddr → Bool
unfolding is_link_local is_broadcast
is_reachable_kind (v4 a b c d) = not (is_link_local a b) && not (is_broadcast a b c d)
is_reachable_kind (v6 a b c d e f g h) = not (bit_and a 0xffc0 == 0xfe80)

unfoldable pub is_reachable_from_vm : IpAddr → Bool
unfolding is_loopback is_unspecified is_multicast is_reachable_kind
is_reachable_from_vm addr =
    if is_loopback addr || is_unspecified addr || is_multicast addr
    then false
    else is_reachable_kind addr

pub addr_eq_refl : (x : IpAddr) → addr_eq x x ≡ true
unfolding addr_eq
addr_eq_refl (v4 a b c d) = ground arith
addr_eq_refl (v6 a b c d e f g h) = ground arith

pub addr_eq-eq : (x y : IpAddr) → addr_eq x y ≡ true → x ≡ y
unfolding addr_eq
addr_eq-eq (v4 a b c d) (v4 a' b' c' d') h = ground arith
addr_eq-eq (v6 a b c d e f g h) (v6 a' b' c' d' e' f' g' h') p = ground arith
addr_eq-eq (v4 a b c d) (v6 a' b' c' d' e' f' g' h') p = cc
addr_eq-eq (v6 a b c d e f g h) (v4 a' b' c' d') p = cc
