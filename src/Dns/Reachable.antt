-- ===== src/Dns/Reachable.antt =====
-- `is_reachable_from_vm` of dns.rs against the address blocks that it stands for.
use Prim.Native.Nat.{bit_and}
use openshell_image_builder.Base.{
  ℕ, ◌+◌, ◌*◌, ◌/◌, ◌^◌, ◌-◌, ◌<◌, Bool, true, false, not, ◌&&◌, ◌||◌, List, [], ◌∷◌, ◌==◌,
  if◌then◌else◌, any, ◌≡◌, refl, arith, ==_iff, sym, passes_under, passes_under-at,
}
use openshell_image_builder.Dns.Addr.{IpAddr, v4, v6, IsValid, is_reachable_from_vm}

-- The address as one number, its first part the highest.
abbrev pub value : IpAddr → ℕ
value (v4 a b c d) = a * 2 ^ 24 + b * 2 ^ 16 + c * 2 ^ 8 + d
value (v6 a b c d e f g h) =
    a * 2 ^ 112 + b * 2 ^ 96 + c * 2 ^ 80 + d * 2 ^ 64 + e * 2 ^ 48 + f * 2 ^ 32 + g * 2 ^ 16 + h

abbrev pub bits : IpAddr → ℕ
bits (v4 a b c d) = 32
bits (v6 a b c d e f g h) = 128

-- A block in CIDR notation: a first address and the number of leading bits that count.
pub record Block : Type 0 where
  pub first : IpAddr
  pub prefix : ℕ

abbrev pub in_block : IpAddr → Block → Bool
in_block x b = value x / 2 ^ (bits x - b.prefix) == value b.first / 2 ^ (bits x - b.prefix)

-- 127.0.0.0/8, 0.0.0.0/32, 224.0.0.0/4, 169.254.0.0/16, 255.255.255.255/32
abbrev pub v4_blocks : List Block
v4_blocks =
    record { first = v4 127 0 0 0; prefix = 8 }
    ∷ record { first = v4 0 0 0 0; prefix = 32 }
    ∷ record { first = v4 224 0 0 0; prefix = 4 }
    ∷ record { first = v4 169 254 0 0; prefix = 16 }
    ∷ record { first = v4 255 255 255 255; prefix = 32 }
    ∷ []

-- ::1/128, ::/128, ff00::/8, fe80::/10
abbrev pub v6_blocks : List Block
v6_blocks =
    record { first = v6 0 0 0 0 0 0 0 1; prefix = 128 }
    ∷ record { first = v6 0 0 0 0 0 0 0 0; prefix = 128 }
    ∷ record { first = v6 0xff00 0 0 0 0 0 0 0; prefix = 8 }
    ∷ record { first = v6 0xfe80 0 0 0 0 0 0 0; prefix = 10 }
    ∷ []

abbrev pub blocks : IpAddr → List Block
blocks (v4 a b c d) = v4_blocks
blocks (v6 a b c d e f g h) = v6_blocks

mask_table :
    passes_under (λ a. bit_and a 0xff00 == a / 256 * 256 && bit_and a 0xffc0 == a / 64 * 64) 65536
    ≡ true
unfolding passes_under
mask_table = refl

masks : (a : ℕ) → a < 65536 → (bit_and a 0xff00 ≡ a / 256 * 256) × (bit_and a 0xffc0 ≡ a / 64 * 64)
masks a h = ground (
  arith,
  passes_under-at (λ a. bit_and a 0xff00 == a / 256 * 256 && bit_and a 0xffc0 == a / 64 * 64) 65536
      mask_table a h,
)

Bool-eq : (x y : Bool) → (x ≡ true → y ≡ true) → (y ≡ true → x ≡ true) → x ≡ y
Bool-eq true y f g = sym (f refl)
Bool-eq false true f g = g refl
Bool-eq false false f g = refl

-- Seven zero segments and `n` are the number `n`.
segments_eq :
    (a b c d e f g h n : ℕ)
    → n < 65536
    → h < 65536
    → (a == 0 && b == 0 && c == 0 && d == 0 && e == 0 && f == 0 && g == 0 && h == n)
      ≡ (value (v6 a b c d e f g h) / 2 ^ 0 == n)
segments_eq a b c d e f g h n hn hh =
    Bool-eq _ _
      (λ p. (==_iff _ _).1 (
        let q : (a ≡ 0) × (b ≡ 0) × (c ≡ 0) × (d ≡ 0) × (e ≡ 0) × (f ≡ 0) × (g ≡ 0) × (h ≡ n) =
          ground arith in
        omega arith))
      (λ p.
        let q : value (v6 a b c d e f g h) / 2 ^ 0 ≡ n = (==_iff _ n).0 p in
        let z : (a ≡ 0) × (b ≡ 0) × (c ≡ 0) × (d ≡ 0) × (e ≡ 0) × (f ≡ 0) × (g ≡ 0) × (h ≡ n) =
          omega arith in
        simp (z.0, z.1, z.2, z.3, z.4, z.5, z.6, z.7) ((==_iff n n).1 refl))

multicast_eq :
    (a b c d e f g h : ℕ)
    → IsValid (v6 a b c d e f g h)
    → (bit_and a 0xff00 == 0xff00) ≡ (value (v6 a b c d e f g h) / 2 ^ 120 == 0xff)
multicast_eq a b c d e f g h p =
    Bool-eq _ _
      (λ q. (==_iff _ _).1 (
        let e1 : bit_and a 0xff00 ≡ 0xff00 = (==_iff _ _).0 q in
        let m : bit_and a 0xff00 ≡ a / 256 * 256 = (masks a p.0).0 in omega arith))
      (λ q. (==_iff _ _).1 (
        let e1 : value (v6 a b c d e f g h) / 2 ^ 120 ≡ 0xff = (==_iff _ _).0 q in
        let m : bit_and a 0xff00 ≡ a / 256 * 256 = (masks a p.0).0 in omega arith))

link_local_eq :
    (a b c d e f g h : ℕ)
    → IsValid (v6 a b c d e f g h)
    → (bit_and a 0xffc0 == 0xfe80) ≡ (value (v6 a b c d e f g h) / 2 ^ 118 == 0x3fa)
link_local_eq a b c d e f g h p =
    Bool-eq _ _
      (λ q. (==_iff _ _).1 (
        let e1 : bit_and a 0xffc0 ≡ 0xfe80 = (==_iff _ _).0 q in
        let m : bit_and a 0xffc0 ≡ a / 64 * 64 = (masks a p.0).1 in omega arith))
      (λ q. (==_iff _ _).1 (
        let e1 : value (v6 a b c d e f g h) / 2 ^ 118 ≡ 0x3fa = (==_iff _ _).0 q in
        let m : bit_and a 0xffc0 ≡ a / 64 * 64 = (masks a p.0).1 in omega arith))

reassemble :
    (l u m k l' u' m' k' : Bool)
    → l ≡ l'
    → u ≡ u'
    → m ≡ m'
    → k ≡ k'
    → (if l || u || m then false else not k) ≡ not (l' || (u' || (m' || (k' || false))))
reassemble l u m k l' u' m' k' p q r s = ground arith

v6-in_block :
    (a b c d e f g h : ℕ)
    → IsValid (v6 a b c d e f g h)
    → is_reachable_from_vm (v6 a b c d e f g h)
      ≡ not (any (in_block (v6 a b c d e f g h)) v6_blocks)
unfolding is_reachable_from_vm
v6-in_block a b c d e f g h p =
    reassemble _ _ _ _ _ _ _ _ (segments_eq a b c d e f g h 1 (omega arith) (omega arith))
      (segments_eq a b c d e f g h 0 (omega arith) (omega arith)) (multicast_eq a b c d e f g h p)
      (link_local_eq a b c d e f g h p)

v4-in_block :
    (a b c d : ℕ)
    → IsValid (v4 a b c d)
    → is_reachable_from_vm (v4 a b c d) ≡ not (any (in_block (v4 a b c d)) v4_blocks)
unfolding is_reachable_from_vm
v4-in_block a b c d h = ground arith

-- For every address of 32 or 128 bits, `is_reachable_from_vm` is false exactly in the blocks listed
-- for its family: loopback, unspecified, multicast, link-local and, for IPv4, broadcast.
pub is_reachable_from_vm-blocks :
    (x : IpAddr) → IsValid x → is_reachable_from_vm x ≡ not (any (in_block x) (blocks x))
is_reachable_from_vm-blocks (v4 a b c d) h = v4-in_block a b c d h
is_reachable_from_vm-blocks (v6 a b c d e f g h) p = v6-in_block a b c d e f g h p

-- The IPv6 form ::ffff:a.b.c.d of an IPv4 address.
abbrev pub mapped : ℕ → ℕ → ℕ → ℕ → IpAddr
mapped a b c d = v6 0 0 0 0 0 0xffff (a * 256 + b) (c * 256 + d)

-- An IPv4 address in its IPv6-mapped form passes `is_reachable_from_vm` whatever it is, while
-- 127.b.c.d itself does not: a loopback address is not recognised in that form.
pub is_reachable_from_vm-mapped :
    (a b c d : ℕ)
    → IsValid (v4 a b c d)
    → (is_reachable_from_vm (mapped a b c d) ≡ true) × (is_reachable_from_vm (v4 127 b c d) ≡ false)
unfolding is_reachable_from_vm
is_reachable_from_vm-mapped a b c d h = (refl, ground arith)
