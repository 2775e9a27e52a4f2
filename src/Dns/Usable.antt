-- ===== src/Dns/Usable.antt =====
-- What the callers of dns.rs rely on in the nameservers that it finds.
use native.Mathlib.Decide.{dec_lt}
use openshell_image_builder.Base.{
  ◌+◌, ◌≤◌, ◌<◌, Option, Bool, true, false, ◌||◌, List, [], ◌∷◌, ◌++◌, if◌then◌else◌, length,
  length-append, is_empty, All, All-append, ◌≡◌, refl, ◌≢◌, arith, inl, inr, Bool-cases, Result, ok,
  err, none, some,
}
use openshell_image_builder.Text.{Text}
use openshell_image_builder.Host.{FileSystem, IoError}
use openshell_image_builder.Dns.Addr.{
  IpAddr, is_reachable_from_vm, addr_eq, addr_eq_refl, addr_eq-eq,
}
use openshell_image_builder.Dns.Sanitize.{
  sanitize_from-skip, sanitize_from-old, sanitize_from-full, sanitize_from-room,
}
use openshell_image_builder.Dns.{
  Net, contains, max_nameservers, sanitize_from, sanitize, from_scutil, from_resolv_conf,
  scutil_output, resolv_conf, host_nameservers, default_nameservers, fallback_nameserver,
}

-- No address stands twice.
abbrev pub Distinct : List IpAddr → Type 0
Distinct [] = Unit
Distinct (x ∷ xs) = (contains xs x ≡ false) × Distinct xs

abbrev pub AllReachable : List IpAddr → Type 0
AllReachable = All (λ x. is_reachable_from_vm x ≡ true)

pub record IsUsable (xs : List IpAddr) : Type 0 where
  pub reachable : AllReachable xs
  pub distinct : Distinct xs
  pub bounded : length xs ≤ max_nameservers

addr_eq_comm : (x y : IpAddr) → addr_eq x y ≡ false → addr_eq y x ≡ false
addr_eq_comm x y h = elim (Bool-cases (addr_eq y x)) [
  | inl same ↦ let e : y ≡ x = addr_eq-eq y x same in absurd (cc (addr_eq_refl x, e, h))
  | inr differ ↦ differ
]

contains-concat :
    (xs : List IpAddr) (x y : IpAddr) → contains (xs ++ x ∷ []) y ≡ (contains xs y || addr_eq x y)
unfolding contains
contains-concat [] x y = ground arith
contains-concat (z ∷ xs) x y = ground (arith, contains-concat xs x y)

Distinct-concat :
    (xs : List IpAddr) (x : IpAddr) → Distinct xs → contains xs x ≡ false → Distinct (xs ++ x ∷ [])
Distinct-concat [] x _ _ = (unfold contains in refl, tt)
Distinct-concat (y ∷ xs) x (fresh, d) h =
    let tests : (addr_eq y x ≡ false) × (contains xs x ≡ false) = unfold contains in ground arith in
    (rw (contains-concat xs x y, fresh) (addr_eq_comm y x tests.0), Distinct-concat xs x d tests.1)

sanitize_from-IsUsable :
    (kept addrs : List IpAddr)
    → AllReachable kept
    → Distinct kept
    → length kept < max_nameservers
    → IsUsable (sanitize_from kept addrs)
sanitize_from-IsUsable kept [] r d h =
    unfold sanitize_from in record { reachable = r; distinct = d; bounded = omega arith }
sanitize_from-IsUsable kept (x ∷ addrs) r d h = elim (Bool-cases (is_reachable_from_vm x)) [
  | inr u ↦ rw (sanitize_from-skip kept addrs x u) (sanitize_from-IsUsable kept addrs r d h)
  | inl reach ↦ elim (Bool-cases (contains kept x)) [
    | inl old ↦
        rw (sanitize_from-old kept addrs x h reach old) (sanitize_from-IsUsable kept addrs r d h)
    | inr fresh ↦
        let r' = All-append (λ y. is_reachable_from_vm y ≡ true) kept (x ∷ []) r (reach, tt) in
        let d' = Distinct-concat kept x d fresh in
        let n = length-append kept (x ∷ []) in
        elim (dec_lt (length kept + 1) max_nameservers) [
          | yes room ↦
              rw (sanitize_from-room kept addrs x reach fresh room)
                (sanitize_from-IsUsable (kept ++ x ∷ []) addrs r' d' (omega (arith, n)))
          | no full ↦
              rw (sanitize_from-full kept addrs x reach fresh (omega arith))
                (record { reachable = r'; distinct = d'; bounded = omega (arith, n) })
        ]
  ]
]

sanitize-IsUsable : (addrs : List IpAddr) → IsUsable (sanitize addrs)
unfolding sanitize
sanitize-IsUsable addrs = sanitize_from-IsUsable [] addrs tt tt (omega arith)

nil-IsUsable : IsUsable []
nil-IsUsable = record { reachable = tt; distinct = tt; bounded = omega arith }

from_scutil-IsUsable : {S : Type 0} (net : Net S) (o : Option Text) → IsUsable (from_scutil net o)
from_scutil-IsUsable net none = nil-IsUsable
from_scutil-IsUsable net (some output) = sanitize-IsUsable _

from_resolv_conf-IsUsable :
    {S : Type 0} (net : Net S) (r : Result IoError Text) → IsUsable (from_resolv_conf net r)
from_resolv_conf-IsUsable net (ok text) = sanitize-IsUsable _
from_resolv_conf-IsUsable net (err e) = nil-IsUsable

if-IsUsable :
    (b : Bool) (xs ys : List IpAddr) → IsUsable xs → IsUsable ys → IsUsable (if b then xs else ys)
if-IsUsable true xs ys h k = h
if-IsUsable false xs ys h k = k

module _ (fs : FileSystem) (net : Net fs.State) (s : fs.State) where
  host_nameservers-IsUsable : IsUsable (host_nameservers fs net s)
  unfolding host_nameservers
  host_nameservers-IsUsable =
      if-IsUsable _ _ _ (from_scutil-IsUsable net (scutil_output net s))
        (from_resolv_conf-IsUsable net (fs.stat s resolv_conf).contents)

  or_fallback :
      (xs : List IpAddr)
      → IsUsable xs
      → ((if is_empty xs then fallback_nameserver ∷ [] else xs) ≢ [])
        × IsUsable (if is_empty xs then fallback_nameserver ∷ [] else xs)
  unfolding is_reachable_from_vm contains
  or_fallback [] h =
      (cc, record { reachable = (refl, tt); distinct = (refl, tt); bounded = omega arith })
  or_fallback (x ∷ xs) h = (cc, h)

  -- Whatever the host's configuration says, the nameservers chosen by default are not empty, can all
  -- be reached from the VM, are pairwise different, and are at most three.
  pub default_nameservers-IsUsable :
      (default_nameservers fs net s ≢ []) × IsUsable (default_nameservers fs net s)
  unfolding default_nameservers
  default_nameservers-IsUsable = or_fallback _ host_nameservers-IsUsable
