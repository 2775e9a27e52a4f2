-- ===== src/Dns/Sanitize.antt =====
-- `sanitize` of dns.rs against a description of what it keeps: the reachable addresses, each where
-- it stands first, cut off at the number that a resolver reads.
use native.Mathlib.Decide.{dec_lt}
use openshell_image_builder.Base.{
  ℕ, zero, suc, ◌+◌, ◌≤◌, ◌<◌, true, false, List, [], ◌∷◌, ◌++◌, append_assoc, append-nil, length,
  length-append, take, keep, ◌≡◌, refl, sym, ap, arith, inl, inr, Bool-cases,
}
use openshell_image_builder.Dns.Addr.{IpAddr, is_reachable_from_vm}
use openshell_image_builder.Dns.{contains, max_nameservers, sanitize_from, sanitize}

-- The addresses, each where it stands first; those of `seen` do not count.
abbrev pub firsts : List IpAddr → List IpAddr → List IpAddr
firsts seen [] = []
firsts seen (x ∷ xs) = elim (contains seen x) [
  | true ↦ firsts seen xs
  | false ↦ x ∷ firsts (seen ++ x ∷ []) xs
]

take-append : (xs ys : List IpAddr) → take (length xs) (xs ++ ys) ≡ xs
take-append [] ys = refl
take-append (x ∷ xs) ys = ap (λ (l : List IpAddr). x ∷ l) (take-append xs ys)

take_all : (n : ℕ) (xs : List IpAddr) → length xs ≤ n → take n xs ≡ xs
take_all zero [] h = refl
take_all zero (x ∷ xs) h = absurd (omega arith)
take_all (suc n) [] h = refl
take_all (suc n) (x ∷ xs) h = ap (λ (l : List IpAddr). x ∷ l) (take_all n xs (omega arith))

-- The rounds of the loop: an address that is skipped, one that is kept already, the last one that
-- fits, and one after which there is room.
module _ (kept addrs : List IpAddr) (x : IpAddr) where
  pub sanitize_from-skip :
      is_reachable_from_vm x ≡ false → sanitize_from kept (x ∷ addrs) ≡ sanitize_from kept addrs
  unfolding sanitize_from
  sanitize_from-skip u = ground arith

  pub sanitize_from-old :
      length kept < max_nameservers
      → is_reachable_from_vm x ≡ true
      → contains kept x ≡ true
      → sanitize_from kept (x ∷ addrs) ≡ sanitize_from kept addrs
  unfolding sanitize_from
  sanitize_from-old h r old = ground arith

  pub sanitize_from-full :
      is_reachable_from_vm x ≡ true
      → contains kept x ≡ false
      → length kept + 1 ≡ max_nameservers
      → sanitize_from kept (x ∷ addrs) ≡ kept ++ x ∷ []
  unfolding sanitize_from
  sanitize_from-full r fresh full = ground (arith, length-append kept (x ∷ []))

  pub sanitize_from-room :
      is_reachable_from_vm x ≡ true
      → contains kept x ≡ false
      → length kept + 1 < max_nameservers
      → sanitize_from kept (x ∷ addrs) ≡ sanitize_from (kept ++ x ∷ []) addrs
  unfolding sanitize_from
  sanitize_from-room r fresh room = ground (arith, length-append kept (x ∷ []))

sanitize_from_lem :
    (kept addrs : List IpAddr)
    → length kept < max_nameservers
    → sanitize_from kept addrs
      ≡ take max_nameservers (kept ++ firsts kept (keep is_reachable_from_vm addrs))
sanitize_from_lem kept [] h =
    rw append-nil (unfold sanitize_from in sym (take_all max_nameservers kept (omega arith)))
sanitize_from_lem kept (x ∷ addrs) h = elim (Bool-cases (is_reachable_from_vm x)) [
  | inr u ↦ rw (sanitize_from-skip kept addrs x u, u) (sanitize_from_lem kept addrs h)
  | inl r ↦ elim (Bool-cases (contains kept x)) [
    | inl old ↦
        rw (sanitize_from-old kept addrs x h r old) (ground (arith, sanitize_from_lem kept addrs h))
    | inr fresh ↦
        let rest = firsts (kept ++ x ∷ []) (keep is_reachable_from_vm addrs) in
        let regroup : (kept ++ x ∷ []) ++ rest ≡ kept ++ (x ∷ rest) =
          append_assoc kept (x ∷ []) rest in
        elim (dec_lt (length kept + 1) max_nameservers) [
          | yes room ↦ rw (sanitize_from-room kept addrs x r fresh room) (
              ground (
                arith,
                regroup,
                sanitize_from_lem (kept ++ x ∷ []) addrs,
                length-append kept (x ∷ []),
              ))
          | no full ↦
              let three : length kept + 1 ≡ max_nameservers = omega arith in
              rw (sanitize_from-full kept addrs x r fresh three) (
                ground
                  (arith, regroup, take-append (kept ++ x ∷ []) rest, length-append kept (x ∷ [])))
        ]
  ]
]

-- `sanitize` keeps the first three distinct addresses that the VM can reach, in the given order.
pub sanitize-eq-take :
    (addrs : List IpAddr)
    → sanitize addrs ≡ take max_nameservers (firsts [] (keep is_reachable_from_vm addrs))
unfolding sanitize
sanitize-eq-take addrs = sanitize_from_lem [] addrs (omega arith)
