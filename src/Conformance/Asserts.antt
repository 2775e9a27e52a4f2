-- ===== src/Conformance/Asserts.antt =====
-- What the assertions of the tests are made of.
use openshell_image_builder.Base.{
  Bool, true, false, ◌&&◌, Option, none, some, List, [], ◌∷◌, Result, ok, err,
}
use openshell_image_builder.Text.{Text, split_once}
use openshell_image_builder.Dns.Addr.{IpAddr, addr_eq}

-- `s.contains(part)`
unfoldable pub contains : Text → Text → Bool
unfolding split_once
contains s part = elim (split_once part s) [ none ↦ false | some _ ↦ true ]

-- `.unwrap()`, with the assertions on the value.
abbrev pub passes : {E A : Type 0} → Result E A → (A → Bool) → Bool
passes (ok a) asserts = asserts a
passes (err e) asserts = false

-- `.unwrap_err()`
abbrev pub fails : {E A : Type 0} → Result E A → (E → Bool) → Bool
fails (ok a) asserts = false
fails (err e) asserts = asserts e

abbrev pub is_ok : {E A : Type 0} → Result E A → Bool
is_ok r = passes r (λ _. true)

abbrev pub is_err : {E A : Type 0} → Result E A → Bool
is_err r = fails r (λ _. true)

-- `assert_eq!(o, Some(..))`
abbrev pub is_some_of : {A : Type 0} → Option A → (A → Bool) → Bool
is_some_of none asserts = false
is_some_of (some a) asserts = asserts a

abbrev pub is_none : {A : Type 0} → Option A → Bool
is_none none = true
is_none (some a) = false

unfoldable pub addrs_eq : List IpAddr → List IpAddr → Bool
unfolding addr_eq
addrs_eq [] [] = true
addrs_eq (x ∷ xs) (y ∷ ys) = addr_eq x y && addrs_eq xs ys
addrs_eq [] (y ∷ ys) = false
addrs_eq (x ∷ xs) [] = false
