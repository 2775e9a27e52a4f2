-- ===== src/Base/Io.antt =====
-- Results, and computations that may fail and that change a state: what `?` and `Result` are in
-- the source. A failing step ends the computation, and the changes made before it stay.
use mathlib.Core.Path.{◌≡◌, refl, ap}
use mathlib.Core.Logic.{◌⊎◌, inl, inr}
use native.Mathlib.Omega.{arith}

pub data Result {ℓ κ} (E : Type ℓ) (A : Type κ) : Type (ℓ ⊔ κ) where
  ok : A → Result E A
  err : E → Result E A

-- A result is one of the two.
pub Result-cases {ℓ κ} :
    {E : Type ℓ} {A : Type κ} (r : Result E A) → ((a : A) × (r ≡ ok a)) ⊎ ((e : E) × (r ≡ err e))
Result-cases (ok a) = inl (a, refl)
Result-cases (err e) = inr (e, refl)

abbrev pub map_err : {E F A : Type 0} → (E → F) → Result E A → Result F A
map_err f (ok a) = ok a
map_err f (err e) = err (f e)

abbrev pub Io : Type 0 → Type 0 → Type 0 → Type 0
Io S E A = S → Result E A × S

module _ {S E A B : Type 0} where
  unfoldable pub next : Result E A × S → (A → Io S E B) → Result E B × S
  next (ok a, s) f = f a s
  next (err e, s) f = (err e, s)

  -- What follows a step that was made: the inversion of a successful run.
  pub next-eq-ok :
      (r : Result E A × S) (f : A → Io S E B) {b : B} {t : S}
      → next r f ≡ (ok b, t)
      → (a : A) × (s : S) × (r ≡ (ok a, s)) × (f a s ≡ (ok b, t))
  unfolding next
  next-eq-ok (ok a, s) f h = (a, s, refl, h)
  next-eq-ok (err e, s) f h = ground arith

-- The same, for a proof that goes on with the step's result and state as variables.
pub next-cases {κ} :
    {S E A B : Type 0} (r : Result E A × S) (f : A → Io S E B) {b : B} {t : S} {G : Type κ}
    → next r f ≡ (ok b, t)
    → ((a : A) (s : S) → r ≡ (ok a, s) → f a s ≡ (ok b, t) → G)
    → G
next-cases r f h k = let (a, s, e, rest) = next-eq-ok r f h in k a s e rest

infixl 5 ◌>>=◌ ◌>>◌
abbrev pub ◌>>=◌ : {S E A B : Type 0} → Io S E A → (A → Io S E B) → Io S E B
◌>>=◌ m f s = next (m s) f

abbrev pub ◌>>◌ : {S E B : Type 0} → Io S E (Unit {0}) → Io S E B → Io S E B
m >> k = m >>= λ _. k

abbrev pub pure : {S E A : Type 0} → A → Io S E A
pure a s = (ok a, s)

abbrev pub fail : {S E A : Type 0} → E → Io S E A
fail e s = (err e, s)

abbrev pub lift : {S E A : Type 0} → Result E A → Io S E A
lift r s = (r, s)

unfoldable pub retag : {S E F A : Type 0} → (E → F) → Result E A × S → Result F A × S
retag f (ok a, s) = (ok a, s)
retag f (err e, s) = (err (f e), s)

-- `.map_err(f)`
abbrev pub with_err : {S E F A : Type 0} → (E → F) → Io S E A → Io S F A
with_err f m s = retag f (m s)

pub retag-eq-ok :
    {S E F A : Type 0} (f : E → F) (x : Result E A × S) {a : A} {t : S}
    → retag f x ≡ (ok a, t)
    → x ≡ (ok a, t)
unfolding retag
retag-eq-ok f (ok b, s) h = ground (arith, h)
retag-eq-ok f (err e, s) h = ground (arith, h)

pub map_err-eq-ok :
    {E F A : Type 0} (f : E → F) (r : Result E A) {a : A} → map_err f r ≡ ok a → r ≡ ok a
map_err-eq-ok f (ok b) h = cc h
map_err-eq-ok f (err e) h = absurd (cc h)

-- The state that a call leaves, its result unread: `let _ = m`.
abbrev pub after : {S E A : Type 0} → Io S E A → S → S
after m s = (m s).1

-- What a destructor does: `drop` runs on the state that `m` leaves, whatever `m` returns.
abbrev pub finally : {S E A : Type 0} → Io S E A → (S → S) → Io S E A
finally m drop s = let (r, t) = m s in (r, drop t)

abbrev pub on_failure : {S E A : Type 0} → (S → S) → Result E A × S → Result E A × S
on_failure clean (ok a, t) = (ok a, t)
on_failure clean (err e, t) = (err e, clean t)

-- `if let Err(e) = m { clean; return Err(e) }`
abbrev pub or_clean : {S E A : Type 0} → Io S E A → (S → S) → Io S E A
or_clean m clean s = on_failure clean (m s)

pub on_failure-eq-ok :
    {S E A : Type 0} (clean : S → S) (x : Result E A × S) {a : A} {t : S}
    → on_failure clean x ≡ (ok a, t)
    → x ≡ (ok a, t)
on_failure-eq-ok clean (ok a, s) h = h
on_failure-eq-ok clean (err e, s) h = absurd (ground (arith, h))

pub ok_injective : {E A : Type 0} {a b : A} → ◌≡◌ {A = Result E A} (ok a) (ok b) → a ≡ b
ok_injective h = cc h

-- The two halves of what a computation gives.
pub result_eq :
    {S E A : Type 0} {x : Result E A × S} {r : Result E A} {t : S} → x ≡ (r, t) → x.0 ≡ r
result_eq {S} {E} {A} h = ap (λ (x : Result E A × S). x.0) h

pub state_eq : {S E A : Type 0} {x : Result E A × S} {r : Result E A} {t : S} → x ≡ (r, t) → x.1 ≡ t
state_eq {S} {E} {A} h = ap (λ (x : Result E A × S). x.1) h
