-- ===== src/Base/Passes.antt =====
-- Computations that succeed, and the state that they pass on.
use openshell_image_builder.Base.{Result, ok, err, ◌≡◌, refl, ap}
use openshell_image_builder.Base.Io.{Io, next, retag, on_failure}

-- A computation has succeeded.
abbrev pub Passes : {S E A : Type 0} → Result E A × S → Type 0
Passes {A = A} x = (a : A) × (x.0 ≡ ok a)

pub next-Passes :
    {S E A B : Type 0} (x : Result E A × S) (f : A → Io S E B)
    → Passes x
    → ((a : A) → x.0 ≡ ok a → Passes (f a x.1))
    → Passes (next x f)
unfolding next
next-Passes (ok a, s) f h k = k a refl
next-Passes (err e, s) f (a, h) k = absurd (cc h)

pub retag-Passes :
    {S E F A : Type 0} (f : E → F) (x : Result E A × S) → Passes x → Passes (retag f x)
unfolding retag
retag-Passes f (ok a, s) h = (a, refl)
retag-Passes f (err e, s) (a, h) = absurd (cc h)

pub retag-state : {S E F A : Type 0} (f : E → F) (x : Result E A × S) → (retag f x).1 ≡ x.1
unfolding retag
retag-state f (ok a, s) = refl
retag-state f (err e, s) = refl

pub cleaned-Passes :
    {S E A : Type 0} (clean : S → S) (x : Result E A × S) → Passes x → Passes (on_failure clean x)
cleaned-Passes clean (ok a, s) h = (a, refl)
cleaned-Passes clean (err e, s) (a, h) = absurd (cc h)

pub cleaned-state :
    {S E A : Type 0} (clean : S → S) (x : Result E A × S) → Passes x → (on_failure clean x).1 ≡ x.1
cleaned-state clean (ok a, s) h = refl
cleaned-state clean (err e, s) (a, h) = absurd (cc h)

-- A call that returns nothing, as the pair that it is.
pub passed-eq : {S E : Type 0} (x : Result E (Unit {0}) × S) → x.0 ≡ ok tt → x ≡ (ok tt, x.1)
passed-eq {S} {E} x h = ap (λ (r : Result E (Unit {0})). (r, x.1)) h
