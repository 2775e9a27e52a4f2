-- ===== src/Text/Laws.antt =====
-- The laws of the text operations that the components share.
use openshell_image_builder.Base.{
  ℕ, zero, suc, ◌+◌, ◌/◌, ◌%◌, ◌≤◌, Bool, true, false, some, [], ◌∷◌, ◌++◌, append_assoc,
  append-nil, ltb, All, ◌≡◌, refl, ap, ◌∙◌, sym, ◌*◌, ◌-◌, ◌<◌, ◌≢◌, ◌↔◌, arith, inl, inr,
  Bool-cases, is_empty, ◌&&◌,
}
use native.Mathlib.Decide.{dec_lt}
use openshell_image_builder.Text.{
  Text, is_whitespace, text_eq, strip_prefix, trim_start, trim_end, trim, before, chomp, lines_from,
  lines, show_fuel, show,
}

-- A text without the character `c`.
abbrev pub Lacks : ℕ → Text → Type 0
Lacks b = All (λ c. c ≢ b)

pub text_eq_refl : (s : Text) → text_eq s s ≡ true
unfolding text_eq
text_eq_refl [] = refl
text_eq_refl (c ∷ s) = ground (arith, text_eq_refl s)

pub text_eq-eq : (s t : Text) → text_eq s t ≡ true → s ≡ t
unfolding text_eq
text_eq-eq [] [] h = refl
text_eq-eq [] (d ∷ t) h = cc
text_eq-eq (c ∷ s) [] h = cc
text_eq-eq (c ∷ s) (d ∷ t) h = ground (arith, text_eq-eq s t)

pub text_eq_iff : (s t : Text) → (text_eq s t ≡ true) ↔ (s ≡ t)
text_eq_iff s t = (text_eq-eq s t, λ e. rw e (text_eq_refl t))

pub strip_prefix-append : (p s : Text) → strip_prefix p (p ++ s) ≡ some s
unfolding strip_prefix
strip_prefix-append [] s = refl
strip_prefix-append (c ∷ p) s = ground (arith, strip_prefix-append p s)

-- A common beginning does not matter.
pub strip_prefix-cancel : (b p s : Text) → strip_prefix (b ++ p) (b ++ s) ≡ strip_prefix p s
unfolding strip_prefix
strip_prefix-cancel [] p s = refl
strip_prefix-cancel (c ∷ b) p s = ground (arith, strip_prefix-cancel b p s)

pub strip_prefix-eq_some : (p s r : Text) → strip_prefix p s ≡ some r → s ≡ p ++ r
unfolding strip_prefix
strip_prefix-eq_some [] s r h = ground arith
strip_prefix-eq_some (c ∷ p) [] r h = cc
strip_prefix-eq_some (c ∷ p) (d ∷ s) r h = ground (arith, strip_prefix-eq_some p s r)

-- A line break ends the line that stands before it.
lines_from-break :
    (cur line rest : Text)
    → Lacks 10 line
    → lines_from cur (line ++ 10 ∷ rest) ≡ chomp (cur ++ line) ∷ lines_from [] rest
unfolding lines_from
lines_from-break cur [] rest _ = rw append-nil
lines_from-break cur (c ∷ line) rest (h, k) =
    ground (arith, lines_from-break (cur ++ c ∷ []) line rest k, append_assoc cur (c ∷ []) line)

pub lines-break :
    (line rest : Text) → Lacks 10 line → lines (line ++ 10 ∷ rest) ≡ chomp line ∷ lines rest
unfolding lines
lines-break line rest h = lines_from-break [] line rest h

-- A line without "\r" is left as it is.
pub chomp-eq_self : (s : Text) → Lacks 13 s → chomp s ≡ s
unfolding chomp
chomp-eq_self [] _ = refl
chomp-eq_self (c ∷ []) h = ground arith
chomp-eq_self (c ∷ d ∷ s) (h, k) = ap (λ (t : Text). c ∷ t) (chomp-eq_self (d ∷ s) k)

-- A text with no white space at its ends.
abbrev pub NoBlank : Text → Type 0
NoBlank = All (λ c. is_whitespace c ≡ false)

pub trim_start-eq_self : (s : Text) → NoBlank s → trim_start s ≡ s
unfolding trim_start
trim_start-eq_self [] _ = refl
trim_start-eq_self (c ∷ s) (h, k) = rw h

pub trim_end-eq_self : (s : Text) → NoBlank s → trim_end s ≡ s
unfolding trim_end
trim_end-eq_self [] _ = refl
trim_end-eq_self (c ∷ s) (h, k) = rw (h, trim_end-eq_self s k)

pub trim-eq_self : (s : Text) → NoBlank s → trim s ≡ s
unfolding trim
trim-eq_self s h = rw (trim_start-eq_self s h) (trim_end-eq_self s h)

-- Trimming the end of a text that a character which is not white space starts.
pub trim_end-visible :
    (c : ℕ) (s : Text) → is_whitespace c ≡ false → trim_end (c ∷ s) ≡ c ∷ trim_end s
unfolding trim_end
trim_end-visible c s h = rw h

trim_end_idem : (s : Text) → trim_end (trim_end s) ≡ trim_end s
unfolding trim_end
trim_end_idem [] = refl
trim_end_idem (c ∷ s) = elim (Bool-cases (is_whitespace c && is_empty (trim_end s))) [
  | inl blank ↦ rw blank
  | inr seen ↦ rw (seen, trim_end_idem s, seen)
]

pub trim_end-trim : (s : Text) → trim_end (trim s) ≡ trim s
unfolding trim
trim_end-trim s = trim_end_idem (trim_start s)

-- A text with no white space in its first part, and trimmed behind it.
pub trim_end-append : (a s : Text) → NoBlank a → trim_end s ≡ s → trim_end (a ++ s) ≡ a ++ s
trim_end-append [] s _ h = h
trim_end-append (c ∷ a) s (visible, k) h =
    trim_end-visible c (a ++ s) visible ∙ ap (λ (t : Text). c ∷ t) (trim_end-append a s k h)

pub trim-visible :
    (c : ℕ) (s : Text) → is_whitespace c ≡ false → trim_end (c ∷ s) ≡ c ∷ s → trim (c ∷ s) ≡ c ∷ s
unfolding trim trim_start
trim-visible c s h k = rw (h, k)

-- A common beginning does not matter.
pub text_eq-cancel : (b p s : Text) → text_eq (b ++ p) (b ++ s) ≡ text_eq p s
unfolding text_eq
text_eq-cancel [] p s = refl
text_eq-cancel (c ∷ b) p s = ground (arith, text_eq-cancel b p s)

pub before-eq_self : (stop : ℕ → Bool) (s : Text) → All (λ c. stop c ≡ false) s → before stop s ≡ s
unfolding before
before-eq_self stop [] _ = refl
before-eq_self stop (c ∷ s) (h, k) = rw (h, before-eq_self stop s k)

-- Every character of a printed number is a digit.
abbrev pub IsDigit : ℕ → Type 0
IsDigit c = (b'0' ≤ c) × (c ≤ b'9')

show_fuel-IsDigit : (f n : ℕ) (out : Text) → All IsDigit out → All IsDigit (show_fuel f n out)
unfolding show_fuel
show_fuel-IsDigit zero n out h = h
show_fuel-IsDigit (suc f) n out h = elim (Bool-cases (ltb n 10)) [
  | inl small ↦ rw small ((omega arith, ground arith), h)
  | inr large ↦
      rw large
        (show_fuel-IsDigit f (n / 10) ((b'0' + n % 10) ∷ out) ((omega arith, omega arith), h))
]

pub show-IsDigit : (n : ℕ) → All IsDigit (show n)
unfolding show
show-IsDigit n = show_fuel-IsDigit (suc n) n [] tt

-- The number that decimal digits spell, behind those that `acc` stands for.
read_from : ℕ → Text → ℕ
read_from acc [] = acc
read_from acc (c ∷ s) = read_from (acc * 10 + (c - b'0')) s

read_from-show_fuel :
    (f n : ℕ) (out : Text) → n < f → read_from 0 (show_fuel f n out) ≡ read_from n out
unfolding show_fuel read_from
read_from-show_fuel zero n out h = absurd (omega arith)
read_from-show_fuel (suc f) n out h = elim (dec_lt n 10) [
  | yes last ↦ ground (arith, last)
  | no more ↦
      let digit : n / 10 * 10 + (b'0' + n % 10 - b'0') ≡ n = omega arith in
      let rest = read_from-show_fuel f (n / 10) ((b'0' + n % 10) ∷ out) (omega arith) in
      ground (arith, more, digit, rest)
]

read_from-show : (n : ℕ) → read_from 0 (show n) ≡ n
unfolding show read_from
read_from-show n = read_from-show_fuel (suc n) n [] (omega arith)

-- Different numbers have different texts.
pub show_injective : (m n : ℕ) → show m ≡ show n → m ≡ n
show_injective m n h =
    sym (read_from-show m) ∙ (ap (λ (s : Text). read_from 0 s) h ∙ read_from-show n)
