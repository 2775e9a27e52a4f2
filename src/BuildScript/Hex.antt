-- ===== src/BuildScript/Hex.antt =====
-- `hex` of build.rs, read back.
use openshell_image_builder.Base.{
  ℕ, ◌+◌, ◌-◌, ◌*◌, ◌/◌, ◌%◌, ◌<◌, ◌≤◌, [], ◌∷◌, ltb, if◌then◌else◌, length, All, ◌≡◌, refl, ap,
  ◌⊎◌, arith,
}
use openshell_image_builder.Text.{Text}
use openshell_image_builder.BuildScript.{Bytes, hex_digit, hex}

-- The value of a digit of a hexadecimal text.
abbrev pub digit_value : ℕ → ℕ
digit_value c = if ltb c b'a' then c - b'0' else c - b'a' + 10

-- The bytes that a text of digit pairs spells.
unfoldable pub unhex : Text → Bytes
unhex [] = []
unhex (c ∷ []) = []
unhex (c ∷ d ∷ s) = (digit_value c * 16 + digit_value d) ∷ unhex s

-- "0" to "9" or "a" to "f".
abbrev pub IsHexDigit : ℕ → Type 0
IsHexDigit c = ((b'0' ≤ c) × (c ≤ b'9')) ⊎ ((b'a' ≤ c) × (c ≤ b'f'))

digit-value : (n : ℕ) → n < 16 → digit_value (hex_digit n) ≡ n
unfolding hex_digit
digit-value n h = ground arith

digit-IsHexDigit : (n : ℕ) → n < 16 → IsHexDigit (hex_digit n)
unfolding hex_digit
digit-IsHexDigit n h = ground arith

-- Every byte is written as two lower-case hexadecimal digits, from which it can be read back.
pub hex-unhex :
    (bytes : Bytes)
    → All (λ b. b < 256) bytes
    → (unhex (hex bytes) ≡ bytes)
      × All IsHexDigit (hex bytes)
      × (length (hex bytes) ≡ 2 * length bytes)
unfolding hex unhex
hex-unhex [] _ = (refl, tt, refl)
hex-unhex (b ∷ bytes) (small, h) =
    let (back, digits, size) = hex-unhex bytes h in
    let high : digit_value (hex_digit (b / 16)) ≡ b / 16 = digit-value (b / 16) (omega arith) in
    let low : digit_value (hex_digit (b % 16)) ≡ b % 16 = digit-value (b % 16) (omega arith) in
    (
      rw (high, low, back) (ap (λ (n : ℕ). n ∷ bytes) (omega arith)),
      (digit-IsHexDigit (b / 16) (omega arith), (digit-IsHexDigit (b % 16) (omega arith), digits)),
      omega (arith, size),
    )
