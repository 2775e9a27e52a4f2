-- ===== src/Text.antt =====
-- Rust's `str`, as far as the program walks it: a text is the list of its code points. A unit from
-- 0x110000 up stands for a sequence of bytes of an `OsStr` that is not valid UTF-8.
-- These are std's operations (`char::is_whitespace`, `str::trim`, `str::lines`, `str::split_once`,
-- the decimal `Display` of an unsigned integer and so on), not code of the repository.
pub mod Laws
use Prim.Native.Char.{code}
use openshell_image_builder.Base.{
  ℕ, zero, suc, ◌+◌, ◌/◌, ◌%◌, String, Bool, true, false, not, ◌&&◌, ◌||◌, Option, none, some, List,
  [], ◌∷◌, ◌++◌, ltb, leb, ◌==◌, if◌then◌else◌, is_empty, any, Result, ok, err,
}

abbrev pub Text : Type 0
Text = List ℕ

abbrev pub codes : String → Text
codes String.[] = []
codes (String.◌∷◌ c s) = code c ∷ codes s

-- `char::is_whitespace`: the Unicode property White_Space.
unfoldable pub is_whitespace : ℕ → Bool
is_whitespace c =
    (leb 9 c && leb c 13)
    || c == 0x20
    || c == 0x85
    || c == 0xa0
    || c == 0x1680
    || (leb 0x2000 c && leb c 0x200a)
    || c == 0x2028
    || c == 0x2029
    || c == 0x202f
    || c == 0x205f
    || c == 0x3000

-- `char::is_control`: the Unicode category Cc.
unfoldable pub is_control : ℕ → Bool
is_control c = leb c 0x1f || (leb 0x7f c && leb c 0x9f)

-- `char::is_ascii_alphanumeric`
unfoldable pub is_ascii_alphanumeric : ℕ → Bool
is_ascii_alphanumeric c =
    (leb b'0' c && leb c b'9') || (leb b'A' c && leb c b'Z') || (leb b'a' c && leb c b'z')

-- `==` of two texts.
unfoldable pub text_eq : Text → Text → Bool
text_eq [] [] = true
text_eq [] (d ∷ t) = false
text_eq (c ∷ s) [] = false
text_eq (c ∷ s) (d ∷ t) = c == d && text_eq s t

-- `s.strip_prefix(p)`, with the prefix first.
unfoldable pub strip_prefix : Text → Text → Option Text
strip_prefix [] s = some s
strip_prefix (c ∷ p) [] = none
strip_prefix (c ∷ p) (d ∷ s) = if c == d then strip_prefix p s else none

unfoldable pub starts_with : Text → Text → Bool
unfolding strip_prefix
starts_with p s = elim (strip_prefix p s) [ none ↦ false | some _ ↦ true ]

unfoldable pub trim_start : Text → Text
unfolding is_whitespace
trim_start [] = []
trim_start (c ∷ s) = if is_whitespace c then trim_start s else c ∷ s

-- What is left of a character when the trimmed rest is known.
unfoldable pub trim_end : Text → Text
unfolding is_whitespace
trim_end [] = []
trim_end (c ∷ s) = let r = trim_end s in if is_whitespace c && is_empty r then [] else c ∷ r

unfoldable pub trim : Text → Text
unfolding trim_start trim_end
trim s = trim_end (trim_start s)

-- `s.split(stop).next()`: the text before the first character for which `stop` holds.
unfoldable pub before : (ℕ → Bool) → Text → Text
before stop [] = []
before stop (c ∷ s) = if stop c then [] else c ∷ before stop s

-- `s.split_once(sep)`: what stands before and behind the first `sep`.
unfoldable pub split_once : Text → Text → Option (Text × Text)
unfolding strip_prefix
split_once sep [] = elim (strip_prefix sep []) [ none ↦ none | some r ↦ some ([], r) ]
split_once sep (c ∷ s) = elim (strip_prefix sep (c ∷ s)) [
  | some r ↦ some ([], r)
  | none ↦ elim (split_once sep s) [ none ↦ none | some (a, b) ↦ some (c ∷ a, b) ]
]

-- A line that was ended by "\n" loses one "\r" before it.
unfoldable pub chomp : Text → Text
chomp [] = []
chomp (c ∷ []) = if c == 13 then [] else c ∷ []
chomp (c ∷ d ∷ s) = c ∷ chomp (d ∷ s)

lines_from : Text → Text → List Text
unfolding chomp
lines_from cur [] = if is_empty cur then [] else cur ∷ []
lines_from cur (c ∷ s) = elim (c == 10) [
  | true ↦ chomp cur ∷ lines_from [] s
  | false ↦ lines_from (cur ++ c ∷ []) s
]

-- `s.lines()`
unfoldable pub lines : Text → List Text
unfolding lines_from
lines s = lines_from [] s

-- `parts.join(sep)`
unfoldable pub join : Text → List Text → Text
join sep [] = []
join sep (p ∷ []) = p
join sep (p ∷ q ∷ ps) = p ++ (sep ++ join sep (q ∷ ps))

show_fuel : ℕ → ℕ → Text → Text
show_fuel zero n out = out
show_fuel (suc f) n out =
    let rest = show_fuel f (n / 10) ((b'0' + n % 10) ∷ out) in
    if ltb n 10 then (b'0' + n) ∷ out else rest

-- The decimal `Display` of an unsigned integer: a number has at most as many digits as `n + 1`.
unfoldable pub show : ℕ → Text
unfolding show_fuel
show n = show_fuel (suc n) n []

-- `OsStr::to_str`: only valid UTF-8 is a `str`.
unfoldable pub to_str : Text → Option Text
to_str s = if any (λ c. leb 0x110000 c) s then none else some s

-- `OsStr::to_string_lossy`: U+FFFD stands for each invalid sequence.
unfoldable pub to_string_lossy : Text → Text
to_string_lossy [] = []
to_string_lossy (c ∷ s) = (if leb 0x110000 c then 0xfffd else c) ∷ to_string_lossy s
