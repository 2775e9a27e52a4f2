-- ===== src/Main/OutputName.antt =====
-- The file name that `vm_output_path` derives from a tag.
use openshell_image_builder.Base.{
  ℕ, ◌+◌, ◌<◌, ◌≤◌, leb, false, ok, ◌≢◌, true, ◌||◌, [], ◌∷◌, ◌++◌, map, ◌==◌, length,
  length-append, length-map, All, All-append, All-map, ◌≡◌, refl, ap, inl, inr, arith, Bool-cases,
  ◌∙◌,
}
use openshell_image_builder.Text.{Text, codes, is_ascii_alphanumeric, to_string_lossy}
use openshell_image_builder.Text.Laws.{Lacks}
use openshell_image_builder.FilePath.{parent}
use openshell_image_builder.FilePath.Laws.{IsName}
use openshell_image_builder.FilePath.Names.{file_name_self, parent_of_name}
use openshell_image_builder.VmImage.Build.{parent_or_current, output_name}
use openshell_image_builder.Main.{safe_char, vm_output_path}

-- A letter, a digit, ".", "-" or "_".
abbrev pub IsSafe : ℕ → Type 0
IsSafe c = (is_ascii_alphanumeric c || c == b'.' || c == b'-' || c == b'_') ≡ true

safe_char-IsSafe : (c : ℕ) → IsSafe (safe_char c)
unfolding safe_char is_ascii_alphanumeric
safe_char-IsSafe c =
    elim (Bool-cases (is_ascii_alphanumeric c || c == b'.' || c == b'-' || c == b'_')) [
      | inl safe ↦ rw safe safe
      | inr unsafe ↦ rw unsafe
    ]

map-IsSafe : (s : Text) → All IsSafe (map safe_char s)
map-IsSafe [] = tt
map-IsSafe (c ∷ s) = (safe_char-IsSafe c, map-IsSafe s)

suffix-IsSafe : All IsSafe (codes ".tar")
unfolding is_ascii_alphanumeric
suffix-IsSafe = (refl, (refl, (refl, (refl, tt))))

map-eq_self : (s : Text) → All IsSafe s → map safe_char s ≡ s
unfolding safe_char
map-eq_self [] _ = refl
map-eq_self (c ∷ s) (safe, h) = rw (safe, map-eq_self s h)

safe-Lacks : (s : Text) → All IsSafe s → Lacks b'/' s
unfolding is_ascii_alphanumeric
safe-Lacks s h = All-map (λ c safe e. absurd (ground arith)) s h

-- The name has only safe characters, so no "/" and it stays in the current directory; it is four
-- characters longer than the tag; and a tag of safe characters is kept as it is.
pub vm_output_path-IsSafe :
    (tag : Text)
    → All IsSafe (vm_output_path tag)
      × Lacks b'/' (vm_output_path tag)
      × (length (vm_output_path tag) ≡ length tag + 4)
      × (All IsSafe tag → vm_output_path tag ≡ tag ++ codes ".tar")
unfolding vm_output_path
vm_output_path-IsSafe tag =
    let safe =
      All-append IsSafe (map safe_char tag) (codes ".tar") (map-IsSafe tag) suffix-IsSafe in
    (
      safe,
      safe-Lacks (map safe_char tag ++ codes ".tar") safe,
      length-append (map safe_char tag) (codes ".tar")
          ∙ ap (λ (n : ℕ). n + 4) (length-map safe_char tag),
      λ h. rw (map-eq_self tag h),
    )

longer-ne : (p q : Text) → length q < 4 → 4 ≤ length p → p ≢ q
longer-ne p q short long e = let same = ap (λ (t : Text). length t) e in omega arith

safe-valid : (s : Text) → All IsSafe s → to_string_lossy s ≡ s
unfolding to_string_lossy is_ascii_alphanumeric
safe-valid [] _ = refl
safe-valid (c ∷ s) (safe, h) =
    let small : leb 0x110000 c ≡ false = ground arith in rw (small, safe-valid s h)

-- Where no output file is given, the build always has one: the name derived from the tag is a file
-- name, whatever the tag is, and its directory is the current one.
pub vm_output_path-named :
    (tag : Text)
    → (output_name (vm_output_path tag) ≡ ok (vm_output_path tag))
      × (parent_or_current (parent (vm_output_path tag)) ≡ codes ".")
unfolding output_name
vm_output_path-named tag =
    let (safe, lacks, long, _) = vm_output_path-IsSafe tag in
    let name = vm_output_path tag in
    let is_name : IsName name = (longer-ne name [] (omega arith) (omega arith), lacks) in
    (
      rw (
        file_name_self name is_name (longer-ne name (codes ".") (omega arith) (omega arith))
            (longer-ne name (codes "..") (omega arith) (omega arith)),
        safe-valid name safe,
      ),
      rw (parent_of_name name is_name),
    )
