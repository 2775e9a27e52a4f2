-- ===== src/Containerfile/Injection.antt =====
-- The lines of the generated Containerfile, and the image reference in them.
use openshell_image_builder.Base.{
  ℕ, Bool, true, false, List, [], ◌∷◌, ◌++◌, append_assoc, any, All, All-append, All-map, ok, err,
  ◌≡◌, refl, ◌≢◌, ◌↔◌, ap, arith, inl, inr, Bool-cases, Result-cases,
}
use openshell_image_builder.Text.{Text, codes, is_whitespace, is_control, lines}
use openshell_image_builder.Text.Laws.{Lacks, lines-break, chomp-eq_self}
use openshell_image_builder.Containerfile.{
  invalid_image_reference, is_forbidden, parse_image_reference, containerfile_section, final_stage,
  template, generate,
}

-- What the documentation asks of a reference.
abbrev pub IsReference : Text → Type 0
IsReference image =
    (image ≢ []) × All (λ c. (is_whitespace c ≡ false) × (is_control c ≡ false)) image

allowed-any :
    (s : Text)
    → All (λ c. (is_whitespace c ≡ false) × (is_control c ≡ false)) s
    → any is_forbidden s ≡ false
unfolding is_forbidden
allowed-any [] _ = refl
allowed-any (c ∷ s) ((w, k), h) = ground (arith, allowed-any s h)

allowed_of_any :
    (s : Text)
    → any is_forbidden s ≡ false
    → All (λ c. (is_whitespace c ≡ false) × (is_control c ≡ false)) s
unfolding is_forbidden
allowed_of_any [] _ = tt
allowed_of_any (c ∷ s) h = (ground arith, allowed_of_any s (ground arith))

parse_image_reference-ok :
    (image out : Text) → parse_image_reference image ≡ ok out → IsReference image × (out ≡ image)
unfolding parse_image_reference
parse_image_reference-ok [] out h = absurd (cc h)
parse_image_reference-ok (c ∷ s) out h =
    (((λ e. cc e), allowed_of_any (c ∷ s) (ground arith)), ground arith)

-- A reference is accepted, unchanged, exactly when it is not empty and holds no white space and no
-- control character.
parse_image_reference_iff :
    (image : Text) → (parse_image_reference image ≡ ok image) ↔ IsReference image
parse_image_reference_iff image = (λ h. (parse_image_reference-ok image image h).0, accepted image)
  where
    accepted : (s : Text) → IsReference s → parse_image_reference s ≡ ok s
    accepted [] (ne, _) = absurd (ne refl)
    accepted (c ∷ s) (_, h) = unfold parse_image_reference in rw (allowed-any (c ∷ s) h)

abbrev copy_lines : Bool → List Text
copy_lines false = []
copy_lines true =
    codes "COPY build-containerfile /tmp/build-containerfile"
    ∷ codes "RUN cp /tmp/build-containerfile \"$HOME/Containerfile\" && rm /tmp/build-containerfile"
    ∷ []
    ∷ []

abbrev from_line : Text → Text
from_line image = codes "FROM " ++ (image ++ codes " AS system")

-- The lines that the Containerfile is meant to have.
abbrev pub expected_lines : Text → Bool → List Text
expected_lines image copy =
    codes "# System base"
    ∷ from_line image
    ∷ []
    ∷ codes "USER 0"
    ∷ []
    ∷ codes "# Final base image"
    ∷ codes "FROM system AS final"
    ∷ []
    ∷ (copy_lines copy ++ [] ∷ [])

from_line-Lacks :
    (b : ℕ) (image : Text)
    → Lacks b (codes "FROM ")
    → Lacks b (codes " AS system")
    → Lacks b image
    → Lacks b (from_line image)
from_line-Lacks b image start end mid =
    All-append (λ c. c ≢ b) (codes "FROM ") (image ++ codes " AS system") start
      (All-append (λ c. c ≢ b) image (codes " AS system") mid end)

abbrev footer : Bool → Text
footer copy = 10 ∷ (codes "USER 0" ++ (10 ∷ (10 ∷ final_stage copy)))

lines-footer :
    (copy : Bool)
    → lines (footer copy)
      ≡ []
        ∷ codes "USER 0"
        ∷ []
        ∷ codes "# Final base image"
        ∷ codes "FROM system AS final"
        ∷ []
        ∷ (copy_lines copy ++ [] ∷ [])
unfolding lines final_stage containerfile_section
lines-footer true = refl
lines-footer false = refl

template-from_line :
    (image : Text) (copy : Bool)
    → template image copy ≡ codes "# System base" ++ (10 ∷ (from_line image ++ (10 ∷ footer copy)))
unfolding template
template-from_line image copy = rw (append_assoc image (codes " AS system") (10 ∷ footer copy))

lines-template :
    (image : Text) (copy : Bool)
    → Lacks 10 image
    → Lacks 13 image
    → lines (template image copy) ≡ expected_lines image copy
lines-template image copy ten thirteen =
    let ten' = from_line-Lacks 10 image (omega arith) (omega arith) ten in
    let thirteen' = from_line-Lacks 13 image (omega arith) (omega arith) thirteen in
    rw (
      template-from_line image copy,
      lines-break (codes "# System base") (from_line image ++ (10 ∷ footer copy)) (omega arith),
      chomp-eq_self (codes "# System base") (omega arith),
      lines-break (from_line image) (footer copy) ten',
      chomp-eq_self (from_line image) thirteen',
      lines-footer copy,
    )

no_break : (b : ℕ) (image : Text) → is_whitespace b ≡ true → IsReference image → Lacks b image
no_break b image blank (_, h) = All-map (λ c (w, _) e. cc (ap is_whitespace e, blank, w)) image h

-- Whatever reference is accepted, the generated Containerfile has exactly the intended lines: the
-- reference stands between FROM and AS on the second one, and no line is added or cut.
pub generate-lines :
    (from : Text) (copy : Bool) (out : Text)
    → generate from copy ≡ ok out
    → IsReference from × (lines out ≡ expected_lines from copy)
unfolding generate is_whitespace
generate-lines from copy out h = elim (Result-cases (parse_image_reference from)) [
  | inr (e, refused) ↦ absurd (ground (arith, refused))
  | inl (image, accepted) ↦
      let (reference, same) = parse_image_reference-ok from image accepted in
      let made : out ≡ template from copy = ground (arith, accepted, same) in
      (
        reference,
        rw made (
            lines-template from copy (no_break 10 from refl reference)
              (no_break 13 from refl reference)),
      )
]

-- A reference that is not one is refused, with the reference in the error, and nothing is generated.
pub generate-invalid :
    (from : Text) (copy : Bool)
    → ¬ IsReference from
    → generate from copy ≡ err (invalid_image_reference from)
unfolding generate
generate-invalid from copy h = rw (refused from h)
  where
    refused :
        (s : Text) → ¬ IsReference s → parse_image_reference s ≡ err (invalid_image_reference s)
    refused [] _ = unfold parse_image_reference in refl
    refused (c ∷ s) bad = elim (Bool-cases (any is_forbidden (c ∷ s))) [
      | inl found ↦ unfold parse_image_reference in rw found
      | inr none_found ↦ absurd (bad ((λ e. cc e), allowed_of_any (c ∷ s) none_found))
    ]
