-- ===== src/Containerfile.antt =====
-- src/containerfile.rs: the check of an image reference and the text of the Containerfile.
pub mod Injection
use openshell_image_builder.Base.{
  ℕ, Bool, true, false, ◌||◌, [], ◌∷◌, ◌++◌, if◌then◌else◌, is_empty, any, Result, ok, err, map_err,
}
use openshell_image_builder.Text.{Text, codes, is_whitespace, is_control}

pub data ContainerfileError : Type 0 where
  invalid_image_reference : Text → ContainerfileError

-- `Display`; how `{:?}` quotes a text is std's.
unfoldable pub display : (Text → Text) → ContainerfileError → Text
display debug (invalid_image_reference image) =
    codes "invalid image reference "
    ++ (debug image
        ++ codes ": expected a nonempty reference without whitespace or control characters")

-- A character that ends the reference in a Containerfile, or that has no place in one.
unfoldable pub is_forbidden : ℕ → Bool
is_forbidden c = is_whitespace c || is_control c

unfoldable pub parse_image_reference : Text → Result ContainerfileError Text
parse_image_reference image =
    if is_empty image || any is_forbidden image
    then err (invalid_image_reference image)
    else ok image

-- Line feeds are written as code points: the template has one line to a text.
abbrev newline : Text
newline = 10 ∷ []

unfoldable pub containerfile_section : Bool → Text
containerfile_section copy_containerfile =
    if copy_containerfile
    then codes "COPY build-containerfile /tmp/build-containerfile"
      ++ (newline
          ++ (codes
                "RUN cp /tmp/build-containerfile \"$HOME/Containerfile\" && rm /tmp/build-containerfile"
              ++ (newline ++ newline)))
    else []

unfoldable pub final_stage : Bool → Text
final_stage copy_containerfile =
    codes "# Final base image"
    ++ (newline
        ++ (codes "FROM system AS final"
            ++ (newline ++ (newline ++ (containerfile_section copy_containerfile ++ newline)))))

-- What `format!` makes of an accepted image.
unfoldable pub template : Text → Bool → Text
template image copy_containerfile =
    codes "# System base"
    ++ (newline
        ++ (codes "FROM "
            ++ (image
                ++ (codes " AS system"
                    ++ (newline
                        ++ (newline
                            ++ (codes "USER 0"
                                ++ (newline ++ (newline ++ final_stage copy_containerfile)))))))))

abbrev with_template : Bool → Result ContainerfileError Text → Result ContainerfileError Text
with_template copy_containerfile (ok image) = ok (template image copy_containerfile)
with_template copy_containerfile (err e) = err e

unfoldable pub generate : Text → Bool → Result ContainerfileError Text
generate from copy_containerfile = with_template copy_containerfile (parse_image_reference from)
