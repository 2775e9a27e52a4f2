-- ===== src/Tests/Texts.antt =====
-- The Containerfile, the output's name and the build script at concrete inputs.
use openshell_image_builder.Base.{
  ℕ, ◌+◌, ◌*◌, Bool, true, false, Option, none, some, List, [], ◌∷◌, ◌++◌, length, All, Result, ok,
  err, ◌≡◌, refl, ◌↔◌, ◌≢◌, arith,
}
use openshell_image_builder.Text.{
  Text, codes, is_whitespace, is_control, is_ascii_alphanumeric, lines,
}
use openshell_image_builder.Text.Laws.{Lacks}
use openshell_image_builder.Containerfile.{parse_image_reference, is_forbidden, template, generate}
use openshell_image_builder.Containerfile.Injection.{IsReference, expected_lines, generate-lines}
use openshell_image_builder.Main.{vm_output_path}
use openshell_image_builder.Main.OutputName.{IsSafe, vm_output_path-IsSafe}
use openshell_image_builder.BuildScript.{BuildHost, hex}
use openshell_image_builder.BuildScript
use openshell_image_builder.BuildScript.Hex.{unhex, IsHexDigit, hex-unhex}
use openshell_image_builder.BuildScript.Embedding.{IsEmbedded, main-IsEmbedded}
use openshell_image_builder.Tests.World.{failure}

abbrev fedora : Text
fedora = codes "fedora:42"

abbrev two_words : Text
two_words = codes "a b"

fedora-generated : generate fedora true ≡ ok (template fedora true)
unfolding generate parse_image_reference is_forbidden is_whitespace is_control
fedora-generated = refl

generate-lines_example :
    IsReference fedora × (lines (template fedora true) ≡ expected_lines fedora true)
generate-lines_example = generate-lines fedora true (template fedora true) fedora-generated

two_words-bad : ¬ IsReference two_words
unfolding is_whitespace
two_words-bad (_, (_, ((blank, _), _))) = cc blank

vm_output_path-IsSafe_example :
    All IsSafe (vm_output_path fedora)
    × Lacks b'/' (vm_output_path fedora)
    × (length (vm_output_path fedora) ≡ length fedora + 4)
    × (All IsSafe fedora → vm_output_path fedora ≡ fedora ++ codes ".tar")
vm_output_path-IsSafe_example = vm_output_path-IsSafe fedora

hex-unhex_example :
    (unhex (hex (0x28 ∷ 0xfd ∷ [])) ≡ 0x28 ∷ 0xfd ∷ [])
    × All IsHexDigit (hex (0x28 ∷ 0xfd ∷ []))
    × (length (hex (0x28 ∷ 0xfd ∷ [])) ≡ 2 * length {A = ℕ} (0x28 ∷ 0xfd ∷ []))
hex-unhex_example = hex-unhex (0x28 ∷ 0xfd ∷ []) (omega arith, (omega arith, tt))

-- An archive of one byte, and a compression that puts one byte in front.
abbrev host : BuildHost (List (Text × Text))
host = record {
  out_dir = some (codes "/out");
  archive_var = some (codes "/a.tar");
  read = λ s p. ok (7 ∷ []);
  write = λ p bytes s. (ok tt, (p, bytes) ∷ s);
  encode_all = λ bytes level. ok (0x28 ∷ bytes);
  decode = λ bytes. elim bytes [ [] ↦ err failure | b ∷ bs ↦ ok bs ];
  sha256 = λ bytes. bytes;
}

abbrev written : List (Text × Text)
written =
    (codes "/out/vm-rootfs.sha256", codes "2807")
    ∷ (codes "/out/vm-rootfs.tar.zst", 0x28 ∷ 7 ∷ [])
    ∷ []

host-written : BuildScript.main host [] ≡ (ok tt, written)
unfolding openshell_image_builder.BuildScript.main openshell_image_builder.BuildScript.embed
    openshell_image_builder.BuildScript.compressed_of openshell_image_builder.BuildScript.compress
    openshell_image_builder.BuildScript.write_out openshell_image_builder.BuildScript.hex
    openshell_image_builder.BuildScript.hex_digit openshell_image_builder.FilePath.join
    openshell_image_builder.Text.starts_with openshell_image_builder.Text.text_eq
    openshell_image_builder.Base.Io.next openshell_image_builder.Base.Io.retag
host-written = refl

main-IsEmbedded_example : IsEmbedded host (codes "/out") (codes "/a.tar") [] written
main-IsEmbedded_example =
    main-IsEmbedded host (codes "/out") (codes "/a.tar") [] written refl refl host-written
