-- ===== src/BuildScript.antt =====
-- build.rs: the archive that the build embeds. zstd, SHA-256, the environment and the two calls of
-- `std::fs` on bytes are parameters; a panic is an error with its message. The lines printed for cargo
-- are not modelled.
pub mod Hex
pub mod Embedding
use openshell_image_builder.Base.{
  ℕ, ◌+◌, ◌-◌, ◌/◌, ◌%◌, Bool, true, false, not, Option, none, some, List, [], ◌∷◌, ◌++◌, ◌==◌, ltb,
  if◌then◌else◌, is_empty, Result, ok, err, map_err,
}
use openshell_image_builder.Base.Io.{Io, ◌>>=◌, ◌>>◌, lift, with_err}
use openshell_image_builder.Text.{Text, codes, text_eq, starts_with}
use openshell_image_builder.FilePath.{FilePath, join}
use openshell_image_builder.Host.{IoError}
use openshell_image_builder.VmImage.Error.{display_path}

abbrev pub Bytes : Type 0
Bytes = List ℕ

pub record BuildHost (S : Type 0) : Type 0 where
  pub out_dir : Option FilePath
  pub archive_var : Option FilePath
  pub read : S → FilePath → Result IoError Bytes
  pub write : FilePath → Bytes → Io S IoError (Unit {0})
  pub encode_all : Bytes → ℕ → Result IoError Bytes
  pub decode : Bytes → Result IoError Bytes
  pub sha256 : Bytes → Bytes

abbrev pub archive_env : Text
archive_env = codes "OPENSHELL_BUILD_IMAGE_VM_ROOTFS_ARCHIVE"

abbrev pub archive_out : Text
archive_out = codes "vm-rootfs.tar.zst"

abbrev pub digest_out : Text
digest_out = codes "vm-rootfs.sha256"

abbrev pub zstd_magic : Bytes
zstd_magic = 0x28 ∷ 0xb5 ∷ 0x2f ∷ 0xfd ∷ []

abbrev pub compression_level : ℕ
compression_level = 12

-- `{byte:02x}`
unfoldable pub hex_digit : ℕ → ℕ
hex_digit n = if ltb n 10 then b'0' + n else b'a' + (n - 10)

unfoldable pub hex : Bytes → Text
hex [] = []
hex (byte ∷ bytes) = hex_digit (byte / 16) ∷ hex_digit (byte % 16) ∷ hex bytes

abbrev panic : Text → IoError → Text
panic what e = what ++ (codes ": " ++ e.message)

module _ {S : Type 0} (host : BuildHost S) where
  abbrev same_bytes : Bytes → FilePath → Bytes → Bytes → Result Text Bytes
  same_bytes contents archive compressed roundtrip =
      if text_eq roundtrip contents
      then ok compressed
      else err (
          codes "compressed "
          ++ (display_path archive ++ codes " does not decompress to the original bytes"))

  -- `zstd::Decoder::new(..).and_then(read_to_end)`
  abbrev decoded : Bytes → FilePath → Result Text Bytes
  decoded bytes archive =
      map_err (panic (codes "verify compressed " ++ display_path archive)) (host.decode bytes)

  abbrev check_roundtrip : Bytes → FilePath → Bytes → Result Text Bytes → Result Text Bytes
  check_roundtrip contents archive compressed (err e) = err e
  check_roundtrip contents archive compressed (ok roundtrip) =
      same_bytes contents archive compressed roundtrip

  abbrev check_encoded : Bytes → FilePath → Result Text Bytes → Result Text Bytes
  check_encoded contents archive (err e) = err e
  check_encoded contents archive (ok compressed) =
      check_roundtrip contents archive compressed (decoded compressed archive)

  unfoldable pub compress : Bytes → FilePath → Result Text Bytes
  compress contents archive = check_encoded contents archive (
      map_err (panic (codes "compress " ++ display_path archive))
        (host.encode_all contents compression_level))

  abbrev not_nothing : FilePath → Result Text Bytes → Result Text (Unit {0})
  not_nothing archive (err e) = err e
  not_nothing archive (ok bytes) =
      if is_empty bytes
      then err (codes "compressed " ++ (display_path archive ++ codes " decompresses to nothing"))
      else ok tt

  unfoldable pub verify_frame : Bytes → FilePath → Result Text (Unit {0})
  verify_frame contents archive = not_nothing archive (decoded contents archive)

  abbrev unless_err : {A : Type 0} → Result Text (Unit {0}) → A → Result Text A
  unless_err (err e) a = err e
  unless_err (ok _) a = ok a

  -- The bytes to embed.
  unfoldable pub compressed_of : Bytes → FilePath → Result Text Bytes
  compressed_of contents archive =
      if starts_with zstd_magic contents
      then unless_err (verify_frame contents archive) contents
      else compress contents archive

  abbrev pub not_empty : FilePath → Bytes → Result Text (Unit {0})
  not_empty archive contents =
      if is_empty contents
      then err (archive_env ++ (codes " is empty: " ++ display_path archive))
      else ok tt

  unfoldable pub write_out : FilePath → Bytes → Text → Io S Text (Unit {0})
  write_out out_dir archive digest = do
    with_err (panic (codes "write " ++ archive_out)) (host.write (join out_dir archive_out) archive)
    with_err (panic (codes "write " ++ digest_out)) (host.write (join out_dir digest_out) digest)

  unfoldable pub write_placeholders : FilePath → Io S Text (Unit {0})
  write_placeholders out_dir = write_out out_dir [] []

  unfoldable pub embed : FilePath → FilePath → Io S Text (Unit {0})
  embed out_dir archive = do
    contents ← λ s. (
      map_err
          (panic
            (codes "read " ++ (archive_env ++ (codes " (" ++ (display_path archive ++ codes ")")))))
          (host.read s archive),
      s,
    )
    lift (not_empty archive contents)
    compressed ← lift (compressed_of contents archive)
    write_out out_dir compressed (hex (host.sha256 compressed))

  abbrev with_archive : FilePath → Option FilePath → Io S Text (Unit {0})
  with_archive out_dir none = write_placeholders out_dir
  with_archive out_dir (some archive) = embed out_dir archive

  abbrev pub with_out_dir : Option FilePath → Option FilePath → Io S Text (Unit {0})
  with_out_dir none archive s = (err (codes "OUT_DIR not set"), s)
  with_out_dir (some out_dir) archive s = with_archive out_dir archive s

  unfoldable pub main : Io S Text (Unit {0})
  main = with_out_dir host.out_dir host.archive_var
