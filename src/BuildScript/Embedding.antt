-- ===== src/BuildScript/Embedding.antt =====
-- What the build script embeds.
use mathlib.Core.Path.{subst}
use openshell_image_builder.Base.{
  true, false, Option, some, [], ◌∷◌, is_empty, ok, ◌≡◌, sym, ◌≢◌, ◌∙◌, ap, inl, inr, arith,
  Bool-cases, Result-cases,
}
use openshell_image_builder.Base.Io.{
  next-cases, retag-eq-ok, map_err-eq-ok, result_eq, state_eq, ok_injective,
}
use openshell_image_builder.Text.{text_eq, starts_with}
use openshell_image_builder.Text.Laws.{text_eq_iff}
use openshell_image_builder.FilePath.{FilePath, join}
use openshell_image_builder.BuildScript.{
  Bytes, BuildHost, archive_out, digest_out, zstd_magic, compression_level, not_empty, with_out_dir,
  hex, compress, verify_frame, compressed_of, write_out, embed, main,
}

module _ {S : Type 0} (host : BuildHost S) where
  -- The bytes to embed decode: to the archive itself, or, for an archive that came compressed and is
  -- kept as it is, to something that is not nothing.
  pub data IsSound (contents : Bytes) : Bytes → Type 0 where
    compressed_here :
        {compressed : Bytes}
        → starts_with zstd_magic contents ≡ false
        → host.decode compressed ≡ ok contents
        → IsSound contents compressed
    came_compressed :
        {decoded : Bytes}
        → starts_with zstd_magic contents ≡ true
        → host.decode contents ≡ ok decoded
        → decoded ≢ []
        → IsSound contents contents

  verified :
      (contents archive : Bytes)
      → verify_frame host contents archive ≡ ok tt
      → (decoded : Bytes) × (host.decode contents ≡ ok decoded) × (decoded ≢ [])
  unfolding verify_frame
  verified contents archive h = elim (Result-cases (host.decode contents)) [
    | inr (e, failed) ↦ absurd (cc (rw failed at h))
    | inl (decoded, read) ↦
        let full : is_empty decoded ≡ false = ground (arith, h, read) in
        (decoded, read, λ e. cc (ap is_empty e, full))
  ]

  compress-decode :
      (contents archive compressed : Bytes)
      → compress host contents archive ≡ ok compressed
      → host.decode compressed ≡ ok contents
  unfolding compress
  compress-decode contents archive compressed h =
      elim (Result-cases (host.encode_all contents compression_level)) [
        | inr (e, failed) ↦ absurd (cc (rw failed at h))
        | inl (bytes, made) ↦ elim (Result-cases (host.decode bytes)) [
          | inr (e, failed) ↦ absurd (cc (rw (made, failed) at h))
          | inl (back, read) ↦ elim (Bool-cases (text_eq back contents)) [
            | inr differ ↦ absurd (cc (rw (made, read, differ) at h))
            | inl same ↦
                let kept : bytes ≡ compressed = ok_injective (rw (made, read, same) at h) in
                rw (← kept, read, (text_eq_iff back contents).0 same)
          ]
        ]
      ]

  compressed_of-IsSound :
      (contents archive compressed : Bytes)
      → compressed_of host contents archive ≡ ok compressed
      → IsSound contents compressed
  unfolding compressed_of
  compressed_of-IsSound contents archive compressed h =
      elim (Bool-cases (starts_with zstd_magic contents)) [
        | inr plain ↦
            compressed_here plain (compress-decode contents archive compressed (rw plain at h))
        | inl magic ↦ elim (Result-cases (verify_frame host contents archive)) [
          | inr (e, failed) ↦ absurd (cc (rw (magic, failed) at h))
          | inl (_, passed) ↦
              let (decoded, read, full) = verified contents archive passed in
              let kept : contents ≡ compressed = ok_injective (rw (magic, passed) at h) in
              subst (IsSound contents) kept (came_compressed magic read full)
        ]
      ]

  -- What a successful build with an archive has written.
  pub record IsEmbedded (out_dir archive : FilePath) (s t : S) : Type 0 where
    pub contents : Bytes
    pub read : host.read s archive ≡ ok contents
    pub nonempty : contents ≢ []
    pub compressed : Bytes
    pub sound : IsSound contents compressed
    pub between : S
    pub wrote_archive : host.write (join out_dir archive_out) compressed s ≡ (ok tt, between)
    pub wrote_digest :
        host.write (join out_dir digest_out) (hex (host.sha256 compressed)) between ≡ (ok tt, t)

  not_empty-ok :
      (archive contents : Bytes) → not_empty host archive contents ≡ ok tt → contents ≢ []
  not_empty-ok archive [] h = absurd (cc h)
  not_empty-ok archive (c ∷ contents) h = λ e. cc e

  embed-IsEmbedded :
      (out_dir archive : FilePath) (s t : S)
      → embed host out_dir archive s ≡ (ok tt, t)
      → IsEmbedded out_dir archive s t
  unfolding embed write_out
  embed-IsEmbedded out_dir archive s t h = next-cases _ _ h λ contents s1 read h1.
      next-cases _ _ h1 λ _ s2 full h2. next-cases _ _ h2 λ compressed s3 made h3.
        next-cases _ _ h3 λ _ s4 archived digested.
          let start : s ≡ s3 = state_eq read ∙ (state_eq full ∙ state_eq made) in
          record {
            contents = contents;
            read = map_err-eq-ok _ (host.read s archive) (result_eq read);
            nonempty = not_empty-ok archive contents (result_eq full);
            compressed = compressed;
            sound = compressed_of-IsSound contents archive compressed (result_eq made);
            between = s4;
            wrote_archive =
                rw start
                  (retag-eq-ok _ (host.write (join out_dir archive_out) compressed s3) archived);
            wrote_digest =
                retag-eq-ok _
                  (host.write (join out_dir digest_out) (hex (host.sha256 compressed)) s4) digested;
          }

  with_out_dir-embed :
      (o a : Option FilePath) (out_dir archive : FilePath) (s : S)
      → o ≡ some out_dir
      → a ≡ some archive
      → with_out_dir host o a s ≡ embed host out_dir archive s
  with_out_dir-embed o a out_dir archive s e f = rw (e, f)

  -- When an archive is named and the script ends without a panic, the archive was not empty, the bytes
  -- written for the binary decompress to it (or, if it came compressed, decompress to something), and
  -- the digest written beside them is theirs.
  pub main-IsEmbedded :
      (out_dir archive : FilePath) (s t : S)
      → host.out_dir ≡ some out_dir
      → host.archive_var ≡ some archive
      → main host s ≡ (ok tt, t)
      → IsEmbedded out_dir archive s t
  unfolding main
  main-IsEmbedded out_dir archive s t at named h =
      embed-IsEmbedded out_dir archive s t
        (sym (with_out_dir-embed host.out_dir host.archive_var out_dir archive s at named) ∙ h)
