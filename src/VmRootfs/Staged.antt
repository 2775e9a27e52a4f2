-- ===== src/VmRootfs/Staged.antt =====
-- What a successful `stage` leaves in the staging directory.
use openshell_image_builder.Base.{ℕ, true, false, List, [], ◌∷◌, ◌++◌, ok, ◌≡◌, refl, sym, ◌∙◌, ap}
use openshell_image_builder.Base.Io.{
  next-cases, map_err-eq-ok, retag-eq-ok, after, result_eq, state_eq,
}
use openshell_image_builder.Text.{Text, codes, text_eq, trim, trim_end, is_whitespace}
use openshell_image_builder.Text.Laws.{
  NoBlank, text_eq_refl, text_eq-cancel, trim_end-visible, trim_end-trim, trim_end-append,
  trim-visible,
}
use openshell_image_builder.FilePath.{FilePath, base, join}
use openshell_image_builder.FilePath.Laws.{IsName}
use openshell_image_builder.Host.{Stat, FileSystem}
use openshell_image_builder.Host.Laws.{IsLawful}
use openshell_image_builder.Dns.{Net}
use openshell_image_builder.VmImage.Config.{new, check_rootfs, helper_of}
use openshell_image_builder.VmRootfs.{
  Unpacker, version, marker, cache_key, staging_name, at_path, is_ok, marker_matches, is_installed,
  stage,
}
use openshell_image_builder.VmRootfs.Paths.{
  staging_name-IsName, usable, helper, check_rootfs-usable, dir-eq, marker-eq, helper-eq,
}

version-NoBlank : NoBlank version
unfolding is_whitespace
version-NoBlank =
    (refl, (refl, (refl, (refl, (refl, (refl, (refl, (refl, (refl, (refl, (refl, tt)))))))))))

-- A key is what its trimmed form is: the marker that was written is the one that is looked for.
pub cache_key-trim : (digest : Text) → trim (cache_key digest) ≡ cache_key digest
unfolding cache_key is_whitespace
cache_key-trim digest =
    let end : trim_end (b'-' ∷ trim digest) ≡ b'-' ∷ trim digest =
      trim_end-visible b'-' (trim digest) refl
      ∙ ap (λ (t : Text). b'-' ∷ t) (trim_end-trim digest) in
    trim-visible b'0' (codes ".13.0-next" ++ b'-' ∷ trim digest) refl
      (trim_end-append version (b'-' ∷ trim digest) version-NoBlank end)

marker-ne_nil : text_eq (b'/' ∷ marker) [] ≡ false
unfolding text_eq
marker-ne_nil = refl

marker-ne_helper : text_eq (b'/' ∷ marker) (b'/' ∷ helper) ≡ false
unfolding text_eq
marker-ne_helper = refl

module _ (fs : FileSystem) (net : Net fs.State) (unpacker : Unpacker fs) (archive : List ℕ) where
  -- What the archive is relied on for: unpacked without an error, it is a build rootfs.
  abbrev pub HoldsRootfs : Type 0
  HoldsRootfs =
      (stream : unpacker.Stream) (p : FilePath) (s t : fs.State)
      → unpacker.decoder archive ≡ ok stream
      → unpacker.unpack stream p s ≡ (ok tt, t)
      → check_rootfs fs p t ≡ ok tt

  module _ (L : IsLawful fs) (root : FilePath) where
    abbrev name : Text
    name = staging_name unpacker.process_id

    name-IsName : IsName name
    name-IsName = staging_name-IsName unpacker.process_id

    -- Writing the marker changes the marker only.
    marker-apart :
        (q r : Text)
        → q ≡ base root ++ (name ++ r)
        → text_eq (b'/' ∷ marker) r ≡ false
        → text_eq (join (join root name) marker) q ≡ false
    marker-apart q r e h =
        rw (e, marker-eq fs root name name-IsName, text_eq-cancel, text_eq-cancel) h

    write-usable :
        (key : Text) (s : fs.State)
        → is_ok (check_rootfs fs (join root name) s) ≡ true
        → is_ok (
            check_rootfs fs
              (join root name)
              (after (fs.write (join (join root name) marker) key) s))
          ≡ true
    write-usable key s h =
        let p = join root name in
        let s' = after (fs.write (join p marker) key) s in
        let at_dir : fs.stat s' p ≡ fs.stat s p =
          L.write_frame (join p marker) p key s
            (marker-apart p [] (dir-eq fs root name name-IsName) marker-ne_nil) in
        let at_helper : fs.stat s' (helper_of p) ≡ fs.stat s (helper_of p) =
          L.write_frame (join p marker) (helper_of p) key s (
            marker-apart (helper_of p) (b'/' ∷ helper) (helper-eq fs root name name-IsName)
              marker-ne_helper) in
        check_rootfs-usable fs p s'
        ∙ (ap (λ (d : Stat). usable d (fs.stat s' (helper_of p))) at_dir
            ∙ (ap (λ (x : Stat). usable (fs.stat s p) x) at_helper
                ∙ (sym (check_rootfs-usable fs p s) ∙ h)))

    -- A tree that can be used is an installed one once it has its marker.
    pub write-installed :
        (key : Text) (s t : fs.State)
        → trim key ≡ key
        → is_ok (check_rootfs fs (join root name) s) ≡ true
        → fs.write (join (join root name) marker) key s ≡ (ok tt, t)
        → is_installed fs net (join root name) key t ≡ true
    unfolding is_installed marker_matches new
    write-installed key s t trimmed full wrote =
        let marked = L.write_contents (join (join root name) marker) key s (result_eq wrote) in
        rw (← state_eq wrote, marked, trimmed, text_eq_refl) (write-usable key s full)

    pub stage-installed :
        (key : Text) (s t : fs.State)
        → HoldsRootfs
        → trim key ≡ key
        → stage fs net unpacker archive key (join root name) s ≡ (ok tt, t)
        → is_installed fs net (join root name) key t ≡ true
    unfolding stage
    stage-installed key s t holds trimmed h = next-cases _ _ h λ _ s1 _ h1.
        next-cases _ _ h1 λ _ s2 _ h2. next-cases _ _ h2 λ stream s3 opened h3.
          next-cases _ _ h3 λ _ s4 unpacked h4.
            let p = join root name in
            let wrote =
              retag-eq-ok (at_path (codes "write") (join p marker))
                (fs.write (join p marker) key s4) h4 in
            let full =
              holds stream p s3 s4 (map_err-eq-ok _ (unpacker.decoder archive) (result_eq opened))
                (retag-eq-ok _ (unpacker.unpack stream p s3) unpacked) in
            write-installed key s4 t trimmed (ap is_ok full) wrote
