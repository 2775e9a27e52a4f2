-- ===== src/Conformance/VmRootfs.antt =====
-- The tests of src/vm_rootfs.rs. An archive is the text that its helper holds, behind one byte, as
-- tar and zstd are parameters; a truncated one does not decode.
use openshell_image_builder.Base.{
  ℕ, Bool, true, false, not, ◌&&◌, ◌||◌, Option, none, some, List, [], ◌∷◌, ◌++◌, all, ◌==◌,
  if◌then◌else◌, Result, ok, err, ◌≡◌, refl,
}
use Prim.Native.Nat.{bit_and}
use openshell_image_builder.Base.Io.{Io}
use openshell_image_builder.Text.{Text, codes, text_eq, show}
use openshell_image_builder.FilePath.{FilePath, join}
use openshell_image_builder.Host.{IoError, other}
use openshell_image_builder.Host.Memory.{nothing, dir, file, put}
use openshell_image_builder.VmImage.Config.{check_rootfs}
use openshell_image_builder.VmRootfs.{
  Unpacker, version, marker, staging_prefix, cache_key, marker_matches, install,
}
use openshell_image_builder.Conformance.Asserts.{contains, fails, is_ok}
use openshell_image_builder.Conformance.Addresses.{net}
use openshell_image_builder.Conformance.World.{Bench, fs, tmp, start, contents_at}

abbrev helper_in : FilePath → FilePath
helper_in at = join at (codes "usr/local/bin/vm-build")

abbrev archive_with : Text → List ℕ
archive_with contents = 0x28 ∷ contents

-- The archive cut in half.
abbrev corrupt : List ℕ
corrupt = 0 ∷ []

abbrev broken : IoError
broken = record { kind = other; message = codes "incomplete frame" }

abbrev decoded : List ℕ → Result IoError (List ℕ)
decoded [] = err broken
decoded (b ∷ contents) = if b == 0x28 then ok contents else err broken

abbrev pub unpacker : Unpacker fs
unpacker = record {
  Stream = List ℕ;
  data_dir = λ s. some (codes "/home/user/.local/share");
  process_id = 7;
  decoder = decoded;
  unpack =
      λ contents at s. (ok tt, record s { disk = put (helper_in at) (file 0o755 contents) s.disk });
}

abbrev digest_of : List ℕ → Text
digest_of archive = codes "d" ++ archive

abbrev script : Text
script = codes "#!/bin/sh\n"

-- `install(&archive, &digest_of(&archive), root.path())`
abbrev installed : List ℕ → Io Bench Text FilePath
installed archive = install fs net unpacker archive (digest_of archive) tmp

abbrev expected : Result Text FilePath × Bench → (FilePath → Bench → Bool) → Bool
expected (ok at, s) asserts = asserts at s
expected (err e, s) asserts = false

abbrev is_read : Text → Result IoError Text → Bool
is_read t (ok u) = text_eq u t
is_read t (err e) = false

abbrev install_unpacks_the_archive : Bool
install_unpacks_the_archive =
    expected (installed (archive_with script) start)
      (λ at s. is_read script (contents_at s (some (helper_in at))) && is_ok (check_rootfs fs at s))

abbrev has_execute_bit : Result IoError ℕ → Bool
has_execute_bit (ok mode) = not (bit_and mode 0o111 == 0)
has_execute_bit (err e) = false

abbrev install_keeps_the_helper_executable : Bool
install_keeps_the_helper_executable =
    expected (installed (archive_with script) start)
      (λ at s. has_execute_bit (fs.stat s (helper_in at)).mode)

abbrev with_sentinel : FilePath → Text → Bench → Bench
with_sentinel at text s = record s {
  disk = put (join at (codes "sentinel")) (file 0o644 text) s.disk;
}

abbrev install_reuses_an_already_extracted_rootfs : Bool
install_reuses_an_already_extracted_rootfs =
    expected (installed (archive_with script) start) (λ at s.
      expected (installed (archive_with script) (with_sentinel at (codes "kept") s))
        (λ again t. text_eq again at && (fs.stat t (join at (codes "sentinel"))).exists))

abbrev newer : Text
newer = codes "#!/bin/sh\n# newer\n"

abbrev install_replaces_a_rootfs_from_another_archive : Bool
install_replaces_a_rootfs_from_another_archive =
    expected (installed (archive_with script) start) (λ at s.
      expected (installed (archive_with newer) (with_sentinel at (codes "stale") s)) (λ again t.
        is_read newer (contents_at t (some (helper_in again)))
        && not (fs.stat t (join again (codes "sentinel"))).exists))

abbrev install_re_extracts_when_the_rootfs_was_damaged : Bool
install_re_extracts_when_the_rootfs_was_damaged =
    expected (installed (archive_with script) start) (λ at s.
      expected
        (installed (archive_with script) (record s { disk = put (helper_in at) nothing s.disk }))
        (λ again t. is_ok (check_rootfs fs again t)))

abbrev with_dir : FilePath → Bench → Bench
with_dir at s = record s { disk = put at dir s.disk }

abbrev install_sweeps_other_versions : Bool
install_sweeps_other_versions =
    let stale = join tmp (codes "0.0.1-old") in
    expected (installed (archive_with script) (with_dir stale start))
      (λ at s. not (fs.stat s stale).exists)

abbrev install_leaves_another_process_staging_directory_alone : Bool
install_leaves_another_process_staging_directory_alone =
    let staging = join tmp (staging_prefix ++ (version ++ (codes "-" ++ show 8))) in
    expected (installed (archive_with script) (with_dir staging start))
      (λ at s. (fs.stat s staging).exists)

abbrev install_without_an_embedded_archive_points_at_the_flag : Bool
install_without_an_embedded_archive_points_at_the_flag =
    fails (install fs net unpacker [] [] tmp start).0 (λ e. contains e (codes "--vm-rootfs"))

-- The names that a listing would show.
abbrev no_leftovers : Result IoError (List (Result IoError Text)) → Bool
no_leftovers (ok []) = true
no_leftovers _ = false

abbrev install_leaves_nothing_behind_when_the_archive_is_corrupt : Bool
install_leaves_nothing_behind_when_the_archive_is_corrupt =
    let (r, s) = installed corrupt start in
    fails r (λ e. contains e (codes "VM rootfs")) && no_leftovers (fs.read_dir s tmp)

abbrev cache_key_covers_the_version_and_the_digest : Bool
cache_key_covers_the_version_and_the_digest =
    text_eq (cache_key (codes "  abc123\n")) (version ++ codes "-abc123")

abbrev marker_matches_only_the_recorded_key : Bool
marker_matches_only_the_recorded_key =
    let s = record start {
      disk = put (join tmp marker) (file 0o644 (codes "1.0.0-abc\n")) start.disk;
    } in
    marker_matches fs tmp (codes "1.0.0-abc") s && not (marker_matches fs tmp (codes "1.0.0-def") s)

abbrev marker_matches_is_false_without_a_marker : Bool
marker_matches_is_false_without_a_marker = not (marker_matches fs tmp (codes "1.0.0-abc") start)

install_tests_pass :
    (install_unpacks_the_archive ≡ true)
    × (install_keeps_the_helper_executable ≡ true)
    × (install_reuses_an_already_extracted_rootfs ≡ true)
    × (install_replaces_a_rootfs_from_another_archive ≡ true)
    × (install_re_extracts_when_the_rootfs_was_damaged ≡ true)
    × (install_sweeps_other_versions ≡ true)
    × (install_leaves_another_process_staging_directory_alone ≡ true)
    × (install_without_an_embedded_archive_points_at_the_flag ≡ true)
    × (install_leaves_nothing_behind_when_the_archive_is_corrupt ≡ true)
unfolding install cache_key marker_matches check_rootfs contains show
    openshell_image_builder.VmRootfs.is_installed openshell_image_builder.VmRootfs.staging_name
    openshell_image_builder.VmRootfs.staging_dir openshell_image_builder.VmRootfs.unpack_and_place
    openshell_image_builder.VmRootfs.stage openshell_image_builder.VmRootfs.place
    openshell_image_builder.VmRootfs.put_in_place
    openshell_image_builder.VmRootfs.sweep_old_versions
    openshell_image_builder.VmRootfs.sweep_entries openshell_image_builder.VmRootfs.sweep_entry
    openshell_image_builder.VmImage.Config.check_mode
    openshell_image_builder.VmImage.Config.helper_of openshell_image_builder.VmImage.Config.new
    openshell_image_builder.VmImage.Error.display_path openshell_image_builder.Base.Io.next
    openshell_image_builder.Base.Io.retag openshell_image_builder.Text.starts_with
    openshell_image_builder.Text.trim openshell_image_builder.FilePath.parent
    openshell_image_builder.FilePath.under openshell_image_builder.FilePath.path_eq
install_tests_pass = (refl, refl, refl, refl, refl, refl, refl, refl, refl)

key_tests_pass :
    (cache_key_covers_the_version_and_the_digest ≡ true)
    × (marker_matches_only_the_recorded_key ≡ true)
    × (marker_matches_is_false_without_a_marker ≡ true)
unfolding cache_key marker_matches openshell_image_builder.Text.trim
    openshell_image_builder.FilePath.join openshell_image_builder.FilePath.parent
key_tests_pass = (refl, refl, refl)
