-- ===== src/VmRootfs/Install.antt =====
-- What a successful `install` has made.
use openshell_image_builder.Base.{
  ℕ, true, List, ◌++◌, append_assoc, is_empty, Result, ok, ◌≡◌, sym, ◌∙◌, inl, inr, Bool-cases,
}
use openshell_image_builder.Base.Io.{
  next-cases, retag-eq-ok, after, on_failure-eq-ok, ok_injective, result_eq, state_eq,
}
use openshell_image_builder.Text.{Text}
use openshell_image_builder.FilePath.{FilePath, base, join}
use openshell_image_builder.FilePath.Laws.{join-base, IsName, IsTail}
use openshell_image_builder.Host.{IoError, FileSystem}
use openshell_image_builder.Host.Laws.{IsLawful}
use openshell_image_builder.Dns.{Net}
use openshell_image_builder.VmRootfs.{
  Unpacker, version, cache_key, staging_name, remove_if_there, is_installed, sweep_old_versions,
  put_in_place, place, staging_dir, unpack_and_place, install,
}
use openshell_image_builder.VmRootfs.Paths.{
  version-IsName, staging_name-IsName, staging_name-ne, is_installed-Moves, remove-Keeps,
}
use openshell_image_builder.VmRootfs.Sweep.{sweep_old_versions-Keeps, version-IsProtected}
use openshell_image_builder.VmRootfs.Staged.{HoldsRootfs, cache_key-trim, stage-installed}

module _ (fs : FileSystem) (net : Net fs.State) (unpacker : Unpacker fs) (archive : List ℕ)
    (L : IsLawful fs) (root : FilePath) where
  abbrev name : Text
  name = staging_name unpacker.process_id

  name-IsName : IsName name
  name-IsName = staging_name-IsName unpacker.process_id

  -- Removing the old tree, if it is there, leaves the staged tree as it was.
  pub remove_old-installed :
      (key : Text) (s t : fs.State)
      → is_installed fs net (join root name) key s ≡ true
      → remove_if_there fs (join root version) s ≡ (ok tt, t)
      → is_installed fs net (join root name) key t ≡ true
  remove_old-installed key s t staged h = elim (Bool-cases (fs.stat s (join root version)).exists) [
    | inr none_there ↦
        let same : s ≡ t = state_eq {E = IoError} (rw none_there at h) in rw (← same) staged
    | inl there ↦
        let end : after (fs.remove_dir_all (join root version)) s ≡ t = state_eq (rw there at h) in
        rw (← end) (
          is_installed-Moves fs root net name name key s _ name-IsName name-IsName (
            remove-Keeps fs root L version name s version-IsName name-IsName
              (λ e. staging_name-ne unpacker.process_id (sym e)))
          ∙ staged)
  ]

  -- The staged tree, renamed, is the installed tree.
  pub rename-installed :
      (key : Text) (s t : fs.State)
      → is_installed fs net (join root name) key s ≡ true
      → fs.rename (join root name) (join root version) s ≡ (ok tt, t)
      → is_installed fs net (join root version) key t ≡ true
  rename-installed key s t staged h =
      is_installed-Moves fs root net name version key s t name-IsName version-IsName
        (λ r tail. renamed r tail)
      ∙ staged
    where
      renamed :
          (r : Text)
          → IsTail r
          → fs.stat t (base root ++ (version ++ r)) ≡ fs.stat s (base root ++ (name ++ r))
      renamed r tail =
          let moved = L.rename_moves (join root name) (join root version) r s tail (result_eq h) in
          let end : after (fs.rename (join root name) (join root version)) s ≡ t = state_eq h in
          rw
            (
              ← end,
              ← append_assoc (base root) version r,
              ← append_assoc (base root) name r,
              ← join-base root version version-IsName.1,
              ← join-base root name name-IsName.1,
            )
            moved

  put_in_place-installed :
      (key d : Text) (s t : fs.State)
      → is_installed fs net (join root name) key s ≡ true
      → put_in_place fs net unpacker root (join root version) (join root name) s ≡ (ok d, t)
      → (d ≡ join root version) × (is_installed fs net (join root version) key t ≡ true)
  unfolding put_in_place
  put_in_place-installed key d s t staged h = next-cases _ _ h λ _ s1 removed h1.
      next-cases _ _ h1 λ _ s2 renamed h2.
        let removed' =
          retag-eq-ok _ (remove_if_there fs (join root version) s) (on_failure-eq-ok _ _ removed) in
        let renamed' =
          retag-eq-ok _ (fs.rename (join root name) (join root version) s1)
            (on_failure-eq-ok _ _ renamed) in
        let there =
          rename-installed key s1 s2 (remove_old-installed key s s1 staged removed') renamed' in
        let swept : is_installed fs net (join root version) key
              (sweep_old_versions fs root (join root version) s2)
            ≡ true =
          is_installed-Moves fs root net version version key s2 _ version-IsName version-IsName (
            sweep_old_versions-Keeps fs L root (join root version) version version-IsName
              (version-IsProtected root version) s2)
          ∙ there in
        (sym (ok_injective (result_eq h2)), rw (← state_eq h2) swept)

  place-installed :
      (key d : Text) (s t : fs.State)
      → is_installed fs net (join root name) key s ≡ true
      → place fs net unpacker root (join root version) (join root name) key s ≡ (ok d, t)
      → (d ≡ join root version) × (is_installed fs net (join root version) key t ≡ true)
  unfolding place
  place-installed key d s t staged h =
      elim (Bool-cases (is_installed fs net (join root version) key s)) [
        | inr absent ↦ put_in_place-installed key d s t staged (rw absent at h)
        | inl there ↦
            let kept : ◌≡◌ {A = Result Text FilePath × fs.State}
                (ok (join root version), after (fs.remove_dir_all (join root name)) s) (ok d, t) =
              rw there at h in
            (
              sym (ok_injective (result_eq kept)),
              rw (← state_eq kept) (
                  is_installed-Moves fs root net version version key s _ version-IsName
                    version-IsName
                    (remove-Keeps fs root L name version s name-IsName version-IsName
                      (staging_name-ne unpacker.process_id))
                  ∙ there),
            )
      ]

  -- On a lawful file system, for an archive that holds a build rootfs: when `install` succeeds, it
  -- returns the directory of this version, and at the end that directory has the marker of this
  -- archive and passes the check of a rootfs, whether it was there before, was unpacked now, or was
  -- found there on the second look.
  pub install-is_installed :
      (digest d : Text) (s t : fs.State)
      → HoldsRootfs fs net unpacker archive
      → install fs net unpacker archive digest root s ≡ (ok d, t)
      → (d ≡ join root version)
        × (is_installed fs net (join root version) (cache_key digest) t ≡ true)
  unfolding install unpack_and_place staging_dir
  install-is_installed digest d s t holds h = elim (Bool-cases (is_empty archive)) [
    | inl empty ↦ absurd (cc (rw empty at h))
    | inr full ↦ elim (Bool-cases (is_installed fs net (join root version) (cache_key digest) s)) [
      | inl there ↦
          let kept : ◌≡◌ {A = Result Text FilePath × fs.State} (ok (join root version), s)
              (ok d, t) =
            rw (full, there) at h in
          (sym (ok_injective (result_eq kept)), rw (← state_eq kept) there)
      | inr absent ↦ next-cases _ _ (rw (full, absent) at h) λ _ s1 staged rest.
          place-installed (cache_key digest) d s1 t
            (stage-installed fs net unpacker archive L root (cache_key digest) s s1 holds
              (cache_key-trim digest) (on_failure-eq-ok _ _ staged))
            rest
    ]
  ]

  -- On a lawful file system, for an archive that holds a build rootfs: after an `install` that
  -- succeeded, a second one of the same archive returns the same directory and changes nothing.
  pub install-idempotent :
      (digest d : Text) (s t : fs.State)
      → HoldsRootfs fs net unpacker archive
      → install fs net unpacker archive digest root s ≡ (ok d, t)
      → install fs net unpacker archive digest root t ≡ (ok d, t)
  unfolding install
  install-idempotent digest d s t holds h = elim (Bool-cases (is_empty archive)) [
    | inl empty ↦ absurd (cc (rw empty at h))
    | inr full ↦
        let (same, there) = install-is_installed digest d s t holds h in rw (full, there, same)
  ]
