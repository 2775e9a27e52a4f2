-- ===== src/Tests/Race.antt =====
-- Two processes that install at the same time, with the ids 7 and 9, at concrete schedules.
use openshell_image_builder.Base.{
  ℕ, true, false, List, [], ◌∷◌, ◌++◌, if◌then◌else◌, ok, err, ◌≡◌, refl, inl, inr, Bool-cases,
}
use openshell_image_builder.Base.Io.{Io, state_eq}
use openshell_image_builder.Text.{Text, codes, text_eq}
use openshell_image_builder.Text.Laws.{text_eq_iff}
use openshell_image_builder.FilePath.{FilePath, base, join, under}
use openshell_image_builder.Host.{IoError}
use openshell_image_builder.Host.Memory.{dir, file, Disk, put}
use openshell_image_builder.VmImage.Config.{check_rootfs}
use openshell_image_builder.VmRootfs.{
  Unpacker, version, cache_key, staging_name, is_installed, install,
}
use openshell_image_builder.VmRootfs.Paths.{staging_name-IsName, under-names}
use openshell_image_builder.VmRootfs.Staged.{HoldsRootfs}
use openshell_image_builder.VmRootfs.Failure.{UnpacksInside}
use openshell_image_builder.VmRootfs.Process.{Pc, looking, removing, ended, as_process}
use openshell_image_builder.VmRootfs.Process.System.{
  System, start, pick, IsTorn, restart, Run, begun, then_pick, then_restart,
}
use openshell_image_builder.VmRootfs.Process.Alone.{Leads, install-Leads}
use openshell_image_builder.VmRootfs.Process.Halting.{Halts, looking-Halts}
use openshell_image_builder.VmRootfs.Process.Invariant.{to_remove, staged-is_installed}
use openshell_image_builder.FilePath.Laws.{under_self}
use openshell_image_builder.VmRootfs.Process.Kept.{installed-Kept}
use openshell_image_builder.VmRootfs.Process.Seen.{ended-WasThere}
use openshell_image_builder.Tests.World.{
  fs, fs-IsLawful, net, unpacker, root, staging, staged_helper, archive, digest, empty_disk,
  failure,
}

abbrev staging_9 : FilePath
staging_9 = codes "/r/.staging-0.13.0-next-9"

abbrev helper_9 : FilePath
helper_9 = codes "/r/.staging-0.13.0-next-9/usr/local/bin/vm-build"

-- The tree that the archive holds, at a path.
abbrev tree : FilePath → FilePath → Disk → Disk
tree p helper d = put helper (file 0o755 []) (put p dir d)

abbrev unpack_at : List ℕ → FilePath → Io Disk IoError (Unit {0})
unpack_at stream p d =
    if text_eq staging p
    then (ok tt, tree staging staged_helper d)
    else if text_eq staging_9 p
    then (ok tt, tree staging_9 helper_9 d)
    else (err failure, d)

abbrev both : Unpacker fs
both = record unpacker { unpack = unpack_at }

tree-usable : (d : Disk) → check_rootfs fs staging (tree staging staged_helper d) ≡ ok tt
unfolding openshell_image_builder.FilePath.parent
    openshell_image_builder.VmImage.Config.check_rootfs
    openshell_image_builder.VmImage.Config.check_mode
    openshell_image_builder.VmImage.Config.helper_of
tree-usable d = refl

tree_9-usable : (d : Disk) → check_rootfs fs staging_9 (tree staging_9 helper_9 d) ≡ ok tt
unfolding openshell_image_builder.FilePath.parent
    openshell_image_builder.VmImage.Config.check_rootfs
    openshell_image_builder.VmImage.Config.check_mode
    openshell_image_builder.VmImage.Config.helper_of
tree_9-usable d = refl

both-HoldsRootfs : HoldsRootfs fs net both archive
both-HoldsRootfs stream p s t _ h = elim (Bool-cases (text_eq staging p)) [
  | inl first ↦
      let same : staging ≡ p = (text_eq_iff staging p).0 first in
      let end : tree staging staged_helper s ≡ t = state_eq {E = IoError} (rw first at h) in
      rw (← same, ← end) (tree-usable s)
  | inr other ↦ elim (Bool-cases (text_eq staging_9 p)) [
    | inl second ↦
        let same : staging_9 ≡ p = (text_eq_iff staging_9 p).0 second in
        let end : tree staging_9 helper_9 s ≡ t =
          state_eq {E = IoError} (rw (other, second) at h) in
        rw (← same, ← end) (tree_9-usable s)
    | inr elsewhere ↦ absurd (cc (rw (other, elsewhere) at h))
  ]
]

inside-ne : (p q r : FilePath) → under p q ≡ true → under p r ≡ false → text_eq q r ≡ false
inside-ne p q r inside outside = elim (Bool-cases (text_eq q r)) [
  | inr differ ↦ differ
  | inl same ↦ absurd (cc ((text_eq_iff q r).0 same, inside, outside))
]

helper-inside : under staging staged_helper ≡ true
unfolding openshell_image_builder.FilePath.under
helper-inside = refl

helper_9-inside : under staging_9 helper_9 ≡ true
unfolding openshell_image_builder.FilePath.under
helper_9-inside = refl

tree-frame :
    (p helper q : FilePath) (d : Disk)
    → under p helper ≡ true
    → under p q ≡ false
    → tree p helper d q ≡ d q
tree-frame p helper q d below out =
    rw (inside-ne p helper q below out, inside-ne p p q (under_self p) out)

both-UnpacksInside : UnpacksInside fs net both archive root
unfolding text_eq
both-UnpacksInside stream p q s apart = elim (Bool-cases (text_eq staging p)) [
  | inl first ↦
      let same : staging ≡ p = (text_eq_iff staging p).0 first in
      rw (first, tree-frame staging staged_helper q s helper-inside (rw same apart))
  | inr other ↦ elim (Bool-cases (text_eq staging_9 p)) [
    | inl second ↦
        let same : staging_9 ≡ p = (text_eq_iff staging_9 p).0 second in
        rw (other, second, tree-frame staging_9 helper_9 q s helper_9-inside (rw same apart))
    | inr elsewhere ↦ rw (other, elsewhere)
  ]
]

abbrev at_start : System Disk
at_start = start fs net both archive digest root empty_disk

-- The processes that take the steps, the last one first.
abbrev after_steps : List ℕ → System Disk → System Disk
after_steps [] x = x
after_steps (i ∷ is) x = pick fs net both archive digest root i (after_steps is x)

steps-Run :
    (is : List ℕ) (x : System Disk) → Run fs net both archive digest root x (after_steps is x)
steps-Run [] x = begun
steps-Run (i ∷ is) x = then_pick i (steps-Run is x)

install-Leads_example :
    Leads fs net both archive digest root 9 looking empty_disk
      (ended
        (install fs net
          (as_process fs net both archive digest root 9)
          archive
          digest
          root
          empty_disk).0)
      (install fs net
        (as_process fs net both archive digest root 9)
        archive
        digest
        root
        empty_disk).1
install-Leads_example = install-Leads fs net both archive digest root 9 empty_disk

-- Both unpack; 9 looks again and finds nothing, and then 7 goes on to its end.
abbrev crossing : List ℕ
crossing = 7 ∷ 7 ∷ 7 ∷ 7 ∷ 7 ∷ 7 ∷ 7 ∷ 9 ∷ 9 ∷ 9 ∷ 9 ∷ 9 ∷ 9 ∷ 7 ∷ 7 ∷ 7 ∷ 7 ∷ 7 ∷ []

abbrev crossed : System Disk
crossed = after_steps crossing at_start

crossed-7 : crossed.pc 7 ≡ ended (ok (join root version))
unfolding openshell_image_builder.FilePath.join openshell_image_builder.FilePath.under
    openshell_image_builder.Text.show openshell_image_builder.FilePath.components
    openshell_image_builder.VmRootfs.is_installed openshell_image_builder.VmRootfs.marker_matches
    openshell_image_builder.VmRootfs.staging_name openshell_image_builder.VmRootfs.Process.proceed
    openshell_image_builder.VmRootfs.Process.move
    openshell_image_builder.VmRootfs.Process.System.update
    openshell_image_builder.VmRootfs.Process.System.pick
crossed-7 = refl

crossed-9 : crossed.pc 9 ≡ removing
unfolding openshell_image_builder.FilePath.join openshell_image_builder.FilePath.under
    openshell_image_builder.Text.show openshell_image_builder.FilePath.components
    openshell_image_builder.VmRootfs.is_installed openshell_image_builder.VmRootfs.marker_matches
    openshell_image_builder.VmRootfs.staging_name openshell_image_builder.VmRootfs.Process.proceed
    openshell_image_builder.VmRootfs.Process.move
    openshell_image_builder.VmRootfs.Process.System.update
    openshell_image_builder.VmRootfs.Process.System.pick
crossed-9 = refl

staged-is_installed_example :
    is_installed fs net (join root (staging_name 9)) (cache_key digest) crossed.mem ≡ true
staged-is_installed_example =
    staged-is_installed fs net both archive digest root fs-IsLawful both-UnpacksInside
      both-HoldsRootfs {s = empty_disk} {y = crossed} 9 (steps-Run crossing at_start)
      (rw crossed-9 to_remove)

ended-WasThere_example :
    (join root version ≡ join root version)
    × ((z : System Disk) × (Run fs net both archive digest root at_start z
          × (Run fs net both archive digest root z crossed
              × (is_installed fs net (join root version) (cache_key digest) z.mem ≡ true))))
ended-WasThere_example =
    ended-WasThere fs net both archive digest root fs-IsLawful both-UnpacksInside both-HoldsRootfs
      {s = empty_disk} {y = crossed} 7 (join root version) (steps-Run crossing at_start) crossed-7

-- The tree that 7 has installed and returned is there when 9 takes its next step.
crossed-there : is_installed fs net (join root version) (cache_key digest) crossed.mem ≡ true
unfolding openshell_image_builder.FilePath.under openshell_image_builder.Text.starts_with
    openshell_image_builder.Text.to_string_lossy openshell_image_builder.Text.trim
    openshell_image_builder.Text.show openshell_image_builder.FilePath.path_eq
    openshell_image_builder.VmImage.Config.check_rootfs
    openshell_image_builder.VmImage.Config.check_mode
    openshell_image_builder.VmImage.Config.helper_of openshell_image_builder.VmRootfs.is_installed
    openshell_image_builder.VmRootfs.marker_matches openshell_image_builder.VmRootfs.cache_key
    openshell_image_builder.VmRootfs.staging_name openshell_image_builder.VmRootfs.sweep_entry
    openshell_image_builder.VmImage.Config.new openshell_image_builder.VmRootfs.Process.proceed
    openshell_image_builder.VmRootfs.Process.move
    openshell_image_builder.VmRootfs.Process.System.update
    openshell_image_builder.VmRootfs.Process.System.pick
crossed-there = refl

-- And it is gone behind that step.
crossed-gone :
    is_installed fs net
      (join root version)
      (cache_key digest)
      (pick fs net both archive digest root 9 crossed).mem
    ≡ false
unfolding openshell_image_builder.FilePath.under openshell_image_builder.Text.starts_with
    openshell_image_builder.Text.to_string_lossy openshell_image_builder.Text.trim
    openshell_image_builder.Text.show openshell_image_builder.FilePath.path_eq
    openshell_image_builder.VmImage.Config.check_rootfs
    openshell_image_builder.VmImage.Config.check_mode
    openshell_image_builder.VmImage.Config.helper_of openshell_image_builder.VmRootfs.is_installed
    openshell_image_builder.VmRootfs.marker_matches openshell_image_builder.VmRootfs.cache_key
    openshell_image_builder.VmRootfs.staging_name openshell_image_builder.VmRootfs.sweep_entry
    openshell_image_builder.VmImage.Config.new openshell_image_builder.VmRootfs.Process.proceed
    openshell_image_builder.VmRootfs.Process.move
    openshell_image_builder.VmRootfs.Process.System.update
    openshell_image_builder.VmRootfs.Process.System.pick
crossed-gone = refl

-- A disk on which 7 has installed the version, with all processes at their beginning.
abbrev quiet : System Disk
quiet = start fs net both archive digest root crossed.mem

-- 7 is killed when it has made its staging directory and unpacked nothing.
abbrev half_made : Disk
half_made = put staging dir quiet.mem

staging-spelled : join root (staging_name 7) ≡ staging
unfolding openshell_image_builder.FilePath.join openshell_image_builder.FilePath.is_absolute
    openshell_image_builder.FilePath.base openshell_image_builder.FilePath.ends_with_slash
    openshell_image_builder.Text.show openshell_image_builder.VmRootfs.staging_name
staging-spelled = refl

half_made-IsTorn : IsTorn fs net both archive digest root 7 quiet half_made
half_made-IsTorn m hm ne _ _ r tail =
    let apart =
      under-names fs root fs-IsLawful (staging_name 7) m r (staging_name-IsName 7) hm ne tail in
    let out : under staging (base root ++ (m ++ r)) ≡ false = rw staging-spelled at apart in
    rw (inside-ne staging staging (base root ++ (m ++ r)) (under_self staging) out)

abbrev stirred : System Disk
stirred =
    pick fs net both archive digest root 9
      (restart fs net both archive digest root 7 half_made quiet)

installed-Kept_example :
    is_installed fs net (join root version) (cache_key digest) stirred.mem ≡ true
installed-Kept_example =
    installed-Kept fs net both archive digest root fs-IsLawful both-UnpacksInside both-HoldsRootfs
      {s = crossed.mem} {x = quiet} {y = stirred} begun (λ k x. elim x [ ]) crossed-there
      (then_pick 9 (then_restart 7 half_made begun half_made-IsTorn))

looking-Halts_example : Halts fs net both archive digest root 9 looking
looking-Halts_example = looking-Halts fs net both archive digest root 9
