-- ===== src/VmRootfs/Failure.antt =====
-- What a failed `install` leaves: the staging tree of the process, and the installed tree.
use openshell_image_builder.Base.{
  ℕ, true, false, List, [], ◌∷◌, ◌++◌, is_empty, Result, ok, err, ◌≡◌, refl, sym, ◌≢◌, ◌∙◌, ap,
  arith, ◌⊎◌, inl, inr, Bool-cases,
}
use openshell_image_builder.Base.Io.{Io, next, retag, after, on_failure, result_eq, state_eq}
use openshell_image_builder.Text.{Text, strip_prefix, text_eq}
use openshell_image_builder.Text.Laws.{text_eq-cancel}
use openshell_image_builder.FilePath.{FilePath, base, join, under}
use openshell_image_builder.FilePath.Laws.{join-base, IsName, under-cancel}
use openshell_image_builder.Host.{FileSystem}
use openshell_image_builder.Host.Laws.{IsLawful}
use openshell_image_builder.Dns.{Net}
use openshell_image_builder.VmRootfs.{
  Unpacker, not_embedded, version, marker, cache_key, staging_name, remove_if_there, is_installed,
  stage, put_in_place, place, staging_dir, unpack_and_place, install,
}
use openshell_image_builder.VmRootfs.Paths.{
  version-IsName, staging_name-IsName, staging_name-ne, Keeps, remove-Keeps, marker-eq, under-names,
}

is_empty-nil : {A : Type 0} (xs : List A) → is_empty xs ≡ true → xs ≡ []
is_empty-nil [] h = refl
is_empty-nil (x ∷ xs) h = absurd (cc h)

nonempty : {A : Type 0} (xs : List A) → xs ≢ [] → is_empty xs ≡ false
nonempty [] h = absurd (h refl)
nonempty (x ∷ xs) h = refl

version-not_above : (r : Text) (pid : ℕ) → under (version ++ r) (staging_name pid) ≡ false
unfolding under strip_prefix staging_name
version-not_above r pid = refl

staging-differs :
    (r : Text) (pid : ℕ) → text_eq (staging_name pid ++ b'/' ∷ marker) (version ++ r) ≡ false
unfolding text_eq staging_name
staging-differs r pid = refl

-- The state after a failure, when what follows the failure is one cleaning step.
module _ {S E A : Type 0} (clean : S → S) where
  abbrev IsCleaned : Result E A × S → Type 0
  IsCleaned x = (e : E) (t : S) → x ≡ (err e, t) → (u : S) × (t ≡ clean u)

on_failure-IsCleaned :
    {S E A : Type 0} (clean : S → S) (x : Result E A × S) → IsCleaned clean (on_failure clean x)
on_failure-IsCleaned clean (ok a, s) e t h = absurd (cc (result_eq h))
on_failure-IsCleaned clean (err e', s) e t h = (s, sym (state_eq h))

next-IsCleaned :
    {S E A B : Type 0} (clean : S → S) (x : Result E A × S) (f : A → Io S E B)
    → IsCleaned clean x
    → ((a : A) (s : S) → IsCleaned clean (f a s))
    → IsCleaned clean (next x f)
unfolding next
next-IsCleaned clean (ok a, s) f _ h e t same = h a s e t same
next-IsCleaned clean (err e', s) f h _ e t same = h e t (ground (arith, same))

ok-IsCleaned : {S E A : Type 0} (clean : S → S) (a : A) (s : S) → IsCleaned {E = E} clean (ok a, s)
ok-IsCleaned clean a s e t h = absurd (cc (result_eq h))

module _ (fs : FileSystem) (net : Net fs.State) (unpacker : Unpacker fs) (archive : List ℕ)
    (root : FilePath) where
  abbrev staging : FilePath
  staging = join root (staging_name unpacker.process_id)

  put_in_place-IsCleaned :
      (s : fs.State)
      → IsCleaned
          (after (fs.remove_dir_all staging))
          (put_in_place fs net unpacker root (join root version) staging s)
  unfolding put_in_place
  put_in_place-IsCleaned s =
      let clean = after (fs.remove_dir_all staging) in
      next-IsCleaned clean _ _ (on_failure-IsCleaned clean _) (λ _ s1.
        next-IsCleaned clean _ _ (on_failure-IsCleaned clean _) (λ _ s2. ok-IsCleaned clean _ _))

  place-IsCleaned :
      (key : Text) (s : fs.State)
      → IsCleaned
          (after (fs.remove_dir_all staging))
          (place fs net unpacker root (join root version) staging key s)
  unfolding place
  place-IsCleaned key s = elim (Bool-cases (is_installed fs net (join root version) key s)) [
    | inl there ↦ rw there (ok-IsCleaned (after (fs.remove_dir_all staging)) _ _)
    | inr absent ↦ rw absent (put_in_place-IsCleaned s)
  ]

  -- Wherever `install` fails, the last thing it has done is to remove its own staging directory; for a
  -- binary with no rootfs it has done nothing at all.
  pub install-cleaned :
      (digest e : Text) (s t : fs.State)
      → install fs net unpacker archive digest root s ≡ (err e, t)
      → ((archive ≡ []) × (t ≡ s)) ⊎ ((u : fs.State) × (t ≡ after (fs.remove_dir_all staging) u))
  unfolding install unpack_and_place staging_dir
  install-cleaned digest e s t h = elim (Bool-cases (is_empty archive)) [
    | inl empty ↦
        let nothing : ◌≡◌ {A = Result Text FilePath × fs.State} (err not_embedded, s) (err e, t) =
          rw empty at h in
        inl (is_empty-nil archive empty, sym (state_eq nothing))
    | inr full ↦ elim (Bool-cases (is_installed fs net (join root version) (cache_key digest) s)) [
      | inl there ↦
          let kept : ◌≡◌ {A = Result Text FilePath × fs.State} (ok (join root version), s)
              (err e, t) =
            rw (full, there) at h in
          absurd (cc (result_eq kept))
      | inr absent ↦
          let clean = after (fs.remove_dir_all staging) in
          inr (
            next-IsCleaned clean _ _ (on_failure-IsCleaned clean _)
              (λ _ s1. place-IsCleaned (cache_key digest) s1) e t (rw (full, absent) at h))
    ]
  ]

  -- What the crate `tar` is relied on for: nothing is written outside the destination.
  abbrev pub UnpacksInside : Type 0
  UnpacksInside =
      (stream : unpacker.Stream) (p q : FilePath) (s : fs.State)
      → under p q ≡ false
      → fs.stat (after (unpacker.unpack stream p) s) q ≡ fs.stat s q

  module _ (L : IsLawful fs) (inside : UnpacksInside) where
    abbrev name : Text
    name = staging_name unpacker.process_id

    name-IsName : IsName name
    name-IsName = staging_name-IsName unpacker.process_id

    -- A computation that leaves the installed tree as it was.
    abbrev IsHarmless : {E A : Type 0} → Result E A × fs.State → fs.State → Type 0
    IsHarmless x s = Keeps fs root version s x.1

    next-IsHarmless :
        {E A B : Type 0} (s : fs.State) (x : Result E A × fs.State) (f : A → Io fs.State E B)
        → IsHarmless x s
        → ((a : A) (u : fs.State) → IsHarmless (f a u) u)
        → IsHarmless (next x f) s
    unfolding next
    next-IsHarmless s (ok a, u) f kept h r tail = h a u r tail ∙ kept r tail
    next-IsHarmless s (err e, u) f kept h r tail = kept r tail

    retag-IsHarmless :
        {E F A : Type 0} (s : fs.State) (f : E → F) (x : Result E A × fs.State)
        → IsHarmless x s
        → IsHarmless (retag f x) s
    unfolding retag
    retag-IsHarmless s f (ok a, u) kept r tail = kept r tail
    retag-IsHarmless s f (err e, u) kept r tail = kept r tail

    remove_if_there-IsHarmless : (s : fs.State) → IsHarmless (remove_if_there fs staging s) s
    remove_if_there-IsHarmless s r tail = elim (Bool-cases (fs.stat s staging).exists) [
      | inr absent ↦ rw absent
      | inl there ↦ rw there (
          remove-Keeps fs root L name version s name-IsName version-IsName
            (staging_name-ne unpacker.process_id) r tail)
    ]

    pub stage-IsHarmless :
        (key : Text) (s : fs.State) → IsHarmless (stage fs net unpacker archive key staging s) s
    unfolding stage
    stage-IsHarmless key s =
        next-IsHarmless s _ _ (retag-IsHarmless s _ _ (remove_if_there-IsHarmless s)) λ _ s1.
          next-IsHarmless s1 _ _
            (retag-IsHarmless s1 _ _
              (λ r tail. L.create_frame staging (base root ++ (version ++ r)) s1 (above r)))
            λ _ s2.
              next-IsHarmless s2 _ _ (λ r tail. refl)
                λ stream s3.
                  next-IsHarmless s3 _ _
                    (retag-IsHarmless s3 _ _ (λ r tail.
                      inside stream staging (base root ++ (version ++ r)) s3 (
                        under-names fs root L name version r name-IsName version-IsName
                          (staging_name-ne unpacker.process_id) tail)))
                    λ _ s4. retag-IsHarmless s4 _ _ (λ r tail.
                      L.write_frame (join staging marker) (base root ++ (version ++ r)) key s4
                        (apart r))
      where
        above : (r : Text) → under (base root ++ (version ++ r)) staging ≡ false
        above r =
            rw (join-base root name name-IsName.1, under-cancel)
              (version-not_above r unpacker.process_id)

        apart : (r : Text) → text_eq (join staging marker) (base root ++ (version ++ r)) ≡ false
        apart r =
            rw (marker-eq fs root name name-IsName, text_eq-cancel)
              (staging-differs r unpacker.process_id)

    -- Where tar writes only inside its destination: an archive that cannot be staged makes `install`
    -- fail with the reason, and leaves the installed tree, at and below the directory of this version,
    -- as it was.
    pub install-stage_failed :
        (digest e : Text) (s u : fs.State)
        → archive ≢ []
        → is_installed fs net (join root version) (cache_key digest) s ≡ false
        → stage fs net unpacker archive (cache_key digest) staging s ≡ (err e, u)
        → (install fs net unpacker archive digest root s
            ≡ (err e, after (fs.remove_dir_all staging) u))
          × Keeps fs root version s (after (install fs net unpacker archive digest root) s)
    unfolding install unpack_and_place staging_dir next
    install-stage_failed digest e s u some_bytes absent failed =
        let ran : install fs net unpacker archive digest root s
            ≡ (err e, after (fs.remove_dir_all staging) u) =
          rw (nonempty archive some_bytes, absent, failed) in
        let end = state_eq failed in
        (
          ran,
          λ r tail.
              ap (λ (v : fs.State). fs.stat v (base root ++ (version ++ r))) (state_eq ran)
              ∙ (remove-Keeps fs root L name version u name-IsName version-IsName
                    (staging_name-ne unpacker.process_id) r tail
                  ∙ rw (← end) (stage-IsHarmless (cache_key digest) s r tail)),
        )
