-- ===== src/VmImage/Handover.antt =====
-- What a VM build hands to its runner, and what it has done before.
use openshell_image_builder.Base.{
  ℕ, ◌<◌, false, inl, inr, Result-cases, Result, ok, err, ◌≡◌, refl, ap,
}
use openshell_image_builder.Base.Io.{
  next, next-eq-ok, next-cases, retag-eq-ok, map_err-eq-ok, state_eq,
}
use openshell_image_builder.Text.{Text, codes, text_eq}
use openshell_image_builder.FilePath.{FilePath, join, parent}
use openshell_image_builder.Host.{FileSystem}
use openshell_image_builder.Host.Laws.{IsLawful}
use openshell_image_builder.VmImage.Error.{VmBuildError, io, path}
use openshell_image_builder.VmImage.Config.{
  VmConfig, helper_of, VmBuild, check_rootfs, containerfile_name,
}
use openshell_image_builder.VmImage.Rootfs.{IsBuildRootfs, check_rootfs_iff}
use openshell_image_builder.VmImage.Build.{
  VmRunner, containerfile_options, parent_or_current, output_name, write_containerfile,
  canonicalize, build,
}

-- The Containerfile is in the context when `write_containerfile` has returned.
module _ (fs : FileSystem) (L : IsLawful fs) where
  write_containerfile-contents :
      (context_dir : FilePath) (text : Text) (s t : fs.State)
      → write_containerfile fs context_dir text s ≡ (ok tt, t)
      → (fs.stat t (join context_dir containerfile_name)).contents ≡ ok text
  unfolding write_containerfile
  write_containerfile-contents context_dir text s t h =
      let p = join context_dir containerfile_name in
      let (file, s', opened, rest) = next-eq-ok _ _ h in
      let wrote = retag-eq-ok io (fs.write_all file text s') rest in
      L.written containerfile_options p text file s s' t refl
        (retag-eq-ok (path (codes "Containerfile in the build context") p)
          (fs.open_file containerfile_options p s) opened)
        wrote

  -- And nothing else has changed.
  write_containerfile-frame :
      (context_dir q : FilePath) (text : Text) (s t : fs.State)
      → text_eq (join context_dir containerfile_name) q ≡ false
      → write_containerfile fs context_dir text s ≡ (ok tt, t)
      → fs.stat t q ≡ fs.stat s q
  unfolding write_containerfile
  write_containerfile-frame context_dir q text s t differ h =
      let p = join context_dir containerfile_name in
      let (file, s', opened, rest) = next-eq-ok _ _ h in
      let wrote = retag-eq-ok io (fs.write_all file text s') rest in
      L.written_frame containerfile_options p q text file s s' t differ
        (retag-eq-ok (path (codes "Containerfile in the build context") p)
          (fs.open_file containerfile_options p s) opened)
        wrote

-- What holds when a build has returned without an error: the rootfs was usable at the start, and one
-- request went to the runner, at the state that the build's own steps have led to.
pub record IsHandedOver (fs : FileSystem) (containerfile tag : Text) (config : VmConfig)
    (runner : VmRunner fs.State) (context_dir output : FilePath) (s t : fs.State) : Type 0 where
  pub usable : check_rootfs fs config.rootfs s ≡ ok tt
  pub request : VmBuild
  pub at : fs.State
  pub ran : runner.run request at ≡ (ok tt, t)
  pub staged : (fs.stat at (join context_dir containerfile_name)).contents ≡ ok containerfile
  pub prepared : fs.State
  pub wrote : write_containerfile fs context_dir containerfile s ≡ (ok tt, prepared)
  pub parented : fs.create_dir_all (parent_or_current (parent output)) prepared ≡ (ok tt, at)
  pub kept :
      (q : FilePath) (text : Text)
      → text_eq (join context_dir containerfile_name) q ≡ false
      → (fs.stat s q).contents ≡ ok text
      → (fs.stat at q).contents ≡ ok text
  pub rootfs : fs.canonicalize prepared config.rootfs ≡ ok request.rootfs
  pub context : fs.canonicalize prepared context_dir ≡ ok request.context
  pub output_dir : fs.canonicalize at (parent_or_current (parent output)) ≡ ok request.output_dir
  pub filename : output_name output ≡ ok request.output_filename
  pub tagged : request.tag ≡ tag
  pub cpus : request.cpus ≡ config.cpus
  pub memory_mib : request.memory_mib ≡ config.memory_mib
  pub nameservers : request.nameservers ≡ config.nameservers

canonicalize-ok :
    (fs : FileSystem) (p : FilePath) (what : Text) (s t : fs.State) (q : FilePath)
    → canonicalize fs p what s ≡ (ok q, t)
    → (fs.canonicalize s p ≡ ok q) × (s ≡ t)
unfolding canonicalize
canonicalize-ok fs p what s t q h = (
  map_err-eq-ok (path what p) (fs.canonicalize s p)
      (ap (λ (x : Result VmBuildError FilePath × fs.State). x.0) h),
  ap (λ (x : Result VmBuildError FilePath × fs.State). x.1) h,
)

module _ (fs : FileSystem) (L : IsLawful fs) (containerfile tag : Text) (config : VmConfig)
    (runner : VmRunner fs.State) (context_dir output : FilePath) (s t : fs.State) where
  -- On a lawful file system, a build that succeeds has found the rootfs usable before it wrote
  -- anything, and has made one request to the runner: with the canonical paths, the tag, the file name
  -- of the output and the resources of the configuration. The request is made at the state that is
  -- reached from the start by writing the Containerfile and making the directory of the output: the
  -- Containerfile in the context is the one given, and every other file that could be read at the start
  -- has the contents that it had then.
  pub build-IsHandedOver :
      build fs containerfile tag config runner context_dir output s ≡ (ok tt, t)
      → IsHandedOver fs containerfile tag config runner context_dir output s t
  unfolding build
  build-IsHandedOver h = next-cases _ _ h λ _ s0 checked h1. next-cases _ _ h1 λ _ s1 wrote h2.
      next-cases _ _ h2 λ rootfs s2 rootfs_at h3. next-cases _ _ h3 λ context s3 context_at h4.
        next-cases _ _ h4 λ name s4 named h5. next-cases _ _ h5 λ _ s5 created h6.
          next-cases _ _ h6 λ dir s6 dir_at ran.
            let p = join context_dir containerfile_name in
            let parent_dir = parent_or_current (parent output) in
            let (at_rootfs, same1) = canonicalize-ok fs _ _ _ _ _ rootfs_at in
            let (at_context, same2) = canonicalize-ok fs _ _ _ _ _ context_at in
            let (at_dir, same5) = canonicalize-ok fs _ _ _ _ _ dir_at in
            let same3 : s3 ≡ s4 = ap (λ (x : Result VmBuildError Text × fs.State). x.1) named in
            let made = retag-eq-ok io (fs.create_dir_all parent_dir s4) created in
            let staged = write_containerfile-contents fs L context_dir containerfile s0 s1 wrote in
            let staged4 : (fs.stat s4 p).contents ≡ ok containerfile = cc in
            record {
              usable = ap (λ (x : Result VmBuildError (Unit {0}) × fs.State). x.0) checked;
              request = record {
                rootfs = rootfs;
                context = context;
                output_dir = dir;
                output_filename = name;
                tag = tag;
                cpus = config.cpus;
                memory_mib = config.memory_mib;
                nameservers = config.nameservers;
              };
              at = s6;
              ran = ran;
              staged = cc (L.create_keeps parent_dir p containerfile s4 staged4);
              prepared = s1;
              wrote = cc (wrote, checked);
              parented = cc;
              kept = λ q text differ there.
                  let same0 : s ≡ s0 = state_eq checked in
                  let framed =
                    write_containerfile-frame fs L context_dir q containerfile s0 s1 differ wrote in
                  let contents4 : (fs.stat s4 q).contents ≡ ok text = cc in
                  cc (L.create_keeps parent_dir q text s4 contents4);
              rootfs = at_rootfs;
              context = cc;
              output_dir = cc;
              filename = ap (λ (x : Result VmBuildError Text × fs.State). x.0) named;
              tagged = refl;
              cpus = refl;
              memory_mib = refl;
              nameservers = refl;
            }

module _ (fs : FileSystem) (containerfile tag : Text) (config : VmConfig)
    (runner : VmRunner fs.State) (context_dir output : FilePath) (s : fs.State) where
  -- Where modes have 16 bits: a directory that is no build rootfs, because it is missing, or its helper
  -- is missing or not executable, ends the build with an error, and the host is as it was: nothing has
  -- been written to the context and nothing has been run.
  pub build-refused :
      ((m : ℕ) → (fs.stat s (helper_of config.rootfs)).mode ≡ ok m → m < 65536)
      → ¬ IsBuildRootfs fs s config.rootfs
      → (e : VmBuildError) × (build fs containerfile tag config runner context_dir output s
          ≡ (err e, s))
  unfolding build next
  build-refused fits bad = elim (Result-cases (check_rootfs fs config.rootfs s)) [
    | inl (_, passed) ↦ absurd (bad ((check_rootfs_iff fs config.rootfs s fits).0 passed))
    | inr (e, failed) ↦ (e, rw failed)
  ]
