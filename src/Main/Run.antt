-- ===== src/Main/Run.antt =====
-- `run`: what reaches the backend, and what is left behind.
use openshell_image_builder.Base.{Bool, true, false, Result, ok, err, ◌≡◌, sym, ◌∙◌, ap}
use openshell_image_builder.Base.Io.{
  next, next-cases, retag, retag-eq-ok, map_err-eq-ok, result_eq, state_eq,
}
use openshell_image_builder.Text.{Text, codes}
use openshell_image_builder.FilePath.{FilePath, join}
use openshell_image_builder.Host.{FileSystem}
use openshell_image_builder.Host.Temp.{Temp}
use openshell_image_builder.Host.Laws.{IsLawful}
use openshell_image_builder.Containerfile.{invalid_image_reference, generate}
use openshell_image_builder.Containerfile.Injection.{IsReference, generate-invalid}
use openshell_image_builder.Main.{
  Backend, RunError, io, containerfile, Outside, copy_into, build_with, run_in, run,
}

module _ (fs : FileSystem) (outside : Outside fs) where
  abbrev temp : Temp fs.State
  temp = outside.temp

  -- The backend was called once, with the Containerfile that `generate` gives, in a context directory
  -- that is dropped at the end.
  pub record IsBuilt (tag from : Text) (copy : Bool) (backend : Backend fs.State) (s t : fs.State)
      : Type 0 where
    pub output : Text
    pub generated : generate from copy ≡ ok output
    pub dir : temp.TempDir
    pub created : fs.State
    pub new_dir : temp.new_dir (codes "openshell-build-image") s ≡ (ok dir, created)
    pub before : fs.State
    pub copy_made : copy_into fs outside copy (temp.dir_path dir) output created ≡ (ok tt, before)
    pub behind : fs.State
    pub built :
        build_with fs outside output tag (temp.dir_path dir) backend before ≡ (ok tt, behind)
    pub copied :
        copy ≡ true
        → (fs.stat before (join (temp.dir_path dir) (codes "build-containerfile"))).contents
          ≡ ok output
    pub untouched : copy ≡ false → before ≡ created
    pub dropped : t ≡ temp.drop_dir dir behind

  copy_into-written :
      (L : IsLawful fs) (copy : Bool) (dir : FilePath) (output : Text) (s t : fs.State)
      → copy_into fs outside copy dir output s ≡ (ok tt, t)
      → copy ≡ true
      → (fs.stat t (join dir (codes "build-containerfile"))).contents ≡ ok output
  copy_into-written L true dir output s t h _ =
      let p = join dir (codes "build-containerfile") in
      let wrote = retag-eq-ok io (fs.write p output s) h in
      rw (← state_eq wrote) (L.write_contents p output s (result_eq wrote))
  copy_into-written L false dir output s t h e = absurd (cc e)

  copy_into-untouched :
      (copy : Bool) (dir : FilePath) (output : Text) (s t : fs.State)
      → copy_into fs outside copy dir output s ≡ (ok tt, t)
      → copy ≡ false
      → t ≡ s
  copy_into-untouched true dir output s t h e = absurd (cc e)
  copy_into-untouched false dir output s t h _ = sym (state_eq {E = RunError} h)

  -- On a lawful file system a run that succeeds has called the backend once with the generated
  -- Containerfile, which is also in the context as `build-containerfile` if the copy was asked for, and
  -- the context directory is dropped afterwards.
  pub run-IsBuilt :
      (L : IsLawful fs) (tag from : Text) (copy : Bool) (backend : Backend fs.State)
      (s t : fs.State)
      → run fs outside tag from copy backend s ≡ (ok tt, t)
      → IsBuilt tag from copy backend s t
  unfolding run run_in
  run-IsBuilt L tag from copy backend s t h = next-cases _ _ h λ dir s1 created finished.
      let inner = run_in fs outside (temp.dir_path dir) tag from copy backend s1 in
      let whole : inner ≡ (ok tt, inner.1) =
        ap (λ (r : Result RunError (Unit {0})). (r, inner.1)) (result_eq finished) in
      next-cases _ _ whole λ output s2 generated h2. next-cases _ _ h2 λ _ s3 copied built.
        let start : s1 ≡ s2 = state_eq generated in
        record {
          output = output;
          generated = map_err-eq-ok containerfile (generate from copy) (result_eq generated);
          dir = dir;
          created = s1;
          new_dir = retag-eq-ok io (temp.new_dir (codes "openshell-build-image") s) created;
          before = s3;
          copy_made = rw start copied;
          behind = inner.1;
          built = built;
          copied = copy_into-written L copy (temp.dir_path dir) output s2 s3 copied;
          untouched =
              λ e. copy_into-untouched copy (temp.dir_path dir) output s2 s3 copied e ∙ sym start;
          dropped = sym (state_eq finished);
        }

  -- A reference that is not one ends the run with that error before any backend is called; the context
  -- directory is all that was made, and it is dropped.
  run-invalid :
      (tag from : Text) (copy : Bool) (backend : Backend fs.State) (s u : fs.State)
      (dir : temp.TempDir)
      → ¬ IsReference from
      → temp.new_dir (codes "openshell-build-image") s ≡ (ok dir, u)
      → run fs outside tag from copy backend s
        ≡ (err (containerfile (invalid_image_reference from)), temp.drop_dir dir u)
  unfolding run run_in next retag
  run-invalid tag from copy backend s u dir bad created =
      rw (created, generate-invalid from copy bad)
