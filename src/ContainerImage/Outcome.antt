-- ===== src/ContainerImage/Outcome.antt =====
-- What a build by a container CLI has done when it returns.
use openshell_image_builder.Base.{
  true, false, List, [], ◌∷◌, Result, ok, err, ◌≡◌, refl, sym, ap, ◌∙◌, arith,
}
use openshell_image_builder.Base.Io.{next, next-cases, retag, retag-eq-ok}
use openshell_image_builder.Text.{Text, codes}
use openshell_image_builder.FilePath.{FilePath}
use openshell_image_builder.Host.Temp.{Temp}
use openshell_image_builder.ContainerImage.{
  ContainerCli, binary, Command, ExitStatus, BuildError, io, failed, Runner, of_status, command,
  build_from, build,
}

Command-eq :
    (c : Command) (p : Text) (a : List Text)
    → c.program ≡ p
    → c.args ≡ a
    → c ≡ record { program = p; args = a }
Command-eq c p a e f = cc (e, f)

module _ {S : Type 0} (temp : Temp S) (containerfile tag : Text) (cli : ContainerCli)
    (runner : Runner S) (context_dir : FilePath) where
  -- The Containerfile was written to a temporary file, and the CLI was run once, on that file.
  pub record IsRun (s : S) (status : ExitStatus) (u : S) : Type 0 where
    pub file : temp.TempFile
    pub created : S
    pub written : S
    pub new_file : temp.new_file s ≡ (ok file, created)
    pub write_all : temp.write_all file containerfile created ≡ (ok tt, written)
    pub invoked : Command
    pub program : invoked.program ≡ binary cli
    pub args :
        invoked.args
        ≡ codes "build" ∷ codes "-f" ∷ temp.file_path file ∷ codes "-t" ∷ tag ∷ context_dir ∷ []
    pub ran : runner.run invoked written ≡ (ok status, u)

  of_status-ok : (status : ExitStatus) → of_status status ≡ ok tt → status.success ≡ true
  unfolding of_status
  of_status-ok status h = ground arith

  -- A build that succeeds has run the CLI once as `build -f <file> -t <tag> <context>` with the
  -- Containerfile in that file; the CLI has exited with success, and the file is dropped afterwards.
  pub build-IsRun :
      (s t : S)
      → build temp containerfile tag cli runner context_dir s ≡ (ok tt, t)
      → (status : ExitStatus) × (u : S) × (run : IsRun s status u) × (status.success ≡ true)
        × (t ≡ temp.drop_file run.file u)
  unfolding build build_from command
  build-IsRun s t h = next-cases _ _ h λ file s1 created finished.
      let inner : (build_from temp file containerfile tag cli runner context_dir s1).0 ≡ ok tt =
        ap (λ (x : Result BuildError (Unit {0}) × S). x.0) finished in
      let dropped : temp.drop_file file
            (build_from temp file containerfile tag cli runner context_dir s1).1
          ≡ t =
        ap (λ (x : Result BuildError (Unit {0}) × S). x.1) finished in
      next-cases (retag io (temp.write_all file containerfile s1)) _
        (ap
          (λ (r : Result BuildError (Unit {0})).
            (r, (build_from temp file containerfile tag cli runner context_dir s1).1))
          inner)
        λ _ s2 wrote rest.
          next-cases (retag io (runner.run (command cli (temp.file_path file) tag context_dir) s2))
            _ rest
            λ status s3 ran told. (
              status,
              s3,
              record {
                file = file;
                created = s1;
                written = s2;
                new_file = retag-eq-ok io (temp.new_file s) created;
                write_all = retag-eq-ok io (temp.write_all file containerfile s1) wrote;
                invoked = command cli (temp.file_path file) tag context_dir;
                program = refl;
                args = refl;
                ran =
                    retag-eq-ok io
                      (runner.run (command cli (temp.file_path file) tag context_dir) s2) ran;
              },
              of_status-ok status (ap (λ (x : Result BuildError (Unit {0}) × S). x.0) told),
              sym dropped
                  ∙ ap (temp.drop_file file)
                      (sym (ap (λ (x : Result BuildError (Unit {0}) × S). x.1) told)),
            )

  -- Where the CLI has run and ended with a failure, the build fails with its exit code, or with none
  -- for a CLI that a signal killed, and the temporary file is dropped.
  pub build-failed :
      (s u : S) (status : ExitStatus)
      → (run : IsRun s status u) → status.success ≡ false
      → build temp containerfile tag cli runner context_dir s
        ≡ (err (failed status.code), temp.drop_file run.file u)
  unfolding build build_from command of_status next retag
  build-failed s u status run h =
      let same : run.invoked ≡ command cli (temp.file_path run.file) tag context_dir =
        Command-eq run.invoked _ _ run.program run.args in
      rw (run.new_file, run.write_all) (rw (← same, run.ran, h))

  -- Where the CLI has run and ended with success, the build succeeds.
  pub build-succeeds :
      (s u : S) (status : ExitStatus)
      → (run : IsRun s status u) → status.success ≡ true
      → build temp containerfile tag cli runner context_dir s ≡ (ok tt, temp.drop_file run.file u)
  unfolding build build_from command of_status next retag
  build-succeeds s u status run h =
      let same : run.invoked ≡ command cli (temp.file_path run.file) tag context_dir =
        Command-eq run.invoked _ _ run.program run.args in
      rw (run.new_file, run.write_all) (rw (← same, run.ran, h))
