-- ===== src/MakeRootfs/Outcome.antt =====
-- How make-rootfs.sh ends: what it has performed, where it has stopped, and when it has cleaned up.
use openshell_image_builder.Base.{
  ℕ, ◌==◌, ==_iff, List, [], ◌∷◌, ◌++◌, map, ok, err, Bool-cases, ◌≡◌, refl, ◌≢◌, inl, inr, arith,
}
use openshell_image_builder.Base.Io.{Io, next, ◌>>=◌, after}
use openshell_image_builder.Text.{Text}
use openshell_image_builder.Shell.{Completed, Shell, trim_newlines, answer, asked, run_all}
use openshell_image_builder.Shell.Steps.{
  Step, ran, told, heard, Performed, none_left, performed, Performed-append, StopsIn,
  StopsIn-append, StopsIn-behind,
}
use openshell_image_builder.Shell.Meets.{
  UnitResult, Meets, failed-StopsIn, answer-cases, run_all-Meets,
}
use openshell_image_builder.MakeRootfs.{
  rootfs_of, archive_out_of, dirname, script_dir, find_podman, podman_required, build_image, create,
  mktemp, behind_trap, cleanup, refuse, with_podman, trapped, make_rootfs,
}

-- What the commands have put out that later ones depend on.
pub record Outputs : Type 0 where
  pub parent : Text
  pub directory : Text
  pub container : Text
  pub archive : Text

module _ {S : Type 0} (sh : Shell S) (name : Text) (args : List Text) (tmpdir : Text) where
  abbrev first : Text → Text → List Step
  first parent directory =
      heard (dirname name) parent ∷ told (script_dir (trim_newlines parent)) directory ∷ []

  abbrev temporary : Text → Text → List Step
  temporary container archive = told create container ∷ told (mktemp tmpdir) archive ∷ []

  abbrev building : Text → List Step
  building directory = map ran (build_image (rootfs_of args) (trim_newlines directory))

  -- The commands before the trap, and those behind it.
  abbrev pub front : Outputs → List Step
  front o =
      first o.parent o.directory
      ++ ran find_podman ∷ (building o.directory ++ temporary o.container o.archive)

  abbrev pub back : Outputs → List Step
  back o = map ran (
      behind_trap (rootfs_of args) (archive_out_of args) (trim_newlines o.container)
        (trim_newlines o.archive))

  -- The temporary archive and the container are removed.
  abbrev pub cleaned : Outputs → S → S
  cleaned o = after (cleanup sh (trim_newlines o.container) (trim_newlines o.archive))

  pub data Ends (s : S) (x : UnitResult S) : Type 0 where
    made :
        (o : Outputs) (m u : S)
        → Performed sh (front o) s m
        → Performed sh (back o) m u
        → x ≡ (ok tt, cleaned o u)
        → Ends s x
    failed_behind :
        (o : Outputs) (n : ℕ) (m u : S)
        → Performed sh (front o) s m
        → StopsIn sh (back o) n m u
        → x ≡ (err n, cleaned o u)
        → Ends s x
    failed_before :
        (o : Outputs) (n : ℕ) (t : S) → StopsIn sh (front o) n s t → x ≡ (err n, t) → Ends s x
    no_podman :
        (o : Outputs) (n : ℕ) (m u : S) (c : Completed)
        → Performed sh (first o.parent o.directory) s m
        → sh.perform find_podman m ≡ (c, u)
        → c.status ≢ 0
        → n ≢ 0
        → x ≡ (err n, (sh.perform podman_required u).1)
        → Ends s x

  abbrev outputs : Text → Text → Text → Text → Outputs
  outputs parent directory container archive = record {
    parent = parent;
    directory = directory;
    container = container;
    archive = archive;
  }

  trapped-Ends :
      (o : Outputs) (s m : S)
      → Performed sh (front o) s m
      → (y : UnitResult S) → Meets sh {I = Unit {0}} (λ _. back o) m y
      → Ends s (y.0, cleaned o y.1)
  trapped-Ends o s m p (ok _, u) (_, q) = made o m u p q refl
  trapped-Ends o s m p (err n, u) (_, q) = failed_behind o n m u p q refl

  -- From `podman create` on.
  abbrev rest : Text → Io S ℕ (Unit {0})
  rest container = answer sh (mktemp tmpdir) >>= λ archive.
      trapped sh (rootfs_of args) (archive_out_of args) (trim_newlines container)
        (trim_newlines archive)

  abbrev up_to_podman : Text → Text → List Step
  up_to_podman parent directory = first parent directory ++ ran find_podman ∷ []

  abbrev up_to_create : Text → Text → Text → List Step
  up_to_create parent directory container =
      up_to_podman parent directory ++ (building directory ++ told create container ∷ [])

  rest-Ends :
      (parent directory container : Text) (s m : S)
      → Performed sh (up_to_create parent directory container) s m
      → Ends s (rest container m)
  unfolding trapped
  rest-Ends parent directory container s m p =
      answer-cases sh (Ends s) (mktemp tmpdir) m
        (λ archive.
          trapped sh (rootfs_of args) (archive_out_of args) (trim_newlines container)
            (trim_newlines archive))
        (λ c t e zero.
          let o = outputs parent directory container c.output in
          let done =
            Performed-append sh p
              (performed {step = told (mktemp tmpdir) c.output} c e (zero, refl) none_left) in
          let steps =
            behind_trap (rootfs_of args) (archive_out_of args) (trim_newlines container)
              (trim_newlines c.output) in
          trapped-Ends o s t done (run_all sh steps t) (run_all-Meets sh steps t))
        (λ c t e bad.
          failed_before (outputs parent directory container []) c.status t
            (StopsIn-behind sh p (
              failed-StopsIn sh (told (mktemp tmpdir) [] ∷ []) [] (told (mktemp tmpdir) []) refl m t
                c e bad))
            refl)

  -- From the build on.
  abbrev built : Text → UnitResult S → UnitResult S
  built directory x = next x (λ _. answer sh create >>= rest)

  built-Ends :
      (parent directory : Text) (s m : S)
      → Performed sh (up_to_podman parent directory) s m
      → (x : UnitResult S) → Meets sh {I = Unit {0}} (λ _. building directory) m x
      → Ends s (built directory x)
  unfolding next
  built-Ends parent directory s m p (err n, t) (_, q) =
      failed_before (outputs parent directory [] []) n t
        (StopsIn-behind sh p (StopsIn-append sh (temporary [] []) q)) refl
  built-Ends parent directory s m p (ok _, t) (_, q) =
      let done = Performed-append sh p q in
      answer-cases sh (Ends s) create t rest
        (λ c u e zero. rest-Ends parent directory c.output s u (
          Performed-append sh done
            (performed {step = told create c.output} c e (zero, refl) none_left)))
        (λ c u e bad.
          failed_before (outputs parent directory [] []) c.status u
            (StopsIn-behind sh done (
              failed-StopsIn sh (temporary [] []) (told (mktemp tmpdir) [] ∷ []) (told create [])
                refl t u c e bad))
            refl)

  -- From the search for podman on.
  abbrev building_from : Text → Io S ℕ (Unit {0})
  building_from directory =
      run_all sh (build_image (rootfs_of args) (trim_newlines directory)) >>= λ _.
      answer sh create >>= rest

  refuse-cases {κ} :
      (G : UnitResult S → Type κ) (c : Completed) (t : S)
      → (c.status ≡ 0 → G (ok tt, t))
      → ((n : ℕ) (u : S)
          → c.status ≢ 0
          → n ≢ 0
          → u ≡ (sh.perform podman_required t).1
          → G (err n, u))
      → G (refuse sh (c, t))
  refuse-cases G c t good bad = elim (Bool-cases (c.status == 0)) [
    | inl e ↦ rw e (good ((==_iff c.status 0).0 e))
    | inr e ↦
        let nonzero : c.status ≢ 0 = λ z. cc ((==_iff c.status 0).1 z, e) in
        rw e (
          answer-cases sh G podman_required t (λ _ u. (err 1, u))
            (λ d u said _. bad 1 u nonzero (omega arith) (rw said refl))
            (λ d u said failed. bad d.status u nonzero failed (rw said refl)))
  ]

  podman-Ends :
      (parent directory : Text) (s m : S)
      → Performed sh (first parent directory) s m
      → (x : Completed × S) → sh.perform find_podman m ≡ x
      → Ends s (next (refuse sh x) (λ _. building_from directory))
  unfolding next
  podman-Ends parent directory s m p (c, t) e =
      refuse-cases (λ x. Ends s (next x (λ _. building_from directory))) c t
        (λ zero.
          let done =
            Performed-append sh p (performed {step = ran find_podman} c e zero none_left) in
          let steps = build_image (rootfs_of args) (trim_newlines directory) in
          built-Ends parent directory s t done (run_all sh steps t) (run_all-Meets sh steps t))
        (λ n u missing nonzero same.
          no_podman (outputs parent directory [] []) n m t c p e missing nonzero (rw same refl))

  -- make-rootfs.sh ends in one of four ways: with 0, when all its commands have succeeded in their
  -- order, and then the trap has cleaned up; with the status of a command behind the trap that failed,
  -- when those before it have succeeded and none came after it, and then the trap has cleaned up; with
  -- the status of a command before the trap that failed, and then nothing is cleaned up; or with a status
  -- other than 0 and a message, when podman is not found.
  pub make_rootfs-Ends : (s : S) → Ends s (make_rootfs sh name args tmpdir s)
  unfolding make_rootfs with_podman next asked
  make_rootfs-Ends s =
      let (c, t) = sh.perform (dirname name) s in
      let parent = c.output in
      let heard_parent : Performed sh (heard (dirname name) parent ∷ []) s t =
        performed {step = heard (dirname name) parent} c refl refl none_left in
      answer-cases sh (Ends s) (script_dir (trim_newlines parent)) t
        (λ directory. with_podman sh >>= λ _. building_from directory)
        (λ d u e zero.
          let done : Performed sh (first parent d.output) s u = Performed-append sh heard_parent (
            performed {step = told (script_dir (trim_newlines parent)) d.output} d e (zero, refl)
              none_left) in
          podman-Ends parent d.output s u done (sh.perform find_podman u) refl)
        (λ d u e bad.
          let step = told (script_dir (trim_newlines parent)) [] in
          let behind = ran find_podman ∷ (building [] ++ temporary [] []) in
          failed_before (outputs parent [] [] []) d.status u
            (StopsIn-behind sh heard_parent
              (failed-StopsIn sh (step ∷ behind) behind step refl t u d e bad))
            refl)
