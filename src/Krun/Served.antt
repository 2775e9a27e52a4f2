-- ===== src/Krun/Served.antt =====
-- What a request that `run` reports as done has come to.
use openshell_image_builder.Base.{
  ℕ, ◌%◌, false, some, Result, ok, err, ◌≡◌, refl, sym, ◌∙◌, ap, inl, inr, arith,
}
use openshell_image_builder.Dns.{Net}
use openshell_image_builder.VmImage.Error.{VmBuildError}
use openshell_image_builder.VmImage.Config.{VmBuild}
use openshell_image_builder.VmImage.Threads.{ThreadHost, check_single_threaded}
use openshell_image_builder.Krun.Args.{Args}
use openshell_image_builder.Krun.Args
use openshell_image_builder.Krun.Enter.{
  WaitStatus, waited, Forked, fork_failed, forked, LibKrun, exited, Ended, returned, taken_over,
  exit_code, enter_vm-told,
}
use openshell_image_builder.Krun.Wait.{status_of, IsOver, wait_for-ok}
use openshell_image_builder.Krun.Run.{parent_of, when_single, with_args, run, child}
use openshell_image_builder.Krun.Guest.{Machine, Configures, machine_of, child-machine}

module _ {S : Type 0} (net : Net S) (host : ThreadHost S) (lib : LibKrun S) where
  -- The process was forked for a valid request, and its child exited with 0.
  pub record IsServed (build : VmBuild) (s t : S) : Type 0 where
    pub args : Args
    pub valid : Args.new net build ≡ ok args
    pub single : check_single_threaded host s ≡ ok tt
    pub pid : ℕ
    pub parent : S
    pub mine : S
    pub split : lib.fork s ≡ forked pid parent mine
    pub status : WaitStatus
    pub over : IsOver lib pid parent status t
    pub alive : status.signaled ≡ false
    pub zero_status : status.exit_status ≡ 0

  forked-IsServed :
      (build : VmBuild) (fuel : ℕ) (s t : S) (args : Args) (f : Forked S)
      → Args.new net build ≡ ok args
      → check_single_threaded host s ≡ ok tt
      → lib.fork s ≡ f
      → parent_of net host lib fuel f ≡ some (ok tt, t)
      → IsServed build s t
  forked-IsServed build fuel s t args (fork_failed e u) valid single split h = absurd (cc h)
  forked-IsServed build fuel s t args (forked pid parent mine) valid single split h =
      let (status, (over, (alive, zero_status))) = wait_for-ok lib fuel pid parent t h in
      record {
        args = args;
        valid = valid;
        single = single;
        pid = pid;
        parent = parent;
        mine = mine;
        split = split;
        status = status;
        over = over;
        alive = alive;
        zero_status = zero_status;
      }

  single-IsServed :
      (build : VmBuild) (fuel : ℕ) (s t : S) (args : Args) (r : Result VmBuildError (Unit {0}))
      → Args.new net build ≡ ok args
      → check_single_threaded host s ≡ r
      → when_single net host lib fuel s r ≡ some (ok tt, t)
      → IsServed build s t
  single-IsServed build fuel s t args (err e) valid single h = absurd (cc h)
  single-IsServed build fuel s t args (ok _) valid single h =
      forked-IsServed build fuel s t args (lib.fork s) valid single refl h

  args-IsServed :
      (build : VmBuild) (fuel : ℕ) (s t : S) (r : Result VmBuildError Args)
      → Args.new net build ≡ r
      → with_args net host lib fuel s r ≡ some (ok tt, t)
      → IsServed build s t
  args-IsServed build fuel s t (err e) valid h = absurd (cc h)
  args-IsServed build fuel s t (ok args) valid h =
      single-IsServed build fuel s t args (check_single_threaded host s) valid refl h

  run-IsServed :
      (build : VmBuild) (fuel : ℕ) (s t : S)
      → run net host lib fuel build s ≡ some (ok tt, t)
      → IsServed build s t
  unfolding run
  run-IsServed build fuel s t h = args-IsServed build fuel s t (Args.new net build) refl h

  -- What `waitpid` is documented to tell: the end of the child, unless a signal killed it.
  abbrev pub Reports : VmBuild → S → Type 0
  Reports build s =
      (args : Args) (pid : ℕ) (parent mine before after : S) (status : WaitStatus)
      → Args.new net build ≡ ok args
      → lib.fork s ≡ forked pid parent mine
      → lib.waitpid pid before ≡ (waited status, after)
      → status.signaled ≡ false
      → status ≡ status_of (child net host lib args build mine)

  zero-taken_over :
      (args : Args) (build : VmBuild) (s : S) (e : Ended)
      → child net host lib args build s ≡ e
      → exit_code e % 256 ≡ 0
      → (code : ℕ) × ((e ≡ taken_over code) × (code % 256 ≡ 0))
  unfolding child
  zero-taken_over args build s (taken_over code) ran zero = (code, (refl, zero))
  zero-taken_over args build s (returned code) ran zero =
      elim (enter_vm-told lib args build.cpus build.memory_mib s code ran) [
        | inl setup ↦ absurd (omega arith)
        | inr enter ↦ absurd (omega arith)
      ]

  -- Where libkrun configures machines and `waitpid` reports children as documented: `run` reports
  -- success only after the machine that the request asks for was started in a child, and its workload
  -- has exited with 0. A NUL in a text, another thread, a failed fork, a refused call of libkrun, a
  -- signal and any other status never look like success.
  pub run-succeeded :
      (view : ℕ → S → Machine)
      → Configures lib view
      → (build : VmBuild) (fuel : ℕ) (s t : S) → Reports build s
      → run net host lib fuel build s ≡ some (ok tt, t)
      → (ctx code : ℕ) × (at : S) × (view ctx at ≡ machine_of net build)
        × ((lib.start_enter ctx at).0 ≡ exited code)
        × (code % 256 ≡ 0)
  run-succeeded view C build fuel s t reports done =
      let d = run-IsServed build fuel s t done in
      let same =
        reports d.args d.pid d.parent d.mine d.over.before t d.status d.valid d.split d.over.arrived
          d.alive in
      let (code, (taken, zero)) =
        zero-taken_over d.args build d.mine (child net host lib d.args build d.mine) refl
          (ap (λ (x : WaitStatus). x.exit_status) (sym same) ∙ d.zero_status) in
      let (ctx, (at, (described, entered))) =
        child-machine net host lib view C build d.mine code d.valid taken in
      (ctx, code, at, described, entered, zero)
