-- ===== src/Krun/Run.antt =====
-- `run` of krun.rs: what is checked before the fork, and what the parent learns of the child.
use openshell_image_builder.Base.{
  inl, inr, ◌⊎◌, true, Result-cases, ℕ, ◌<◌, Option, some, Result, ok, err, ◌≡◌, arith,
}
use openshell_image_builder.Text.{Text}
use openshell_image_builder.Dns.{Net}
use openshell_image_builder.VmImage.Error.{VmBuildError, io}
use openshell_image_builder.VmImage.Config.{VmBuild}
use openshell_image_builder.VmImage.Threads.{
  ThreadHost, check_single_threaded, IsSingleThreaded, check_single_threaded_iff,
}
use openshell_image_builder.Krun.Args.{Args}
use openshell_image_builder.Krun.Args
use openshell_image_builder.Krun.Args.{◌>>=◌, has_nul, IsCString, IsPassed, new-IsPassed}
use openshell_image_builder.Krun.Enter.{
  LibKrun, Forked, fork_failed, forked, waited, Ended, enter_vm,
}
use openshell_image_builder.Krun.Wait.{
  wait_for, Interrupts, wait_for-Interrupts, intended, status_of, IsTold, outcome-intended,
}

no_nul : (s t : Text) → IsCString s t → ¬ (has_nul s ≡ true)
no_nul s t (same, clean) nul = cc (same, clean, nul)

module _ {S : Type 0} (net : Net S) (host : ThreadHost S) (lib : LibKrun S) where
  abbrev pub parent_of : ℕ → Forked S → Option (Result VmBuildError (Unit {0}) × S)
  parent_of fuel (fork_failed e s) = some (err (io e), s)
  parent_of fuel (forked pid s child) = wait_for lib fuel pid s

  abbrev pub when_single :
      ℕ → S → Result VmBuildError (Unit {0}) → Option (Result VmBuildError (Unit {0}) × S)
  when_single fuel s (err e) = some (err e, s)
  when_single fuel s (ok _) = parent_of fuel (lib.fork s)

  abbrev pub with_args :
      ℕ → S → Result VmBuildError Args → Option (Result VmBuildError (Unit {0}) × S)
  with_args fuel s (err e) = some (err e, s)
  with_args fuel s (ok args) = when_single fuel s (check_single_threaded host s)

  -- `none` stands for a parent that is still waiting for its child after `fuel` calls.
  unfoldable pub run : ℕ → VmBuild → S → Option (Result VmBuildError (Unit {0}) × S)
  run fuel build s = with_args fuel s (Args.new net build)

  -- The process that `fork` starts runs this.
  unfoldable pub child : Args → VmBuild → S → Ended
  child args build s = enter_vm lib args build.cpus build.memory_mib s

  -- When the strings are valid, the process has one thread and the fork succeeds, the caller gets what
  -- the child came to: the parent waits through any number of interrupted calls, and reports the
  -- child's end as intended if its status is not one that two ends share.
  pub run-child :
      {args : Args} {pid n : ℕ} (build : VmBuild) (s parent mine done last : S) (fuel : ℕ)
      → Args.new net build ≡ ok args
      → check_single_threaded host s ≡ ok tt
      → lib.fork s ≡ forked pid parent mine
      → n < fuel
      → Interrupts lib pid n parent done
      → lib.waitpid pid done ≡ (waited (status_of (child args build mine)), last)
      → IsTold (child args build mine)
      → run fuel build s ≡ some (intended (child args build mine), last)
  unfolding run
  run-child {args} {pid} build s parent mine done last fuel valid single split enough calls arrived
        told =
      rw (valid, single, split)
        (rw
          (wait_for-Interrupts lib pid last fuel (status_of (child args build mine)) enough calls
            arrived)
          (rw (outcome-intended (child args build mine) told)))

  stopped :
      (build : VmBuild) (s : S) (fuel : ℕ) (e : VmBuildError) (r : Result VmBuildError Args)
      → (r >>= λ _. check_single_threaded host s) ≡ err e
      → with_args fuel s r ≡ some (err e, s)
  unfolding ◌>>=◌
  stopped build s fuel e (err e') h = ground (arith, h)
  stopped build s fuel e (ok args) h = rw h

  -- What must not reach libkrun: a text with a NUL, or a process with other threads.
  abbrev pub IsUnfit : VmBuild → S → Type 0
  IsUnfit build s =
      (has_nul build.rootfs ≡ true)
      ⊎ ((has_nul build.context ≡ true)
          ⊎ ((has_nul build.output_dir ≡ true)
              ⊎ ((has_nul build.output_filename ≡ true)
                  ⊎ ((has_nul build.tag ≡ true)
                      ⊎ ((host.macos ≡ true) × (¬ IsSingleThreaded host s))))))

  passed-fit :
      (build : VmBuild) (s : S) (args : Args)
      → IsPassed net build args
      → check_single_threaded host s ≡ ok tt
      → ¬ IsUnfit build s
  passed-fit build s args p single (inl nul) = no_nul _ _ p.rootfs nul
  passed-fit build s args p single (inr (inl nul)) = no_nul _ _ p.context nul
  passed-fit build s args p single (inr (inr (inl nul))) = no_nul _ _ p.output_dir nul
  passed-fit build s args p single (inr (inr (inr (inl nul)))) = no_nul _ _ p.output_filename nul
  passed-fit build s args p single (inr (inr (inr (inr (inl nul))))) = no_nul _ _ p.tag nul
  passed-fit build s args p single (inr (inr (inr (inr (inr (mac, many)))))) =
      many ((check_single_threaded_iff host s mac).0 single)

  -- A request with a NUL in one of its texts, or a process that has other threads or cannot count them
  -- on macOS, ends the run with an error before the fork, with the state as it was.
  pub run-refused :
      (build : VmBuild) (s : S) (fuel : ℕ)
      → IsUnfit build s
      → (e : VmBuildError) × (run fuel build s ≡ some (err e, s))
  unfolding run ◌>>=◌
  run-refused build s fuel unfit = elim (Result-cases (Args.new net build)) [
    | inr (e, invalid) ↦ (e, stopped build s fuel e (Args.new net build) (rw invalid))
    | inl (args, valid) ↦ elim (Result-cases (check_single_threaded host s)) [
      | inr (e, threads) ↦ (e, stopped build s fuel e (Args.new net build) (rw (valid, threads)))
      | inl (_, single) ↦
          absurd (passed-fit build s args (new-IsPassed net build valid) single unfit)
    ]
  ]
