-- ===== src/Tests/Machine.antt =====
-- The VM builds and libkrun at concrete inputs. The state of the process is a counter: the first
-- `waitpid` is interrupted.
use openshell_image_builder.Base.{
  ℕ, zero, suc, ◌+◌, ◌%◌, ◌<◌, Bool, true, false, Option, none, some, List, [], ◌∷◌, ◌==◌,
  if◌then◌else◌, Result, ok, err, ◌≡◌, refl, ◌≢◌, ◌↔◌, inl, inr, arith, sym, ◌∙◌,
}
use openshell_image_builder.Base.Int.{pos}
use openshell_image_builder.Base.Io.{ok_injective}
use openshell_image_builder.Text.{Text, codes}
use openshell_image_builder.FilePath.{FilePath}
use openshell_image_builder.Host.{interrupted, IoError}
use openshell_image_builder.Host.Memory.{dir, file, Disk, put}
use openshell_image_builder.Dns.Addr.{v4}
use openshell_image_builder.VmImage.Error.{VmBuildError}
use openshell_image_builder.VmImage.Config.{
  VmConfig, VmBuild, helper_of, check_rootfs, not_a_directory,
}
use openshell_image_builder.VmImage.Rootfs.{IsBuildRootfs, check_rootfs_iff}
use openshell_image_builder.VmImage.Build.{build}
use openshell_image_builder.VmImage.Handover.{IsHandedOver, build-IsHandedOver, build-refused}
use openshell_image_builder.VmImage.Threads.{
  ThreadHost, check_single_threaded, IsSingleThreaded, check_single_threaded_iff,
}
use openshell_image_builder.Krun.Args
use openshell_image_builder.Krun.Args.{Args, ◌>>=◌, IsPassed, new-IsPassed}
use openshell_image_builder.Krun.Enter.{
  LibKrun, forked, Waited, wait_failed, waited, WaitStatus, exited, Ended, returned, taken_over,
  exit_enter_failed, enter_vm, IsBooted, enter_vm_iff,
}
use openshell_image_builder.Krun.Fate.{workload, fate_status, meant, IsMistaken, outcome-meant_iff}
use openshell_image_builder.Krun.Wait.{
  outcome, intended, status_of, IsTold, wait_for, Interrupts, here, next, wait_for-Interrupts,
}
use openshell_image_builder.Krun.Run.{run, child, run-child, IsUnfit, run-refused}
use openshell_image_builder.Tests.World.{
  fs, fs-IsLawful, net, empty_disk, failure, krun_runner, paired,
}

abbrev rootfs_dir : FilePath
rootfs_dir = codes "/rootfs"

abbrev disk : Disk
disk = put (codes "/rootfs/usr/local/bin/vm-build") (file 0o755 []) (put rootfs_dir dir empty_disk)

abbrev config : VmConfig
config = record { rootfs = rootfs_dir; cpus = 2; memory_mib = 4096; nameservers = v4 8 8 8 8 ∷ [] }

helper-mode : (fs.stat disk (helper_of rootfs_dir)).mode ≡ ok 0o755
unfolding openshell_image_builder.Text.text_eq openshell_image_builder.VmImage.Config.helper_of
helper-mode = refl

mode-fits : (m : ℕ) → (fs.stat disk (helper_of rootfs_dir)).mode ≡ ok m → m < 65536
mode-fits m h = let same : 0o755 ≡ m = ok_injective (sym helper-mode ∙ h) in omega (arith, same)

check_rootfs_iff_example :
    (check_rootfs fs rootfs_dir disk ≡ ok tt) ↔ IsBuildRootfs fs disk rootfs_dir
check_rootfs_iff_example = check_rootfs_iff fs rootfs_dir disk mode-fits

abbrev build_result : Result VmBuildError (Unit {0}) × Disk
build_result =
    build fs (codes "FROM a") (codes "t") config krun_runner (codes "/c") (codes "out/t.tar") disk

built : build_result.0 ≡ ok tt
unfolding openshell_image_builder.VmImage.Build.build
    openshell_image_builder.VmImage.Build.write_containerfile
    openshell_image_builder.VmImage.Build.canonicalize
    openshell_image_builder.VmImage.Build.output_name
    openshell_image_builder.VmImage.Config.check_rootfs
    openshell_image_builder.VmImage.Config.check_mode
    openshell_image_builder.VmImage.Config.helper_of openshell_image_builder.Base.Io.next
    openshell_image_builder.Base.Io.retag openshell_image_builder.FilePath.file_name
    openshell_image_builder.FilePath.parent
built = refl

build-IsHandedOver_example :
    IsHandedOver fs
      (codes "FROM a")
      (codes "t")
      config
      krun_runner
      (codes "/c")
      (codes "out/t.tar")
      disk
      build_result.1
build-IsHandedOver_example =
    build-IsHandedOver fs fs-IsLawful (codes "FROM a") (codes "t") config krun_runner (codes "/c")
      (codes "out/t.tar") disk build_result.1 (paired build_result built)

no_rootfs : ¬ IsBuildRootfs fs empty_disk rootfs_dir
no_rootfs r = cc r.is_dir

no_mode : (m : ℕ) → (fs.stat empty_disk (helper_of rootfs_dir)).mode ≡ ok m → m < 65536
no_mode m h = absurd (cc h)

build-refused_example :
    (e : VmBuildError) × (build fs
        (codes "FROM a")
        (codes "t")
        config
        krun_runner
        (codes "/c")
        (codes "t.tar")
        empty_disk
      ≡ (err e, empty_disk))
build-refused_example =
    build-refused fs (codes "FROM a") (codes "t") config krun_runner (codes "/c") (codes "t.tar")
      empty_disk no_mode no_rootfs

abbrev threads : ThreadHost ℕ
threads = record {
  macos = true;
  size = 96;
  proc_pidinfo = λ s. record { ret = pos 96; pti_threadnum = pos 1; last_os_error = failure };
}

check_single_threaded_iff_instance :
    (check_single_threaded threads 0 ≡ ok tt) ↔ IsSingleThreaded threads 0
check_single_threaded_iff_instance = check_single_threaded_iff threads 0 refl

abbrev interruption : IoError
interruption = record { kind = interrupted; message = codes "Interrupted system call" }

abbrev lib : LibKrun ℕ
lib = record {
  debug_enabled = λ s. false;
  set_log_level = λ level s. s;
  create_ctx = λ s. (pos 1, s);
  set_vm_config = λ ctx cpus memory_mib s. (pos 0, s);
  add_virtiofs = λ ctx tag dir s. (pos 0, s);
  set_workdir = λ ctx dir s. (pos 0, s);
  set_exec = λ ctx exec argv envp s. (pos 0, s);
  start_enter = λ ctx s. (exited 3, s);
  fork = λ s. forked 42 s s;
  waitpid = λ pid s.
      if s == 0
      then (wait_failed interruption, 1)
      else (waited (record { signaled = false; exit_status = 3 }), 2);
}

abbrev pub request : VmBuild
request = record {
  rootfs = rootfs_dir;
  context = codes "/c";
  output_dir = codes "/out";
  output_filename = codes "t.tar";
  tag = codes "t";
  cpus = 2;
  memory_mib = 4096;
  nameservers = v4 8 8 8 8 ∷ [];
}

abbrev pub args : Args
args = record {
  rootfs = rootfs_dir;
  context = codes "/c";
  output_dir = codes "/out";
  output_filename = codes "t.tar";
  containerfile = codes "/build/context/Containerfile";
  tag = codes "t";
  tag_root = codes "/dev/root";
  tag_context = codes "openshell-context";
  tag_output = codes "openshell-output";
  workdir = codes "/";
  exec = codes "/usr/local/bin/vm-build";
  path_env = codes "PATH=/bin:/usr/bin:/usr/local/bin:/sbin:/usr/sbin";
  dns_env = some (codes "OPENSHELL_VM_DNS=8.8.8.8");
}

converted : Args.new (net {S = ℕ}) request ≡ ok args
unfolding openshell_image_builder.Krun.Args.new openshell_image_builder.Krun.Args.◌>>=◌
    openshell_image_builder.Krun.Args.cstring openshell_image_builder.Krun.Args.cstring_path
    openshell_image_builder.VmImage.Config.containerfile_vm_path
    openshell_image_builder.VmImage.Config.dns_env_value openshell_image_builder.Dns.join
    openshell_image_builder.Text.show openshell_image_builder.Text.join
    openshell_image_builder.Text.to_str
converted = refl

once : Interrupts lib 42 1 0 1
once = next refl refl here

wait_for-Interrupts_example :
    wait_for lib 2 42 0 ≡ some (outcome (record { signaled = false; exit_status = 3 }), 2)
wait_for-Interrupts_example =
    wait_for-Interrupts lib 42 2 2 (record { signaled = false; exit_status = 3 }) (omega arith) once
      refl

outcome-meant_iff_example :
    (outcome (fate_status (workload 118)) ≡ meant (workload 118)) ↔ (¬ IsMistaken (workload 118))
outcome-meant_iff_example = outcome-meant_iff (workload 118)

entered : child net threads lib args request 0 ≡ taken_over 3
unfolding openshell_image_builder.Krun.Run.child openshell_image_builder.Krun.Enter.enter_vm
    openshell_image_builder.Krun.Enter.steps
entered = refl

single : check_single_threaded threads 0 ≡ ok tt
unfolding openshell_image_builder.VmImage.Threads.check_single_threaded
    openshell_image_builder.VmImage.Threads.host_thread_count
    openshell_image_builder.VmImage.Threads.thread_count
single = refl

arrived : lib.waitpid 42 1 ≡ (waited (status_of (child net threads lib args request 0)), 2)
arrived = rw entered

told : IsTold (taken_over 3)
told = omega arith

run-child_example :
    run net threads lib 2 request 0 ≡ some (intended (child net threads lib args request 0), 2)
run-child_example =
    run-child net threads lib {args = args} {pid = 42} {n = 1} request 0 0 0 1 2 2 converted single
      refl (omega arith) once arrived (rw entered told)

abbrev bad_request : VmBuild
bad_request = record {
  rootfs = rootfs_dir;
  context = codes "/c";
  output_dir = codes "/out";
  output_filename = 0 ∷ [];
  tag = codes "t";
  cpus = 2;
  memory_mib = 4096;
  nameservers = [];
}

bad_request-nul : IsUnfit net threads lib bad_request 0
bad_request-nul = inr (inr (inr (inl refl)))

run-refused_instance : (e : VmBuildError) × (run net threads lib 2 bad_request 0 ≡ some (err e, 0))
run-refused_instance = run-refused net threads lib bad_request 0 2 bad_request-nul
