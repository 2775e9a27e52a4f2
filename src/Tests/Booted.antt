-- ===== src/Tests/Booted.antt =====
-- The whole program with the libkrun backend, on a host whose state is a disk and the machine that a
-- libkrun keeps of what it is told.
use openshell_image_builder.Base.{
  ℕ, ◌%◌, Bool, true, false, Option, none, some, List, [], ◌∷◌, ◌++◌, Result, ok, err, ◌≡◌, refl,
  sym, ap, inl, inr, Option-cases, arith,
}
use openshell_image_builder.Base.Int.{ℤ, pos}
use openshell_image_builder.Base.Io.{Io}
use openshell_image_builder.Text.{Text, codes, text_eq}
use openshell_image_builder.FilePath.{FilePath}
use openshell_image_builder.Host.{IoError, FileSystem}
use openshell_image_builder.Host.Laws.{IsLawful}
use openshell_image_builder.Host.Memory.{Disk}
use openshell_image_builder.Host.Temp.{Temp}
use openshell_image_builder.VmImage.Error.{VmBuildError, failed}
use openshell_image_builder.VmImage.Config.{VmBuild}
use openshell_image_builder.VmImage.Build.{VmRunner}
use openshell_image_builder.VmImage.Threads.{ThreadHost}
use openshell_image_builder.VmRootfs.{Unpacker}
use openshell_image_builder.ContainerImage.{Runner}
use openshell_image_builder.Krun.Enter.{LibKrun, exited, forked, waited, WaitStatus, taken_over}
use openshell_image_builder.Krun.Run
use openshell_image_builder.Krun.Guest.{Machine, blank, Configures, machine_of}
use openshell_image_builder.Krun.Served.{Reports, run-succeeded}
use openshell_image_builder.Main
use openshell_image_builder.Main.{Outside, container_cli, main}
use openshell_image_builder.Main.Finished.{IsRequested}
use openshell_image_builder.Main.Machine.{IsKrunRunner, IsStarted, main-IsStarted}
use openshell_image_builder.Tests.World.{failure, context}
use openshell_image_builder.Tests.World
use openshell_image_builder.Tests.Machine.{request}
use openshell_image_builder.Tests.Program.{by_vm, vm_disk}

abbrev pub State : Type 0
State = Disk × Machine

-- What a call makes of the disk; the machine stays.
abbrev on_disk : {A : Type 0} → Io Disk IoError A → Io State IoError A
on_disk f s = ((f s.0).0, ((f s.0).1, s.1))

abbrev pub fs : FileSystem
fs = record {
  State = State;
  Handle = FilePath;
  stat = λ s p. World.fs.stat s.0 p;
  canonicalize = λ s p. World.fs.canonicalize s.0 p;
  read_dir = λ s p. World.fs.read_dir s.0 p;
  create_dir_all = λ p. on_disk (World.fs.create_dir_all p);
  remove_dir_all = λ p. on_disk (World.fs.remove_dir_all p);
  rename = λ a b. on_disk (World.fs.rename a b);
  write = λ p t. on_disk (World.fs.write p t);
  open_file = λ o p. on_disk (World.fs.open_file o p);
  write_all = λ p t. on_disk (World.fs.write_all p t);
}

disk_part :
    {A : Type 0} {x : Result IoError A × State} {r : Result IoError A} {t : State}
    → x ≡ (r, t)
    → ◌≡◌ {A = Result IoError A × Disk} (x.0, x.1.0) (r, t.0)
disk_part {A} h = ap (λ (y : Result IoError A × State). (y.0, y.1.0)) h

pub fs-IsLawful : IsLawful fs
fs-IsLawful =
    let L = World.fs-IsLawful in
    record {
      remove_frame = λ p q s. L.remove_frame p q s.0;
      remove_gone = λ p r s. L.remove_gone p r s.0;
      create_frame = λ p q s. L.create_frame p q s.0;
      create_dir = λ p s. L.create_dir p s.0;
      create_keeps = λ p q t s. L.create_keeps p q t s.0;
      written = λ o p t h s s' s'' cut opened wrote.
          L.written o p t h s.0 s'.0 s''.0 cut (disk_part opened) (disk_part wrote);
      written_frame = λ o p q t h s s' s'' differ opened wrote.
          L.written_frame o p q t h s.0 s'.0 s''.0 differ (disk_part opened) (disk_part wrote);
      write_frame = λ p q t s. L.write_frame p q t s.0;
      write_contents = λ p t s. L.write_contents p t s.0;
      rename_moves = λ a b r s. L.rename_moves a b r s.0;
      rename_frame = λ a b q s. L.rename_frame a b q s.0;
      rename_failed = λ a b q s. L.rename_failed a b q s.0;
      read_dir_names = λ p s. L.read_dir_names p s.0;
    }

abbrev temp : Temp State
temp = record {
  TempFile = FilePath;
  TempDir = FilePath;
  new_file = on_disk World.temp.new_file;
  file_path = λ p. p;
  write_all = λ p t. on_disk (World.temp.write_all p t);
  drop_file = λ p s. (World.temp.drop_file p s.0, s.1);
  new_dir = λ prefix. on_disk (World.temp.new_dir prefix);
  dir_path = λ p. p;
  drop_dir = λ p s. (World.temp.drop_dir p s.0, s.1);
}

abbrev unpacker : Unpacker fs
unpacker = record {
  Stream = List ℕ;
  data_dir = λ s. some (codes "/data");
  process_id = 7;
  decoder = World.unpacker.decoder;
  unpack = λ stream p. on_disk (World.unpacker.unpack stream p);
}

abbrev pub outside : Outside fs
outside = record {
  net = World.net;
  unpacker = unpacker;
  temp = temp;
  which = λ s name. false;
  platform = record { apple_silicon = true; feature_krun = true };
  archive = World.archive;
  digest = World.digest;
  debug = λ t. t;
}

abbrev pub lib : LibKrun State
lib = record {
  debug_enabled = λ s. false;
  set_log_level = λ level s. s;
  create_ctx = λ s. (pos 1, (s.0, blank));
  set_vm_config =
      λ ctx cpus memory_mib s. (pos 0, (s.0, record s.1 { cpus = cpus; memory_mib = memory_mib }));
  add_virtiofs =
      λ ctx tag path s. (pos 0, (s.0, record s.1 { shares = s.1.shares ++ (tag, path) ∷ [] }));
  set_workdir = λ ctx path s. (pos 0, (s.0, record s.1 { workdir = path }));
  set_exec = λ ctx exec argv envp s.
      (pos 0, (s.0, record s.1 { program = exec; arguments = argv; environment = envp }));
  start_enter = λ ctx s. (exited 0, s);
  fork = λ s. forked 42 s s;
  waitpid = λ pid s. (waited (record { signaled = false; exit_status = 0 }), s);
}

abbrev pub view : ℕ → State → Machine
view ctx s = s.1

pub lib-Configures : Configures lib view
lib-Configures = record {
  create_ctx = λ ctx s t e. ap (λ (x : ℤ × State). x.1.1) (sym e);
  set_vm_config = λ ctx cpus memory_mib s _. refl;
  add_virtiofs = λ ctx tag path s _. refl;
  set_workdir = λ ctx path s _. refl;
  set_exec = λ ctx program arguments environment s _. refl;
}

abbrev pub threads : ThreadHost State
threads = record {
  macos = true;
  size = 96;
  proc_pidinfo = λ s. record { ret = pos 96; pti_threadnum = pos 1; last_os_error = failure };
}

pub lib-Reports : (build : VmBuild) (s : State) → Reports World.net threads lib build s
unfolding openshell_image_builder.Krun.Run.child openshell_image_builder.Krun.Enter.enter_vm
    openshell_image_builder.Krun.Enter.steps
lib-Reports build s args pid parent mine before after status valid split arrived alive = cc arrived

request-served :
    Run.run World.net threads lib 1 request (vm_disk, blank) ≡ some (ok tt, (vm_disk, blank))
unfolding openshell_image_builder.Krun.Run.run openshell_image_builder.Krun.Wait.wait_for
    openshell_image_builder.Krun.Wait.outcome openshell_image_builder.Krun.Args.new
    openshell_image_builder.Krun.Args.◌>>=◌ openshell_image_builder.Krun.Args.cstring
    openshell_image_builder.Krun.Args.cstring_path
    openshell_image_builder.VmImage.Config.containerfile_vm_path
    openshell_image_builder.VmImage.Config.dns_env_value openshell_image_builder.Dns.join
    openshell_image_builder.VmImage.Threads.check_single_threaded
    openshell_image_builder.VmImage.Threads.host_thread_count
    openshell_image_builder.VmImage.Threads.thread_count openshell_image_builder.Text.to_str
    openshell_image_builder.Text.join openshell_image_builder.Text.show
request-served = refl

run-succeeded_instance :
    (ctx code : ℕ) × (at : State) × (view ctx at ≡ machine_of (World.net {S = State}) request)
    × ((lib.start_enter ctx at).0 ≡ exited code)
    × (code % 256 ≡ 0)
run-succeeded_instance =
    run-succeeded World.net threads lib view lib-Configures request 1 (vm_disk, blank)
      (vm_disk, blank) (lib-Reports request (vm_disk, blank)) request-served

-- A parent that is still waiting has no result yet.
abbrev or_waiting :
    State → Option (Result VmBuildError (Unit {0}) × State) → Result VmBuildError (Unit {0}) × State
or_waiting s none = (err (failed none), s)
or_waiting s (some x) = x

abbrev pub krun_runner : VmRunner State
krun_runner = record {
  run = λ build s. or_waiting s (Run.run World.net threads lib 1 build s);
  check_supported = λ s. (ok tt, s);
}

pub container_runner : Runner State
container_runner = record {
  run = λ command s. (ok (record { success = true; code = some (pos 0) }), s);
}

or_waiting-some :
    (s t : State) (o : Option (Result VmBuildError (Unit {0}) × State))
    → or_waiting s o ≡ (ok tt, t)
    → o ≡ some (ok tt, t)
or_waiting-some s t none h = absurd (cc h)
or_waiting-some s t (some x) h = ap some h

pub krun_runner-IsKrunRunner : IsKrunRunner fs outside container_runner krun_runner threads lib view
krun_runner-IsKrunRunner build s t h =
    (1, or_waiting-some s t (Run.run World.net threads lib 1 build s) h)

pub by_vm-none : container_cli by_vm.runtime ≡ none
unfolding openshell_image_builder.Main.container_cli
by_vm-none = refl

abbrev pub booted : Main.Ending fs outside × State
booted = main fs outside container_runner krun_runner by_vm (vm_disk, blank)

pub booted-code : booted.0.code ≡ 0
unfolding openshell_image_builder.Main.vm_nameservers openshell_image_builder.Main.vm_config
    openshell_image_builder.Main.select_runtime openshell_image_builder.Main.select_vm
    openshell_image_builder.Main.vm_output_path openshell_image_builder.Main.safe_char
    openshell_image_builder.Main.container_cli openshell_image_builder.Main.check_vm_flags
    openshell_image_builder.Main.run openshell_image_builder.Main.run_in
    openshell_image_builder.Main.build_with openshell_image_builder.Main.main
    openshell_image_builder.Main.attempt openshell_image_builder.Main.backend_for
    openshell_image_builder.Text.is_ascii_alphanumeric openshell_image_builder.Text.is_control
    openshell_image_builder.Dns.Addr.is_reachable_from_vm
    openshell_image_builder.Containerfile.generate
    openshell_image_builder.Containerfile.parse_image_reference
    openshell_image_builder.Containerfile.is_forbidden
    openshell_image_builder.VmImage.Platform.check_supported
    openshell_image_builder.Text.to_string_lossy openshell_image_builder.Text.is_whitespace
    openshell_image_builder.Text.show openshell_image_builder.Text.join
    openshell_image_builder.Text.to_str openshell_image_builder.VmImage.Config.check_rootfs
    openshell_image_builder.VmImage.Config.check_mode
    openshell_image_builder.VmImage.Config.helper_of openshell_image_builder.Base.Io.next
    openshell_image_builder.Base.Io.retag openshell_image_builder.VmImage.Build.build
    openshell_image_builder.VmImage.Build.write_containerfile
    openshell_image_builder.VmImage.Build.canonicalize
    openshell_image_builder.VmImage.Build.output_name openshell_image_builder.FilePath.file_name
    openshell_image_builder.FilePath.parent openshell_image_builder.Krun.Run.run
    openshell_image_builder.Krun.Wait.wait_for openshell_image_builder.Krun.Wait.outcome
    openshell_image_builder.Krun.Args.new openshell_image_builder.Krun.Args.◌>>=◌
    openshell_image_builder.Krun.Args.cstring openshell_image_builder.Krun.Args.cstring_path
    openshell_image_builder.VmImage.Config.containerfile_vm_path
    openshell_image_builder.VmImage.Config.dns_env_value openshell_image_builder.Dns.join
    openshell_image_builder.VmImage.Threads.check_single_threaded
    openshell_image_builder.VmImage.Threads.host_thread_count
    openshell_image_builder.VmImage.Threads.thread_count
booted-code = refl

main-IsStarted_example :
    (r : IsRequested fs outside container_runner krun_runner by_vm
      (vm_disk, blank)
      booted.0.stdout
      booted.1)
    × IsStarted fs outside container_runner krun_runner threads lib view r.request
main-IsStarted_example =
    main-IsStarted fs outside container_runner krun_runner threads lib view fs-IsLawful
      krun_runner-IsKrunRunner lib-Configures lib-Reports by_vm (vm_disk, blank) by_vm-none
      booted-code
