-- ===== src/Krun/Guest.antt =====
-- The machine that a request asks for, and the one that `enter_vm` has configured when libkrun takes
-- the process over. What the calls of libkrun do to a configuration is taken from its documentation.
use openshell_image_builder.Base.{
  ℕ, false, Option, none, some, List, [], ◌∷◌, ◌++◌, any, is_empty, if◌then◌else◌, ok, ◌≡◌, ◌∙◌,
  arith,
}
use openshell_image_builder.Base.Int.{pos, is_negative}
use openshell_image_builder.Text.{Text, codes}
use openshell_image_builder.Dns
use openshell_image_builder.Dns.{Net}
use openshell_image_builder.Dns.Addr.{IpAddr}
use openshell_image_builder.VmImage.Config.{VmBuild, dns_env_value}
use openshell_image_builder.VmImage.Threads.{ThreadHost}
use openshell_image_builder.Krun.Args.{Args, vm_path, IsCString, IsDnsEntry, IsPassed, new-IsPassed}
use openshell_image_builder.Krun.Args
use openshell_image_builder.Krun.Enter.{
  LibKrun, exited, taken_over, c_array, argv, envp, steps, logging, enter_vm_iff,
}
use openshell_image_builder.Krun.Run.{child}

-- A virtual machine as libkrun's calls describe it. A share is a tag and a directory of the host.
pub record Machine : Type 0 where
  pub cpus : ℕ
  pub memory_mib : ℕ
  pub shares : List (Text × Text)
  pub workdir : Text
  pub program : Text
  pub arguments : List Text
  pub environment : List Text

abbrev pub blank : Machine
blank = record {
  cpus = 0;
  memory_mib = 0;
  shares = [];
  workdir = [];
  program = [];
  arguments = [];
  environment = [];
}

-- The documented effect of the calls that configure a context, on the machine that it describes.
pub record Configures {S : Type 0} (lib : LibKrun S) (view : ℕ → S → Machine) : Type 0 where
  pub create_ctx : (ctx : ℕ) (s t : S) → lib.create_ctx s ≡ (pos ctx, t) → view ctx t ≡ blank
  pub set_vm_config :
      (ctx cpus memory_mib : ℕ) (s : S)
      → is_negative (lib.set_vm_config ctx cpus memory_mib s).0 ≡ false
      → view ctx (lib.set_vm_config ctx cpus memory_mib s).1
        ≡ record (view ctx s) { cpus = cpus; memory_mib = memory_mib }
  pub add_virtiofs :
      (ctx : ℕ) (tag path : Text) (s : S)
      → is_negative (lib.add_virtiofs ctx tag path s).0 ≡ false
      → view ctx (lib.add_virtiofs ctx tag path s).1
        ≡ record (view ctx s) { shares = (view ctx s).shares ++ (tag, path) ∷ [] }
  pub set_workdir :
      (ctx : ℕ) (path : Text) (s : S)
      → is_negative (lib.set_workdir ctx path s).0 ≡ false
      → view ctx (lib.set_workdir ctx path s).1 ≡ record (view ctx s) { workdir = path }
  pub set_exec :
      (ctx : ℕ) (program : Text) (arguments environment : List Text) (s : S)
      → is_negative (lib.set_exec ctx program arguments environment s).0 ≡ false
      → view ctx (lib.set_exec ctx program arguments environment s).1 ≡ record (view ctx s) {
        program = program;
        arguments = arguments;
        environment = environment;
      }

-- The entry for the nameservers, which is left out when there are none.
abbrev pub dns_entries : {S : Type 0} → Net S → List IpAddr → List Text
dns_entries net [] = []
dns_entries net (x ∷ xs) = (codes "OPENSHELL_VM_DNS=" ++ Dns.join net (x ∷ xs)) ∷ []

-- The machine that a request asks for.
abbrev pub machine_of : {S : Type 0} → Net S → VmBuild → Machine
machine_of net build = record {
  cpus = build.cpus;
  memory_mib = build.memory_mib;
  shares =
      (codes "/dev/root", build.rootfs)
      ∷ (codes "openshell-context", build.context)
      ∷ (codes "openshell-output", build.output_dir)
      ∷ [];
  workdir = codes "/";
  program = codes "/usr/local/bin/vm-build";
  arguments = codes "/build/context/Containerfile" ∷ build.tag ∷ build.output_filename ∷ [];
  environment = vm_path ∷ dns_entries net build.nameservers;
}

module _ {S : Type 0} (lib : LibKrun S) (view : ℕ → S → Machine) (C : Configures lib view) where
  -- The machine that the strings describe.
  abbrev machine : Args → ℕ → ℕ → Machine
  machine args cpus memory_mib = record {
    cpus = cpus;
    memory_mib = memory_mib;
    shares =
        (args.tag_root, args.rootfs)
        ∷ (args.tag_context, args.context)
        ∷ (args.tag_output, args.output_dir)
        ∷ [];
    workdir = args.workdir;
    program = args.exec;
    arguments = c_array (argv args);
    environment = c_array (envp args);
  }

  steps-machine :
      (args : Args) (cpus memory_mib ctx : ℕ) (s : S)
      → view ctx s ≡ blank
      → any is_negative (steps lib args cpus memory_mib ctx s).0 ≡ false
      → view ctx (steps lib args cpus memory_mib ctx s).1 ≡ machine args cpus memory_mib
  unfolding steps
  steps-machine args cpus memory_mib ctx s start accepted =
      let s1 = (lib.set_vm_config ctx cpus memory_mib s).1 in
      let s2 = (lib.add_virtiofs ctx args.tag_root args.rootfs s1).1 in
      let s3 = (lib.add_virtiofs ctx args.tag_context args.context s2).1 in
      let s4 = (lib.add_virtiofs ctx args.tag_output args.output_dir s3).1 in
      let s5 = (lib.set_workdir ctx args.workdir s4).1 in
      let v1 = C.set_vm_config ctx cpus memory_mib s (ground (arith, accepted)) in
      let v2 = C.add_virtiofs ctx args.tag_root args.rootfs s1 (ground (arith, accepted)) in
      let v3 = C.add_virtiofs ctx args.tag_context args.context s2 (ground (arith, accepted)) in
      let v4 = C.add_virtiofs ctx args.tag_output args.output_dir s3 (ground (arith, accepted)) in
      let v5 = C.set_workdir ctx args.workdir s4 (ground (arith, accepted)) in
      let v6 =
        C.set_exec ctx args.exec (c_array (argv args)) (c_array (envp args)) s5
          (ground (arith, accepted)) in
      rw (v6, v5, v4, v3, v2, v1, start)

module _ {S : Type 0} (net : Net S) where
  dns-entries :
      (ns : List IpAddr) (entry : Option Text)
      → IsDnsEntry (if is_empty ns then none else some (Dns.join net ns)) entry
      → c_array (entry ∷ none ∷ []) ≡ dns_entries net ns
  unfolding c_array
  dns-entries [] entry h = rw h
  dns-entries (x ∷ xs) entry (t, given, (same, clean)) = rw (given, same)

  passed-environment :
      (build : VmBuild) (args : Args)
      → IsPassed net build args
      → c_array (envp args) ≡ vm_path ∷ dns_entries net build.nameservers
  unfolding c_array dns_env_value
  passed-environment build args p =
      let entries = dns-entries build.nameservers args.dns_env p.dns_env in
      rw (p.path_env, ← entries)

  -- The strings of a valid request describe the machine of the request.
  passed-machine :
      (lib : LibKrun S) (view : ℕ → S → Machine) (C : Configures lib view) (build : VmBuild)
      (args : Args)
      → IsPassed net build args
      → machine lib view C args build.cpus build.memory_mib ≡ machine_of net build
  unfolding c_array
  passed-machine lib view C build args p =
      let (root, context, output) = p.shares in
      let environment = passed-environment build args p in
      rw (
        root, context, output, p.rootfs.0, p.context.0, p.output_dir.0, p.workdir, p.exec,
        p.containerfile, p.tag.0, p.output_filename.0, environment,
      )

  -- Where the calls of libkrun configure a machine as documented: when the child of a valid request is
  -- taken over by libkrun, the machine that is started is the one that the request asks for: its CPUs
  -- and memory, the three directories under their tags, the helper as the program, the Containerfile,
  -- the tag and the file name as its arguments, and PATH and the nameservers, if there are any, as its
  -- environment.
  pub child-machine :
      (host : ThreadHost S) (lib : LibKrun S) (view : ℕ → S → Machine)
      → Configures lib view
      → (build : VmBuild) {args : Args} (s : S) (code : ℕ) → Args.new net build ≡ ok args
      → child net host lib args build s ≡ taken_over code
      → (ctx : ℕ) × ((at : S) × ((view ctx at ≡ machine_of net build)
            × ((lib.start_enter ctx at).0 ≡ exited code)))
  unfolding child
  child-machine host lib view C build {args} s code valid taken =
      let b = (enter_vm_iff lib args build.cpus build.memory_mib s code).0 taken in
      let at = (steps lib args build.cpus build.memory_mib b.ctx b.after_ctx).1 in
      (
        b.ctx,
        (
          at,
          (
            steps-machine lib view C args build.cpus build.memory_mib b.ctx b.after_ctx
                  (C.create_ctx b.ctx (logging lib s) b.after_ctx b.created) b.accepted
                ∙ passed-machine lib view C build args (new-IsPassed net build valid),
            b.entered,
          ),
        ),
      )
