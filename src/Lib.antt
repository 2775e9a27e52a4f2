-- ===== src/Lib.antt =====
-- A verification library of openshell-build-image: a command line program that builds a container
-- image from a project image, by a container CLI on the host or in a libkrun microVM.
--
-- The parts and how they work together. `main` (src/main.rs) checks the flags, selects a backend and
-- runs it. `generate` (src/containerfile.rs) checks the image reference and writes the Containerfile.
-- A CLI build (crates/container-image-builder/src/lib.rs) hands it to podman, docker or container in a
-- temporary file. A VM build (crates/vm-image-builder/src/lib.rs) puts it into the build context,
-- resolves the paths and hands one request to a runner; krun.rs is the runner, which forks, configures
-- libkrun in the child and waits in the parent; dns.rs finds the nameservers for the guest. The rootfs
-- that the VM boots from is embedded by build.rs and unpacked by src/vm_rootfs.rs. Inside the VM the
-- script vm-build (crates/vm-image-builder/vm-image) runs buildah and writes the tarball; the rootfs is
-- made by make-rootfs.sh beside it.
--
-- Which file models which part (a directory of the same name holds the parts of a file and what is
-- proved of it):
--   Containerfile    src/containerfile.rs: parse_image_reference, generate, final_stage
--   Main             src/main.rs: Cli, check_vm_flags, vm_config, vm_nameservers, vm_output_path,
--                    select_runtime, select_vm, backend_for, build_summary, run, main
--   VmRootfs         src/vm_rootfs.rs: install, stage, cache_key, marker_matches, sweep_old_versions;
--                    VmRootfs.Process has install as the steps of one process among several
--   ContainerImage   crates/container-image-builder/src/lib.rs: ContainerCli, BuildError, build
--   VmImage          crates/vm-image-builder/src/lib.rs: VmConfig, VmBuild, VmBuildError, build,
--                    check_rootfs, check_single_threaded, the cfg choices of KrunRunner
--   Dns              crates/vm-image-builder/src/dns.rs; std's classification of addresses is in
--                    Dns.Addr
--   Krun             crates/vm-image-builder/src/krun.rs: Args, enter_vm, wait_for, run
--   Guest            crates/vm-image-builder/vm-image/vm-build: the script, its trap, and the size of its
--                    storage; Guest.Hosted is the script in the machine that main starts
--   MakeRootfs       crates/vm-image-builder/vm-image/make-rootfs.sh: the script with its trap
--   Shell            what a POSIX shell does with commands, statuses and `set -e`
--   BuildScript      build.rs: main, compress, verify_frame, hex
--   Text, FilePath   what std does on str and Path: trim, lines, split_once, join, file_name, parent
--   Host             std::fs and tempfile: the interface, its laws, and an instance in memory
--   Conformance      the unit tests of the Rust modules, run on the model
--   Base             results, computations that may fail, lists and tests
--
-- How the code is modelled. A text is the list of its code points and a path is its text. A
-- function that reads or changes the host is a function of a state; one that changes it returns a
-- result and the next state (Base.Io), and a step that fails keeps the changes made before it. Where
-- the code returns early the model tests the same conditions in the same order. What a destructor
-- does at the end of a scope (temporary files and directories) is written out. A panic of the build
-- script is an error. A shell script is a sequence of commands over a state: the first that fails ends
-- it with its status, and its trap runs on the state that is left. Processes that install at the same
-- time are a program counter for each process id and one disk; a step is one call that changes the disk, with the queries just before it, and the
-- steps of different processes come in any order. A process may be killed, also in the middle of a
-- call, and its id given to a new one. Apart from that a call is one step, so no process
-- sees a tree that a running one has half unpacked or half removed. A directory that is swept is
-- listed once, before the first entry is looked at.
--
-- What is a parameter. The file system is the record FileSystem, with the documented effect of its
-- calls in IsLawful; it has no symbolic links across the paths at work and no other process at work
-- on them while one call runs. The crates which, tempfile, dirs, zstd, tar and sha2, the text syntax
-- of addresses, scutil, proc_pidinfo, libkrun, fork and waitpid are fields of records. What the
-- configuring calls of libkrun do to a machine, and what waitpid tells of a child, are the hypotheses
-- Configures (Krun.Guest) and Reports (Krun.Served). What clap enforces by its value parsers is IsParsed
-- (Main.Parsed). What the host has to permit for install to succeed, and no more than
-- std grants where a directory is where one is needed, is IsPermitting (VmRootfs.Permitting). What the commands of the two scripts do is a field of the record Shell; a status
-- is one byte by the hypothesis IsPosix (Guest.Ends), and that libkrun exits with the status of the
-- script is the hypothesis Boots (Guest.Hosted). The examples in Tests instantiate all of them.
--
-- Bounds and fuel. The only loop without a bound in the code is the one round waitpid: wait_for takes
-- the number of calls as fuel and returns none when it is used up, and the theorems on it say how much
-- is enough. The decimal text of n is made with n + 1 steps of fuel, one for each digit.
--
-- Not modelled: log lines, the lines printed for cargo and to the user's terminal by the child, clap's
-- parsing and the tests of it, the tests of whole runs under tests/, and field splitting in the guest
-- at anything but a blank.
pub mod Base
pub mod BuildScript
pub mod Conformance
pub mod ContainerImage
pub mod Containerfile
pub mod Dns
pub mod FilePath
pub mod Guest
pub mod Host
pub mod Krun
pub mod Main
pub mod MakeRootfs
pub mod Shell
pub mod Tests
pub mod Text
pub mod VmImage
pub mod VmRootfs
