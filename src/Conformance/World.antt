-- ===== src/Conformance/World.antt =====
-- The host on which the tests run: a disk in memory, with symbolic links where a test makes one, the
-- temporary files and directories, and the runners that the tests define.
use openshell_image_builder.Base.{
  ℕ, Bool, true, Option, none, some, List, [], ◌∷◌, ◌++◌, map, keep, ◌==◌, if◌then◌else◌, Result,
  ok, err,
}
use openshell_image_builder.Base.Int.{pos}
use openshell_image_builder.Base.Io.{Io}
use openshell_image_builder.Text.{Text, codes, text_eq}
use openshell_image_builder.FilePath.{FilePath, join, parent}
use openshell_image_builder.Host.{IoError, other, no_entry, FileSystem, OpenOptions}
use openshell_image_builder.Host.Memory.{nothing, dir, file, stat_of, Disk, put, memory}
use openshell_image_builder.Host.Temp.{Temp}
use openshell_image_builder.ContainerImage.{Runner, ExitStatus}
use openshell_image_builder.VmImage.Error.{VmBuildError}
use openshell_image_builder.VmImage.Config.{VmBuild, VmConfig, new}
use openshell_image_builder.VmImage.Build.{VmRunner}
use openshell_image_builder.Conformance.Addresses.{net}

-- What the runners keep is the build and the text that they have seen.
pub record Bench : Type 0 where
  pub disk : Disk
  pub link : FilePath → Option FilePath
  pub build : Option VmBuild
  pub text : Option Text

abbrev on_disk : {E A : Type 0} → Io Disk E A → Io Bench E A
on_disk m s = let (r, d) = m s.disk in (r, record s { disk = d })

abbrev plain : FileSystem
plain = memory []

-- The names that a listing looks for.
abbrev entries : List Text
entries =
    codes "0.13.0-next"
    ∷ codes "0.0.1-old"
    ∷ codes ".staging-0.13.0-next-7"
    ∷ codes ".staging-0.13.0-next-8"
    ∷ []

abbrev exists_at : Bench → FilePath → Bool
exists_at s p = (stat_of (s.disk p)).exists

abbrev is_dir_at : Bench → Option FilePath → Bool
is_dir_at s none = true
is_dir_at s (some p) = (stat_of (s.disk p)).is_dir

-- A file is made only in a directory that is there.
abbrev made_at : FilePath → Text → Bench → Result IoError FilePath × Bench
made_at p text s =
    if is_dir_at s (parent p)
    then (ok p, record s { disk = put p (file 0o644 text) s.disk })
    else (err no_entry, s)

abbrev too_many_links : IoError
too_many_links = record { kind = other; message = codes "Too many levels of symbolic links" }

abbrev opened : OpenOptions → FilePath → Option FilePath → Bench → Result IoError FilePath × Bench
opened options p none s = made_at p [] s
opened options p (some target) s =
    if options.nofollow then (err too_many_links, s) else made_at target [] s

abbrev forget : {A : Type 0} → Result IoError A × Bench → Result IoError (Unit {0}) × Bench
forget (ok a, s) = (ok tt, s)
forget (err e, s) = (err e, s)

abbrev pub fs : FileSystem
fs = record {
  State = Bench;
  Handle = FilePath;
  stat = λ s p. stat_of (s.disk p);
  canonicalize = λ s p. if exists_at s p then ok p else err no_entry;
  read_dir = λ s p. ok (map ok (keep (λ n. exists_at s (join p n)) entries));
  create_dir_all = λ p. on_disk (plain.create_dir_all p);
  remove_dir_all = λ p. on_disk (plain.remove_dir_all p);
  rename = λ a b. on_disk (plain.rename a b);
  write = λ p t s. forget (made_at p t s);
  open_file = λ options p s. opened options p (s.link p) s;
  write_all = λ p t. on_disk (plain.write p t);
}

-- `tempfile::tempdir().unwrap()`
abbrev pub tmp : FilePath
tmp = codes "/tmp/test"

abbrev pub start : Bench
start = record {
  disk = put tmp dir (put (codes "/tmp") dir (λ p. nothing));
  link = λ p. none;
  build = none;
  text = none;
}

abbrev context : FilePath
context = codes "/tmp/openshell-build-image"

abbrev temp_file : FilePath
temp_file = codes "/tmp/containerfile"

abbrev pub temp : Temp Bench
temp = record {
  TempFile = FilePath;
  TempDir = FilePath;
  new_file = made_at temp_file [];
  file_path = λ p. p;
  write_all = λ p t. on_disk (plain.write p t);
  drop_file = λ p s. record s { disk = put p nothing s.disk };
  new_dir = λ prefix s. (ok context, record s { disk = put context dir s.disk });
  dir_path = λ p. p;
  drop_dir = λ p s. (on_disk (plain.remove_dir_all p) s).1;
}

-- `fake_vm_rootfs` and `fake_rootfs`: a directory that passes `check_rootfs`, with this mode.
abbrev with_rootfs : FilePath → ℕ → Bench → Bench
with_rootfs rootfs mode s = record s {
  disk =
      put (rootfs ++ codes "/usr/local/bin/vm-build") (file mode (codes "#!/bin/sh\n"))
        (put rootfs dir s.disk);
}

abbrev pub fake_vm_rootfs : FilePath
fake_vm_rootfs = join tmp (codes "vm-rootfs")

abbrev pub fake_rootfs : FilePath
fake_rootfs = join tmp (codes "rootfs")

abbrev pub bench : ℕ → Bench
bench mode = with_rootfs fake_vm_rootfs mode (with_rootfs fake_rootfs mode start)

abbrev pub exit_with : ℕ → ExitStatus
exit_with code = record { success = code == 0; code = some (pos code) }

-- `FakeRunner` of main.rs and of the container crate.
abbrev pub fake_runner : Result IoError ExitStatus → Runner Bench
fake_runner result = record { run = λ command s. (result, s) }

unfoldable pub after_flag : List Text → Option Text
unfolding text_eq
after_flag [] = none
after_flag (a ∷ []) = none
after_flag (a ∷ b ∷ rest) = if text_eq a (codes "-f") then some b else after_flag (b ∷ rest)

abbrev pub contents_at : Bench → Option FilePath → Result IoError Text
contents_at s none = err no_entry
contents_at s (some p) = (stat_of (s.disk p)).contents

abbrev seen : Result IoError Text → Bench → Result IoError ExitStatus × Bench
seen (err e) s = (err e, s)
seen (ok t) s = (ok (exit_with 0), record s { text = some t })

-- `ContainerfileCapture`: the file that the command names is kept.
abbrev pub containerfile_capture : Runner Bench
containerfile_capture = record {
  run = λ command s. seen (contents_at s (after_flag command.args)) s;
}

-- `CaptureRunner`
abbrev pub capture_runner : VmRunner Bench
capture_runner = record {
  run = λ build s. (ok tt, record s { build = some build });
  check_supported = λ s. (ok tt, s);
}

-- `FailingRunner` and `FailingVmRunner`
abbrev pub failing_runner : VmBuildError → VmRunner Bench
failing_runner e = record { run = λ build s. (err e, s); check_supported = λ s. (ok tt, s) }

-- `VmConfig::new`
abbrev pub config_for : FilePath → VmConfig
config_for rootfs = new fs net rootfs start
