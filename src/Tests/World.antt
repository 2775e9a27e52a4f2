-- ===== src/Tests/World.antt =====
-- The host on which the examples run: a file system in memory, two known nameservers, an archive
-- that unpacks at one path, temporary files at fixed paths, and runners that succeed.
use openshell_image_builder.Base.{
  ℕ, true, false, Option, none, some, List, [], ◌∷◌, ◌==◌, if◌then◌else◌, Result, ok, err, All, ◌≡◌,
  ap, arith,
}
use openshell_image_builder.Base.Int.{pos}
use openshell_image_builder.Text.{Text, codes, text_eq, show}
use openshell_image_builder.Text
use openshell_image_builder.FilePath.{FilePath}
use openshell_image_builder.FilePath.Laws.{IsName}
use openshell_image_builder.Host.{IoError, other, FileSystem}
use openshell_image_builder.Host.Laws.{IsLawful}
use openshell_image_builder.Host.Memory.{nothing, dir, file, Disk, put, memory, memory-IsLawful}
use openshell_image_builder.Host.Temp.{Temp}
use openshell_image_builder.Dns.{Net}
use openshell_image_builder.Dns.Addr.{IpAddr, v4, v6}
use openshell_image_builder.ContainerImage.{Runner}
use openshell_image_builder.VmImage.Build.{VmRunner}
use openshell_image_builder.VmRootfs.{Unpacker}
use openshell_image_builder.Main.{Outside}

abbrev pub names : List Text
names = codes "0.12.0" ∷ codes ".staging-0.13.0-next-9" ∷ []

pub names-IsName : All IsName names
names-IsName = (((λ e. cc e), omega arith), (((λ e. cc e), omega arith), tt))

abbrev pub fs : FileSystem
fs = memory names

pub fs-IsLawful : IsLawful fs
fs-IsLawful = memory-IsLawful names names-IsName

abbrev pub empty_disk : Disk
empty_disk p = nothing

abbrev pub failure : IoError
failure = record { kind = other; message = codes "failed" }

-- Addresses in decimal; two of them are read back.
abbrev pub show_addr : IpAddr → Text
show_addr (v4 a b c d) = Text.join (codes ".") (show a ∷ show b ∷ show c ∷ show d ∷ [])
show_addr (v6 a b c d e f g h) = codes "v6"

abbrev pub parse_addr : Text → Option IpAddr
parse_addr t =
    if text_eq t (codes "8.8.8.8")
    then some (v4 8 8 8 8)
    else if text_eq t (codes "9.9.9.9")
    then some (v4 9 9 9 9)
    else none

abbrev pub net : {S : Type 0} → Net S
net = record {
  parse_addr = parse_addr;
  show_addr = show_addr;
  macos = false;
  scutil = λ s. err failure;
}

abbrev pub root : FilePath
root = codes "/r"

abbrev pub staging : FilePath
staging = codes "/r/.staging-0.13.0-next-7"

abbrev pub staged_helper : FilePath
staged_helper = codes "/r/.staging-0.13.0-next-7/usr/local/bin/vm-build"

-- An archive that starts with 0x28 decodes, and unpacks at the staging path.
abbrev pub unpacker : Unpacker fs
unpacker = record {
  Stream = List ℕ;
  data_dir = λ s. some (codes "/data");
  process_id = 7;
  decoder =
      λ bytes. elim bytes [ [] ↦ err failure | b ∷ bs ↦ if b == 0x28 then ok bs else err failure ];
  unpack = λ stream p d.
      if text_eq staging p
      then (ok tt, put staged_helper (file 0o755 []) (put staging dir d))
      else (err failure, d);
}

abbrev pub archive : List ℕ
archive = 0x28 ∷ 0xb5 ∷ []

abbrev pub broken : List ℕ
broken = 0 ∷ []

abbrev pub digest : Text
digest = codes "abc"

abbrev pub context : FilePath
context = codes "/tmp/context"

abbrev pub temp : Temp Disk
temp = record {
  TempFile = FilePath;
  TempDir = FilePath;
  new_file = λ d. (ok (codes "/tmp/file"), put (codes "/tmp/file") (file 0o600 []) d);
  file_path = λ p. p;
  write_all = λ p t d. (ok tt, put p (file 0o600 t) d);
  drop_file = λ p d. put p nothing d;
  new_dir = λ prefix d. (ok context, put context dir d);
  dir_path = λ p. p;
  drop_dir = λ p d. put p nothing d;
}

abbrev pub outside : Outside fs
outside = record {
  net = net;
  unpacker = unpacker;
  temp = temp;
  which = λ s name. text_eq name (codes "podman");
  platform = record { apple_silicon = true; feature_krun = true };
  archive = archive;
  digest = digest;
  debug = λ t. t;
}

abbrev pub container_runner : Runner Disk
container_runner = record {
  run = λ command d. (ok (record { success = true; code = some (pos 0) }), d);
}

abbrev pub krun_runner : VmRunner Disk
krun_runner = record { run = λ build d. (ok tt, d); check_supported = λ d. (ok tt, d) }

-- A pair whose first half is known.
pub paired : {S E A : Type 0} {r : Result E A} (x : Result E A × S) → x.0 ≡ r → x ≡ (r, x.1)
paired {S} {E} {A} x h = ap (λ (y : Result E A). (y, x.1)) h
