-- ===== src/Guest.antt =====
-- The build helper inside the VM: crates/vm-image-builder/vm-image/vm-build.
pub mod Outcome
pub mod Ends
pub mod Hosted
pub mod Resolves
pub mod Exports
pub mod Storage
use openshell_image_builder.Base.{
  ℕ, ◌*◌, List, [], ◌∷◌, ◌++◌, Result, ok, err, map_err, is_empty, if◌then◌else◌, ◌==◌, String,
}
use openshell_image_builder.Base.Int.{ℤ}
use openshell_image_builder.Base.Io.{Io, ◌>>=◌, ◌>>◌, lift}
use openshell_image_builder.Text.{Text, codes}
use openshell_image_builder.Dns.RoundTrip.{words_from, guest_resolv_conf}
use openshell_image_builder.Shell.{
  Action, simple, piped, redirected, Completed, Shell, trim_newlines, wrapped, divided, show_int,
  value, answer, asked, run_all,
}

-- The words of a part of a command that has no expansions.
abbrev pub words : String → List Text
words s = words_from [] (codes s)

-- `$((MEM_KB * 3 / 4 / 1024))`
unfoldable pub storage_mb : ℕ → ℤ
storage_mb mem_kb = divided (divided (wrapped (mem_kb * 3)) 4) 1024

abbrev pub shares : List Action
shares =
    simple (words "mkdir -p /build/context /build/output")
    ∷ simple (words "mount -t virtiofs openshell-context /build/context")
    ∷ simple (words "mount -t virtiofs openshell-output /build/output")
    ∷ []

-- `awk '/^MemTotal:/ {print $2}' /proc/meminfo`
abbrev pub mem_total : Action
mem_total = simple (codes "awk" ∷ codes "/^MemTotal:/ {print $2}" ∷ codes "/proc/meminfo" ∷ [])

abbrev pub storage : Text → List Action
storage size =
    simple (words "mkdir -p /var/lib/containers")
    ∷ simple (
        words "mount -t tmpfs -o"
        ++ (codes "size=" ++ (size ++ codes "m")) ∷ words "tmpfs /var/lib/containers")
    ∷ simple (words "mount -t tmpfs tmpfs /run")
    ∷ simple (words "mkdir -p /run/containers")
    ∷ []

-- The nameservers of the host, when it has passed some.
abbrev pub nameservers : Text → List Action
nameservers dns =
    if is_empty dns
    then []
    else redirected (codes "/run/resolv.conf") (guest_resolv_conf dns)
      ∷ simple (words "mount -o bind /run/resolv.conf /etc/resolv.conf")
      ∷ []

abbrev pub var_tmp : List Action
var_tmp = simple (words "mkdir -p /var/tmp") ∷ simple (words "mount -t tmpfs tmpfs /var/tmp") ∷ []

abbrev pub hard_limit : Action
hard_limit = simple (words "ulimit -Hn")

abbrev pub raise_limit : Text → Action
raise_limit limit = simple (words "ulimit -n" ++ limit ∷ [])

abbrev pub build_image : Text → Text → Action
build_image cfile tag = simple (
    words "buildah bud --isolation chroot --network host -f"
    ++ cfile ∷ codes "-t" ∷ tag ∷ codes "/build/context" ∷ [])

abbrev pub container_from : Text → Action
container_from tag = simple (words "buildah from" ++ tag ∷ [])

abbrev pub mount_container : Text → Action
mount_container ctr = simple (words "buildah mount" ++ ctr ∷ [])

abbrev pub export : Text → Text → Text → List Action
export output_file ctr mnt =
    simple (
      words "tar -cf"
      ++ (codes "/build/output/" ++ output_file) ∷ codes "-C" ∷ mnt ∷ codes "." ∷ [])
    ∷ simple (words "buildah umount" ++ ctr ∷ [])
    ∷ simple (words "buildah rm" ++ ctr ∷ [])
    ∷ []

-- `dmesg 2>/dev/null | grep -iE 'oom|killed process|out of memory' | tail -5`
abbrev pub oom_lines : Action
oom_lines = piped (
    words "dmesg"
    ∷ (words "grep -iE" ++ codes "oom|killed process|out of memory" ∷ [])
    ∷ words "tail -5"
    ∷ [])

-- The two lines on standard error.
abbrev pub oom_hint : Text → List Action
oom_hint oom =
    simple (codes "printf" ∷ codes "\\n[vm-build] OOM detected:\\n%s\\n" ∷ oom ∷ [])
    ∷ simple
        (codes "printf" ∷ codes "[vm-build] Hint: retry with a larger --vm-memory value\\n" ∷ [])
    ∷ []

module _ {S : Type 0} (sh : Shell S) where
  abbrev size_of : Result ℕ ℕ → Result ℕ Text
  size_of (ok mem_kb) = ok (show_int (storage_mb mem_kb))
  size_of (err status) = err status

  -- The text of STORAGE_MB for the output of `awk`.
  unfoldable pub storage_size : Text → Result ℕ Text
  storage_size mem = size_of (value sh (trim_newlines mem))

  -- What stands between `trap` and the end of the script.
  unfoldable pub commands : Text → Text → Text → Text → Io S ℕ (Unit {0})
  commands cfile tag output_file dns = do
    run_all sh shares
    mem ← answer sh mem_total
    size ← lift (storage_size mem)
    run_all sh (storage size ++ (nameservers dns ++ var_tmp))
    hard ← asked sh hard_limit
    run_all sh (raise_limit (trim_newlines hard) ∷ build_image cfile tag ∷ [])
    ctr ← answer sh (container_from tag)
    mnt ← answer sh (mount_container (trim_newlines ctr))
    run_all sh (export output_file (trim_newlines ctr) (trim_newlines mnt))

  -- The hint on an exhausted memory.
  abbrev hint : Text → List Action
  hint oom = if is_empty oom then [] else oom_hint oom

  -- `on_exit` for a status other than 0, as far as its own commands succeed.
  unfoldable pub on_exit : Io S ℕ (Unit {0})
  on_exit = do oom ← answer sh oom_lines; run_all sh (hint (trim_newlines oom))

  -- The trap does not change the status with which the shell exits.
  abbrev pub exited : Result ℕ (Unit {0}) × S → ℕ × S
  exited (ok _, t) = (0, t)
  exited (err rc, t) = (rc, if rc == 0 then t else (on_exit t).1)

  -- The status and the state of the VM at the end.
  unfoldable pub vm_build : Text → Text → Text → Text → S → ℕ × S
  vm_build cfile tag output_file dns s = exited (commands cfile tag output_file dns s)
