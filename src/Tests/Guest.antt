-- ===== src/Tests/Guest.antt =====
-- The build helper in a VM whose state is the list of the commands that it has performed.
use openshell_image_builder.Base.{
  ℕ, ◌+◌, ◌*◌, ◌-◌, ◌<◌, ◌≤◌, ◌^◌, Bool, true, false, List, [], ◌∷◌, ◌++◌, Result, ok, err, ◌≡◌,
  refl, ◌≢◌, ◌&&◌, if◌then◌else◌, String, arith, ltb, leb, is_empty, Bool-cases, inl, inr,
}
use openshell_image_builder.Base.Int.{pos}
use openshell_image_builder.Text.{Text, codes, text_eq}
use openshell_image_builder.Shell.{
  Action, simple, piped, chained, saved, redirected, Completed, Shell, value, trim_newlines,
}
use openshell_image_builder.Guest.{
  words, shares, mem_total, storage_mb, oom_lines, oom_hint, vm_build,
}
use openshell_image_builder.Guest.Ends.{
  IsPosix, IsComplete, Ends, vm_build-Ends, vm_build-completes,
}
use openshell_image_builder.Guest.Exports.{IsExported, vm_build-succeeds}
use openshell_image_builder.Guest.Storage.{storage_mb-largest}

-- The first two words of a command.
abbrev pub first : Action → Text
first (simple (w ∷ ws)) = w
first _ = []

abbrev second : Action → Text
second (simple (w ∷ v ∷ ws)) = v
second _ = []

-- What a command with these first two words puts out.
abbrev put_out_by : Text → Text → Text
put_out_by w v =
    if text_eq w (codes "awk")
    then codes "4028416\n"
    else if text_eq w (codes "mktemp")
    then codes "/tmp/openshell-rootfs.abc\n"
    else if text_eq w (codes "ulimit") && text_eq v (codes "-Hn")
    then codes "4096\n"
    else if text_eq w (codes "buildah") && text_eq v (codes "from")
    then codes "scratch-working-container\n"
    else if text_eq w (codes "buildah") && text_eq v (codes "mount")
    then codes "/var/lib/containers/mnt\n"
    else if text_eq w (codes "podman") && text_eq v (codes "create")
    then codes "c0ffee\n"
    else []

abbrev put_out : Action → Text
put_out (piped ws) = codes "Out of memory: Killed process 42\n"
put_out (chained a b) = codes "/src/vm-image\n"
put_out (simple ws) = put_out_by (first (simple ws)) (second (simple ws))
put_out (saved ws to) = []
put_out (redirected to text) = []

-- The value of decimal digits.
abbrev number : ℕ → Text → Result ℕ ℕ
number n [] = ok n
number n (c ∷ s) =
    let rest = number (n * 10 + (c - b'0')) s in if leb b'0' c && leb c b'9' then rest else err 2

-- A VM in which some commands fail.
abbrev pub shell : (Action → Bool) → Shell (List Action)
shell fails = record {
  perform =
      λ a log. (record { status = if fails a then 1 else 0; output = put_out a }, log ++ a ∷ []);
  constant = number 0;
}

number-refused : (n : ℕ) (t : Text) (e : ℕ) → number n t ≡ err e → (e ≢ 0) × (e < 256)
number-refused n [] e h = absurd (cc h)
number-refused n (c ∷ t) e h = elim (Bool-cases (leb b'0' c && leb c b'9')) [
  | inl digit ↦ number-refused (n * 10 + (c - b'0')) t e (rw digit at h)
  | inr other ↦ let two : e ≡ 2 = cc (rw other at h) in rw two (omega arith, omega arith)
]

pub shell-IsPosix : (fails : Action → Bool) → IsPosix (shell fails)
shell-IsPosix fails = record {
  status_byte = λ a log. elim (Bool-cases (fails a)) [
    | inl e ↦ rw e (omega arith)
    | inr e ↦ rw e (omega arith)
  ];
  refused = number-refused 0;
}

abbrev pub working : Shell (List Action)
working = shell (λ a. false)

-- A VM whose disk is too small for the tarball.
abbrev full : Shell (List Action)
full = shell (λ a. text_eq (first a) (codes "tar"))

abbrev by : Shell (List Action) → ℕ × List Action
by sh =
    vm_build sh (codes "/build/context/Containerfile") (codes "t:1") (codes "t-1.tar")
      (codes "1.1.1.1 8.8.8.8") []

abbrev up_to_tar : List Action
up_to_tar =
    simple (words "mkdir -p /build/context /build/output")
    ∷ simple (words "mount -t virtiofs openshell-context /build/context")
    ∷ simple (words "mount -t virtiofs openshell-output /build/output")
    ∷ mem_total
    ∷ simple (words "mkdir -p /var/lib/containers")
    ∷ simple (words "mount -t tmpfs -o size=2950m tmpfs /var/lib/containers")
    ∷ simple (words "mount -t tmpfs tmpfs /run")
    ∷ simple (words "mkdir -p /run/containers")
    ∷ redirected (codes "/run/resolv.conf") (codes "nameserver 1.1.1.1\nnameserver 8.8.8.8\n")
    ∷ simple (words "mount -o bind /run/resolv.conf /etc/resolv.conf")
    ∷ simple (words "mkdir -p /var/tmp")
    ∷ simple (words "mount -t tmpfs tmpfs /var/tmp")
    ∷ simple (words "ulimit -Hn")
    ∷ simple (words "ulimit -n 4096")
    ∷ simple (
        words
          "buildah bud --isolation chroot --network host -f /build/context/Containerfile -t t:1 /build/context")
    ∷ simple (words "buildah from t:1")
    ∷ simple (words "buildah mount scratch-working-container")
    ∷ simple (words "tar -cf /build/output/t-1.tar -C /var/lib/containers/mnt .")
    ∷ []

abbrev clean_up : List Action
clean_up =
    simple (words "buildah umount scratch-working-container")
    ∷ simple (words "buildah rm scratch-working-container")
    ∷ []

by-working : by working ≡ (0, up_to_tar ++ clean_up)
unfolding vm_build openshell_image_builder.Guest.commands openshell_image_builder.Guest.storage_size
    openshell_image_builder.Guest.storage_mb openshell_image_builder.Shell.answer
    openshell_image_builder.Shell.asked openshell_image_builder.Shell.run_all
    openshell_image_builder.Shell.wrapped openshell_image_builder.Shell.divided
    openshell_image_builder.Shell.show_int openshell_image_builder.Shell.trim_newlines
    openshell_image_builder.Base.Io.next openshell_image_builder.Text.show
    openshell_image_builder.Text.text_eq
by-working = refl

by-full :
    by full ≡ (1, up_to_tar ++ oom_lines ∷ oom_hint (codes "Out of memory: Killed process 42"))
unfolding vm_build openshell_image_builder.Guest.commands openshell_image_builder.Guest.on_exit
    openshell_image_builder.Guest.storage_size openshell_image_builder.Guest.storage_mb
    openshell_image_builder.Shell.answer openshell_image_builder.Shell.asked
    openshell_image_builder.Shell.run_all openshell_image_builder.Shell.wrapped
    openshell_image_builder.Shell.divided openshell_image_builder.Shell.show_int
    openshell_image_builder.Shell.trim_newlines openshell_image_builder.Base.Io.next
    openshell_image_builder.Text.show openshell_image_builder.Text.text_eq
by-full = refl

vm_build-Ends_example :
    Ends full
      (codes "/build/context/Containerfile")
      (codes "t:1")
      (codes "t-1.tar")
      (codes "1.1.1.1 8.8.8.8")
      []
      (by full).0
      (by full).1
vm_build-Ends_example =
    vm_build-Ends full (codes "/build/context/Containerfile") (codes "t:1") (codes "t-1.tar")
      (codes "1.1.1.1 8.8.8.8") [] (shell-IsPosix (λ a. text_eq (first a) (codes "tar")))

pub working-succeeds :
    (cfile tag output_file dns : Text) (log : List Action)
    → (vm_build working cfile tag output_file dns log).0 ≡ 0
unfolding trim_newlines openshell_image_builder.Text.text_eq
working-succeeds cfile tag output_file dns log =
    (vm_build-completes working cfile tag output_file dns log (shell-IsPosix (λ a. false))
      (λ a t. refl) (λ t. (4028416, refl))).0

storage_mb-largest_example :
    (mb : ℕ) × ((storage_mb 4028416 ≡ pos mb)
      × ((mb * 1024 * 4 ≤ 4028416 * 3) × (4028416 * 3 < (mb + 1) * 1024 * 4)))
storage_mb-largest_example = storage_mb-largest 4028416 (omega arith)

-- A run in which nothing fails.
abbrev whole : ℕ × List Action
whole = vm_build working (codes "/build/context/Containerfile") (codes "t") (codes "t.tar") [] []

vm_build-succeeds_example :
    (whole.0 ≡ 0)
    × (IsComplete working
          (codes "/build/context/Containerfile")
          (codes "t")
          (codes "t.tar")
          []
          []
          whole.1
        × IsExported working
            (codes "/build/context/Containerfile")
            (codes "t")
            (codes "t.tar")
            whole.1)
unfolding trim_newlines openshell_image_builder.Text.text_eq
vm_build-succeeds_example =
    vm_build-succeeds working (codes "/build/context/Containerfile") (codes "t") (codes "t.tar") []
      [] (shell-IsPosix (λ a. false)) (λ a t. refl) (λ t. (4028416, refl))
