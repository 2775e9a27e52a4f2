-- ===== src/Main/Flags.antt =====
-- `check_vm_flags`: which command lines pass.
use openshell_image_builder.Base.{
  true, false, not, Option, none, some, List, [], ◌∷◌, is_empty, ok, ◌≡◌, refl, ◌↔◌, ◌⊎◌, inl, inr,
  arith, Bool-cases,
}
use openshell_image_builder.Main.{is_vm, Cli, is_some, given, check_vm_flags}

-- None of the five flags is on the command line.
pub record HasNoVmFlags (cli : Cli) : Type 0 where
  pub no_rootfs : cli.vm_rootfs ≡ none
  pub no_output : cli.vm_output ≡ none
  pub no_cpus : cli.vm_cpus ≡ none
  pub no_memory : cli.vm_memory ≡ none
  pub no_dns : cli.vm_dns ≡ []

none_of_is_some : {A : Type 0} (o : Option A) → is_some o ≡ false → o ≡ none
none_of_is_some none h = refl
none_of_is_some (some a) h = absurd (cc h)

nil_of_not_empty : {A : Type 0} (xs : List A) → not (is_empty xs) ≡ false → xs ≡ []
nil_of_not_empty [] h = refl
nil_of_not_empty (x ∷ xs) h = absurd (cc h)

flags_sound :
    (cli : Cli) → is_vm cli.runtime ≡ false → check_vm_flags cli ≡ ok tt → HasNoVmFlags cli
unfolding check_vm_flags given
flags_sound cli other h = record {
  no_rootfs = none_of_is_some cli.vm_rootfs (ground arith);
  no_output = none_of_is_some cli.vm_output (ground arith);
  no_cpus = none_of_is_some cli.vm_cpus (ground arith);
  no_memory = none_of_is_some cli.vm_memory (ground arith);
  no_dns = nil_of_not_empty cli.vm_dns (ground arith);
}

flags_complete : (cli : Cli) → HasNoVmFlags cli → check_vm_flags cli ≡ ok tt
unfolding check_vm_flags given
flags_complete cli h = ground (arith, h.no_rootfs, h.no_output, h.no_cpus, h.no_memory, h.no_dns)

-- A command line passes exactly when the runtime is the VM, or none of the VM's flags is given.
pub check_vm_flags_iff :
    (cli : Cli) → (check_vm_flags cli ≡ ok tt) ↔ ((is_vm cli.runtime ≡ true) ⊎ HasNoVmFlags cli)
check_vm_flags_iff cli = (sound, complete)
  where
    sound : check_vm_flags cli ≡ ok tt → (is_vm cli.runtime ≡ true) ⊎ HasNoVmFlags cli
    sound h = elim (Bool-cases (is_vm cli.runtime)) [
      | inl vm ↦ inl vm
      | inr other ↦ inr (flags_sound cli other h)
    ]

    complete : (is_vm cli.runtime ≡ true) ⊎ HasNoVmFlags cli → check_vm_flags cli ≡ ok tt
    complete (inl vm) = unfold check_vm_flags in rw vm
    complete (inr h) = flags_complete cli h
