-- ===== src/Guest/Ends.antt =====
-- The three ways in which vm-build ends, with its trap.
use openshell_image_builder.Base.{
  ℕ, ◌%◌, ◌<◌, ◌==◌, ==_iff, Bool-cases, is_empty, ok, err, Result-cases, ◌≡◌, refl, sym, ◌∙◌, ap,
  ◌≢◌, inl, inr, arith,
}
use openshell_image_builder.Text.{Text}
use openshell_image_builder.Shell.{Action, Shell, value, trim_newlines, show_int}
use openshell_image_builder.Shell.Steps.{action_of, Performed, performed, StopsIn}
use openshell_image_builder.Shell.Meets.{UnitResult}
use openshell_image_builder.Guest.{
  mem_total, storage_mb, storage_size, commands, on_exit, exited, vm_build,
}
use openshell_image_builder.Guest.Outcome.{Outputs, plan, up_to_memory, Goes, commands-Goes}

-- What POSIX says of every shell: a status is one byte, and a shell that ends because a value is no
-- number ends with a status other than 0.
pub record IsPosix {S : Type 0} (sh : Shell S) : Type 0 where
  pub status_byte : (a : Action) (s : S) → (sh.perform a s).0.status < 256
  pub refused : (t : Text) (n : ℕ) → sh.constant t ≡ err n → (n ≢ 0) × (n < 256)

module _ {S : Type 0} (sh : Shell S) (cfile tag output_file dns : Text) (s : S) where
  -- Every command of the script has succeeded, in the script's order.
  pub record IsComplete (t : S) : Type 0 where
    pub outputs : Outputs
    pub sized : storage_size sh outputs.mem ≡ ok outputs.size
    pub performed : Performed sh (plan cfile tag output_file dns outputs) s t

  -- A command has failed: the script has ended with its status, and only the trap came behind it.
  pub record IsStopped (status : ℕ) (t : S) : Type 0 where
    pub outputs : Outputs
    pub sized : storage_size sh outputs.mem ≡ ok outputs.size
    pub at : S
    pub stops : StopsIn sh (plan cfile tag output_file dns outputs) status s at
    pub trapped : t ≡ (on_exit sh at).1

  -- The size of the memory was no number.
  pub record IsUnsized (status : ℕ) (t : S) : Type 0 where
    pub mem : Text
    pub unsized : storage_size sh mem ≡ err status
    pub at : S
    pub performed : Performed sh (up_to_memory sh cfile tag output_file dns mem) s at
    pub trapped : t ≡ (on_exit sh at).1

  pub data Ends (status : ℕ) (t : S) : Type 0 where
    completes : status ≡ 0 → IsComplete t → Ends status t
    stops_with : status ≢ 0 → IsStopped status t → Ends status t
    unsized_with : status ≢ 0 → IsUnsized status t → Ends status t

  value-refused : (P : IsPosix sh) (t : Text) (n : ℕ) → value sh t ≡ err n → (n ≢ 0) × (n < 256)
  value-refused P t n h = elim (Bool-cases (is_empty t)) [
    | inl e ↦ absurd (cc (rw e at h))
    | inr e ↦ P.refused t n (rw e at h)
  ]

  storage_size-refused :
      (P : IsPosix sh) (mem : Text) (n : ℕ) → storage_size sh mem ≡ err n → (n ≢ 0) × (n < 256)
  unfolding storage_size
  storage_size-refused P mem n h = elim (Result-cases (value sh (trim_newlines mem))) [
    | inl (m, e) ↦ absurd (ground (arith, e, h))
    | inr (k, e) ↦
        let same : k ≡ n = ground (arith, e, h) in
        value-refused P (trim_newlines mem) n (e ∙ ap err same)
  ]

  trapped-eq : (n : ℕ) (m : S) → n ≢ 0 → (exited sh (err n, m)).1 ≡ (on_exit sh m).1
  trapped-eq n m h = elim (Bool-cases (n == 0)) [
    | inl e ↦ absurd (h ((==_iff n 0).0 e))
    | inr e ↦ rw e refl
  ]

  exited-Ends :
      (P : IsPosix sh) (x : UnitResult S)
      → Goes sh cfile tag output_file dns s x
      → Ends (exited sh x).0 (exited sh x).1
  exited-Ends P (ok _, m) (inl ((o, sized), p)) =
      completes refl (record { outputs = o; sized = sized; performed = p })
  exited-Ends P (ok _, m) (inr (mem, (n, (_, (bad, _))))) = absurd (cc bad)
  exited-Ends P (err n, m) (inl ((o, sized), p)) =
      stops_with p.nonzero (record {
        outputs = o;
        sized = sized;
        at = m;
        stops = p;
        trapped = trapped-eq n m p.nonzero;
      })
  exited-Ends P (err n, m) (inr (mem, (k, (e, (same, p))))) =
      let e' : storage_size sh mem ≡ err n = let n_k : n ≡ k = cc same in e ∙ sym (ap err n_k) in
      let nonzero = (storage_size-refused P mem n e').0 in
      unsized_with nonzero (record {
        mem = mem;
        unsized = e';
        at = m;
        performed = p;
        trapped = trapped-eq n m nonzero;
      })

  -- In a shell as POSIX describes it, vm-build ends in one of three ways: with 0, when all its commands
  -- have succeeded in the script's order, with the size, the container and the mount point that
  -- earlier ones have put out; with the status of the first command that failed, when those before it
  -- have succeeded, none came behind it but the trap; or with the shell's own status, when the size of
  -- the memory is no number.
  pub vm_build-Ends :
      IsPosix sh
      → Ends (vm_build sh cfile tag output_file dns s).0 (vm_build sh cfile tag output_file dns s).1
  unfolding vm_build
  vm_build-Ends P =
      exited-Ends P (commands sh cfile tag output_file dns s)
        (commands-Goes sh cfile tag output_file dns s)

  Ends-byte : (P : IsPosix sh) {status : ℕ} {t : S} → Ends status t → status < 256
  Ends-byte P (completes zero _) = omega (arith, zero)
  Ends-byte P (stops_with _ b) =
      let small = P.status_byte (action_of b.stops.last) b.stops.at in
      rw (b.stops.performed_last, b.stops.failed) at small
  Ends-byte P (unsized_with _ b) = (storage_size-refused P b.mem _ b.unsized).1

  -- The lowest byte of the status tells a completed run from the others.
  pub vm_build-IsComplete :
      IsPosix sh
      → (vm_build sh cfile tag output_file dns s).0 % 256 ≡ 0
      → IsComplete (vm_build sh cfile tag output_file dns s).1
  vm_build-IsComplete P h = go (vm_build-Ends P) h
    where
      go : {status : ℕ} {t : S} → Ends status t → status % 256 ≡ 0 → IsComplete t
      go (completes _ b) zero = b
      go (stops_with nonzero b) zero =
          absurd (nonzero (omega (arith, zero, Ends-byte P (stops_with nonzero b))))
      go (unsized_with nonzero b) zero =
          absurd (nonzero (omega (arith, zero, Ends-byte P (unsized_with nonzero b))))

  unsized-mem :
      {mem : Text} {m : S}
      → Performed sh (up_to_memory sh cfile tag output_file dns mem) s m
      → (at : S) × ((sh.perform mem_total at).0.output ≡ mem)
  unsized-mem
        (performed _ _ _ (performed _ _ _ (performed _ _ _ (performed {s = at} c e (_, o) _)))) =
      (at, rw e o)

  number-sized :
      (mem : Text) (n : ℕ)
      → value sh (trim_newlines mem) ≡ ok n
      → storage_size sh mem ≡ ok (show_int (storage_mb n))
  unfolding storage_size
  number-sized mem n e = rw e refl

  -- Where every command succeeds and `awk` puts out a number, no command is left out.
  pub vm_build-completes :
      IsPosix sh
      → ((a : Action) (t : S) → (sh.perform a t).0.status ≡ 0)
      → ((t : S) → (n : ℕ) × (value sh (trim_newlines (sh.perform mem_total t).0.output) ≡ ok n))
      → ((vm_build sh cfile tag output_file dns s).0 ≡ 0)
        × IsComplete (vm_build sh cfile tag output_file dns s).1
  vm_build-completes P good sized = go (vm_build-Ends P)
    where
      go : {status : ℕ} {t : S} → Ends status t → (status ≡ 0) × IsComplete t
      go (completes zero b) = (zero, b)
      go (stops_with nonzero b) =
          let zero = good (action_of b.stops.last) b.stops.at in
          absurd (nonzero (rw (b.stops.performed_last, b.stops.failed) at zero))
      go (unsized_with nonzero b) =
          let (at, same) = unsized-mem b.performed in
          let (n, e) = sized at in absurd (cc (number-sized b.mem n (rw same at e), b.unsized))
