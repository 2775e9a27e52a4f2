-- ===== src/Guest/Outcome.antt =====
-- How the build helper ends: the commands of vm-build in their order, and where they stop.
use openshell_image_builder.Base.{
  ℕ, List, [], ◌∷◌, ◌++◌, map, Result, ok, err, ◌≡◌, refl, ◌⊎◌, inl, inr,
}
use openshell_image_builder.Base.Io.{Io, next, ◌>>=◌, ◌>>◌, lift}
use openshell_image_builder.Text.{Text, codes, show}
use openshell_image_builder.Shell.{
  Shell, Completed, trim_newlines, wrapped, divided, show_int, answer, asked, run_all,
}
use openshell_image_builder.Shell.Steps.{
  Step, ran, told, heard, Performed, none_left, performed, StopsIn-append, StopsIn-behind,
  Performed-append,
}
use openshell_image_builder.Shell.Meets.{
  Meets, Meets-next, Meets-answer, Meets-asked, Meets-behind, failed-StopsIn, answer-cases,
  run_all-Meets, UnitResult,
}
use openshell_image_builder.Guest.{
  shares, mem_total, storage, nameservers, var_tmp, hard_limit, raise_limit, build_image,
  container_from, mount_container, export, storage_mb, storage_size, commands,
}

-- What the commands have put out that later ones depend on.
pub record Outputs : Type 0 where
  pub mem : Text
  pub size : Text
  pub hard : Text
  pub ctr : Text
  pub mnt : Text

abbrev finish : Text → Text → Text → List Step
finish output_file ctr mnt = map ran (export output_file (trim_newlines ctr) (trim_newlines mnt))

abbrev hand_over : Text → Text → Text → Text → List Step
hand_over tag output_file ctr mnt =
    told (container_from tag) ctr
    ∷ told (mount_container (trim_newlines ctr)) mnt
    ∷ finish output_file ctr mnt

abbrev image : Text → Text → Text → Text → Text → Text → List Step
image cfile tag output_file hard ctr mnt =
    map ran (raise_limit (trim_newlines hard) ∷ build_image cfile tag ∷ [])
    ++ hand_over tag output_file ctr mnt

abbrev behind_memory : Text → Text → Text → Text → Outputs → List Step
behind_memory cfile tag output_file dns o =
    map ran (storage o.size ++ (nameservers dns ++ var_tmp))
    ++ heard hard_limit o.hard ∷ image cfile tag output_file o.hard o.ctr o.mnt

-- The commands of the script, with the words that come from the outputs of earlier ones.
abbrev pub plan : Text → Text → Text → Text → Outputs → List Step
plan cfile tag output_file dns o =
    map ran shares ++ told mem_total o.mem ∷ behind_memory cfile tag output_file dns o

module _ {S : Type 0} (sh : Shell S) (cfile tag output_file dns : Text) where
  -- The script from `buildah from` on, from `ulimit` on, and behind the size of the storage.
  abbrev handing : Io S ℕ (Unit {0})
  handing = do
    ctr ← answer sh (container_from tag)
    mnt ← answer sh (mount_container (trim_newlines ctr))
    run_all sh (export output_file (trim_newlines ctr) (trim_newlines mnt))

  abbrev building : Text → Io S ℕ (Unit {0})
  building hard =
      run_all sh (raise_limit (trim_newlines hard) ∷ build_image cfile tag ∷ []) >> handing

  abbrev behind_size : Text → Io S ℕ (Unit {0})
  behind_size size =
      run_all sh (storage size ++ (nameservers dns ++ var_tmp))
      >> (asked sh hard_limit >>= building)

  handing-Meets :
      (s : S) → Meets sh {I = Text × Text} (λ o. hand_over tag output_file o.0 o.1) s (handing s)
  handing-Meets =
      Meets-answer sh {I = Text} {J = Text × Text}
        (λ ctr mnt. told (mount_container (trim_newlines ctr)) mnt ∷ finish output_file ctr mnt)
        (λ o. hand_over tag output_file o.0 o.1) (λ ctr mnt. (ctr, mnt)) (container_from tag)
        (told (container_from tag)) [] (λ _. refl) (λ _ _. refl) (λ c h. (h, refl))
        (λ ctr. answer sh (mount_container (trim_newlines ctr)) >>= λ mnt.
          run_all sh (export output_file (trim_newlines ctr) (trim_newlines mnt)))
        (λ ctr.
          Meets-answer sh {I = Unit {0}} {J = Text} (λ mnt _. finish output_file ctr mnt)
            (λ mnt. told (mount_container (trim_newlines ctr)) mnt ∷ finish output_file ctr mnt)
            (λ mnt _. mnt) (mount_container (trim_newlines ctr))
            (told (mount_container (trim_newlines ctr))) tt (λ _. refl) (λ _ _. refl)
            (λ c h. (h, refl))
            (λ mnt. run_all sh (export output_file (trim_newlines ctr) (trim_newlines mnt)))
            (λ mnt. run_all-Meets sh (export output_file (trim_newlines ctr) (trim_newlines mnt))))

  building-Meets :
      (hard : Text) (s : S)
      → Meets sh {I = Text × Text}
          (λ o. image cfile tag output_file hard o.0 o.1)
          s
          (building hard s)
  building-Meets hard s =
      let first = raise_limit (trim_newlines hard) ∷ build_image cfile tag ∷ [] in
      Meets-next sh {I = Text × Text} {J = Text × Text} (λ o. hand_over tag output_file o.0 o.1)
        (λ o. image cfile tag output_file hard o.0 o.1) (λ o. o) (map ran first)
        (hand_over tag output_file [] []) ([], []) (λ _. handing) (λ _. refl) refl s
        (run_all sh first s) (run_all-Meets sh first s) handing-Meets

  size-Meets :
      (mem size : Text) (s : S)
      → Meets sh {I = Text × (Text × Text)}
          (λ (hard, (ctr, mnt)).
            behind_memory cfile tag output_file dns
              (record { mem = mem; size = size; hard = hard; ctr = ctr; mnt = mnt }))
          s
          (behind_size size s)
  size-Meets mem size s =
      let first = storage size ++ (nameservers dns ++ var_tmp) in
      Meets-next sh {I = Text × (Text × Text)} {J = Text × (Text × Text)}
        (λ (hard, (ctr, mnt)). heard hard_limit hard ∷ image cfile tag output_file hard ctr mnt)
        (λ (hard, (ctr, mnt)).
          behind_memory cfile tag output_file dns
            (record { mem = mem; size = size; hard = hard; ctr = ctr; mnt = mnt }))
        (λ o. o) (map ran first) (heard hard_limit [] ∷ image cfile tag output_file [] [] [])
        ([], ([], [])) (λ _. asked sh hard_limit >>= building) (λ _. refl) refl s
        (run_all sh first s) (run_all-Meets sh first s)
        (Meets-asked sh {I = Text × Text} {J = Text × (Text × Text)}
          (λ hard o. image cfile tag output_file hard o.0 o.1)
          (λ (hard, (ctr, mnt)). heard hard_limit hard ∷ image cfile tag output_file hard ctr mnt)
          (λ hard o. (hard, o)) hard_limit (heard hard_limit) ([], []) (λ _. refl) (λ _ _. refl)
          (λ c. refl) building building-Meets)

  -- Outputs whose size is the one that the script computes.
  abbrev pub Sized : Type 0
  Sized = (o : Outputs) × (storage_size sh o.mem ≡ ok o.size)

  -- The commands up to the one that reads the memory.
  abbrev pub up_to_memory : Text → List Step
  up_to_memory mem = map ran shares ++ told mem_total mem ∷ []

  abbrev pub NoSize : S → UnitResult S → Type 0
  NoSize s x =
      (mem : Text) × ((n : ℕ) × ((storage_size sh mem ≡ err n)
          × ((x.0 ≡ err n) × Performed sh (up_to_memory mem) s x.1)))

  abbrev pub Goes : S → UnitResult S → Type 0
  Goes s x = Meets sh {I = Sized} (λ (o, _). plan cfile tag output_file dns o) s x ⊎ NoSize s x

  abbrev no_outputs : Outputs
  no_outputs = record { mem = []; size = codes "0"; hard = []; ctr = []; mnt = [] }

  no_outputs-sized : storage_size sh no_outputs.mem ≡ ok no_outputs.size
  unfolding storage_size storage_mb openshell_image_builder.Shell.trim_newlines wrapped divided
      show_int show
  no_outputs-sized = refl

  sized-Goes :
      (s m : S) (mem : Text)
      → Performed sh (up_to_memory mem) s m
      → (r : Result ℕ Text) → storage_size sh mem ≡ r
      → Goes s (next (lift r m) behind_size)
  unfolding next
  sized-Goes s m mem p (ok size) e = inl (
      Meets-behind sh {I = Text × (Text × Text)} {J = Sized}
        (λ (hard, (ctr, mnt)).
          behind_memory cfile tag output_file dns
            (record { mem = mem; size = size; hard = hard; ctr = ctr; mnt = mnt }))
        (λ (o, _). plan cfile tag output_file dns o)
        (λ (hard, (ctr, mnt)).
          (record { mem = mem; size = size; hard = hard; ctr = ctr; mnt = mnt }, e))
        (up_to_memory mem) (λ _. refl) s m p (behind_size size m) (size-Meets mem size m))
  sized-Goes s m mem p (err n) e = inr (mem, (n, (e, (refl, p))))

  memory-Goes :
      (s m : S)
      → Performed sh (map ran shares) s m
      → Goes s (next (answer sh mem_total m) (λ mem. lift (storage_size sh mem) >>= behind_size))
  memory-Goes s m p =
      answer-cases sh (Goes s) mem_total m (λ mem. lift (storage_size sh mem) >>= behind_size)
        (λ c t e zero.
          sized-Goes s t c.output
            (Performed-append sh p
              (performed {step = told mem_total c.output} c e (zero, refl) none_left))
            (storage_size sh c.output) refl)
        (λ c t e bad. inl (
          (no_outputs, no_outputs-sized),
          StopsIn-behind sh p (
              failed-StopsIn sh
                (told mem_total [] ∷ behind_memory cfile tag output_file dns no_outputs)
                (behind_memory cfile tag output_file dns no_outputs) (told mem_total []) refl m t c
                e bad),
        ))

  shares-Goes :
      (s : S) (x : UnitResult S)
      → Meets sh {I = Unit {0}} (λ _. map ran shares) s x
      → Goes s
          (next x (λ _. answer sh mem_total >>= λ mem. lift (storage_size sh mem) >>= behind_size))
  unfolding next
  shares-Goes s (err n, t) (_, p) = inl (
    (no_outputs, no_outputs-sized),
    StopsIn-append sh (told mem_total [] ∷ behind_memory cfile tag output_file dns no_outputs) p,
  )
  shares-Goes s (ok _, t) (_, p) = memory-Goes s t p

  pub commands-Goes : (s : S) → Goes s (commands sh cfile tag output_file dns s)
  unfolding commands
  commands-Goes s = shares-Goes s (run_all sh shares s) (run_all-Meets sh shares s)
