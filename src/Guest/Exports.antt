-- ===== src/Guest/Exports.antt =====
-- What vm-build leaves when nothing fails: the end of its run, spelled out in the words of the script.
use openshell_image_builder.Base.{ℕ, List, [], ◌∷◌, ◌++◌, map, ok, ◌≡◌}
use openshell_image_builder.Text.{Text, codes}
use openshell_image_builder.Shell.{Action, simple, Shell, value, trim_newlines}
use openshell_image_builder.Shell.Steps.{Step, ran, told, Performed, performed}
use openshell_image_builder.Guest.{mem_total, storage, nameservers, var_tmp, shares, vm_build}
use openshell_image_builder.Guest.Ends.{IsPosix, IsComplete, vm_build-completes}

module _ {G : Type 0} (sh : Shell G) where
  Performed-behind :
      (xs : List Step) {ys : List Step} {s t : G}
      → Performed sh (xs ++ ys) s t
      → (m : G) × Performed sh ys m t
  Performed-behind [] {s = s} p = (s, p)
  Performed-behind (x ∷ xs) (performed c e f p) = Performed-behind xs p

  -- The commands from `buildah bud` on, in which each word stands as the shell passes it.
  abbrev built : Text → Text → Action
  built cfile tag = simple (
      codes "buildah"
      ∷ codes "bud"
      ∷ codes "--isolation"
      ∷ codes "chroot"
      ∷ codes "--network"
      ∷ codes "host"
      ∷ codes "-f"
      ∷ cfile
      ∷ codes "-t"
      ∷ tag
      ∷ codes "/build/context"
      ∷ [])

  abbrev archived : Text → Text → Action
  archived output_file mnt = simple (
      codes "tar"
      ∷ codes "-cf"
      ∷ (codes "/build/output/" ++ output_file)
      ∷ codes "-C"
      ∷ mnt
      ∷ codes "."
      ∷ [])

  abbrev buildah : Text → Text → Action
  buildah verb word = simple (codes "buildah" ∷ verb ∷ word ∷ [])

  -- The image was built from the context and put into the output file from the mount point of a
  -- container of it, which was unmounted and removed, and nothing came behind that.
  pub record IsExported (cfile tag output_file : Text) (t : G) : Type 0 where
    pub at : G
    pub ctr : Text
    pub mnt : Text
    pub performed :
        Performed sh
          (ran (built cfile tag)
            ∷ told (buildah (codes "from") tag) ctr
            ∷ told (buildah (codes "mount") (trim_newlines ctr)) mnt
            ∷ ran (archived output_file (trim_newlines mnt))
            ∷ ran (buildah (codes "umount") (trim_newlines ctr))
            ∷ ran (buildah (codes "rm") (trim_newlines ctr))
            ∷ [])
          at
          t

  complete-IsExported :
      (cfile tag output_file dns : Text) (s t : G)
      → IsComplete sh cfile tag output_file dns s t
      → IsExported cfile tag output_file t
  complete-IsExported cfile tag output_file dns s t c =
      let (_, behind_shares) = Performed-behind (map ran shares) c.performed in
      let prepared = map ran (storage c.outputs.size ++ (nameservers dns ++ var_tmp)) in
      let (_, behind_memory) = Performed-behind (told mem_total c.outputs.mem ∷ []) behind_shares in
      let (_, behind_storage) = Performed-behind prepared behind_memory in go behind_storage
    where
      go :
          {x y : Step} {m : G}
          → Performed sh
              (x
                ∷ y
                ∷ ran (built cfile tag)
                ∷ told (buildah (codes "from") tag) c.outputs.ctr
                ∷ told (buildah (codes "mount") (trim_newlines c.outputs.ctr)) c.outputs.mnt
                ∷ ran (archived output_file (trim_newlines c.outputs.mnt))
                ∷ ran (buildah (codes "umount") (trim_newlines c.outputs.ctr))
                ∷ ran (buildah (codes "rm") (trim_newlines c.outputs.ctr))
                ∷ [])
              m
              t
          → IsExported cfile tag output_file t
      go (performed _ _ _ (performed {t = at} _ _ _ p)) = record {
        at = at;
        ctr = c.outputs.ctr;
        mnt = c.outputs.mnt;
        performed = p;
      }

  -- In a shell as POSIX describes it, where every command succeeds and `awk` puts out a number: vm-build
  -- exits with 0; all commands of its plan were performed in their order, and nothing else; and the last
  -- of them are `buildah bud` on the Containerfile and the context, `buildah from` the tag that was
  -- built, `buildah mount` of that container, `tar` of the mount point into the output file, and
  -- `buildah umount` and `buildah rm` of the container, with these words.
  pub vm_build-succeeds :
      (cfile tag output_file dns : Text) (s : G)
      → IsPosix sh
      → ((a : Action) (t : G) → (sh.perform a t).0.status ≡ 0)
      → ((t : G) → (n : ℕ) × (value sh (trim_newlines (sh.perform mem_total t).0.output) ≡ ok n))
      → ((vm_build sh cfile tag output_file dns s).0 ≡ 0)
        × (IsComplete sh cfile tag output_file dns s (vm_build sh cfile tag output_file dns s).1
            × IsExported cfile tag output_file (vm_build sh cfile tag output_file dns s).1)
  vm_build-succeeds cfile tag output_file dns s P good sized =
      let (zero, complete) = vm_build-completes sh cfile tag output_file dns s P good sized in
      (zero, (complete, complete-IsExported cfile tag output_file dns s _ complete))
