-- ===== src/Krun/Args.antt =====
-- `Args` of krun.rs: the C strings handed to libkrun.
use mathlib.Core.Path.{subst}
use openshell_image_builder.Base.{
  Bool, false, Option, none, some, ◌++◌, ◌==◌, if◌then◌else◌, any, Result, ok, err, ◌≡◌, refl, ◌∙◌,
  arith,
}
use openshell_image_builder.Text.{Text, codes, to_str}
use openshell_image_builder.FilePath.{FilePath}
use openshell_image_builder.Host.{IoError, invalid_input}
use openshell_image_builder.Dns.{Net}
use openshell_image_builder.VmImage.Error.{VmBuildError, io, path}
use openshell_image_builder.VmImage.Config.{
  VmBuild, dns_env_value, containerfile_vm_path, tag_root, tag_context, tag_output, vm_build_script,
  vm_dns_env,
}

infixl 5 ◌>>=◌
unfoldable pub ◌>>=◌ {ℓ} : {E A B : Type ℓ} → Result E A → (A → Result E B) → Result E B
ok a >>= f = f a
err e >>= f = err e

abbrev pub vm_path : Text
vm_path = codes "PATH=/bin:/usr/bin:/usr/local/bin:/sbin:/usr/sbin"

abbrev pub has_nul : Text → Bool
has_nul = any (λ c. c == 0)

abbrev invalid : Text → IoError
invalid text = record { kind = invalid_input; message = text }

unfoldable pub cstring : Text → Text → Result VmBuildError Text
cstring s what =
    if has_nul s then err (io (invalid (what ++ codes " contains an interior NUL byte"))) else ok s

-- `map_err(|_| e)`
abbrev replace_err : VmBuildError → Result VmBuildError Text → Result VmBuildError Text
replace_err e (ok s) = ok s
replace_err e (err _) = err e

abbrev or_invalid_utf8 : FilePath → Text → Option Text → Result VmBuildError Text
or_invalid_utf8 p what none =
    err (path what p (invalid (codes "path is not valid UTF-8 and cannot be passed to libkrun")))
or_invalid_utf8 p what (some s) = ok s

unfoldable pub cstring_path : FilePath → Text → Result VmBuildError Text
cstring_path p what = or_invalid_utf8 p what (to_str p) >>= λ s.
    replace_err (path what p (invalid (codes "path contains an interior NUL byte")))
      (cstring s what)

pub record Args : Type 0 where
  pub rootfs : Text
  pub context : Text
  pub output_dir : Text
  pub output_filename : Text
  pub containerfile : Text
  pub tag : Text
  pub tag_root : Text
  pub tag_context : Text
  pub tag_output : Text
  pub workdir : Text
  pub exec : Text
  pub path_env : Text
  pub dns_env : Option Text

-- `map(..).transpose()`
abbrev dns_cstring : Option Text → Result VmBuildError (Option Text)
dns_cstring none = ok none
dns_cstring (some value) =
    cstring (vm_dns_env ++ (codes "=" ++ value)) (codes "VM nameservers") >>= λ s. ok (some s)

unfoldable pub new : {S : Type 0} → Net S → VmBuild → Result VmBuildError Args
new net build = do
  rootfs ← cstring_path build.rootfs (codes "VM rootfs")
  context ← cstring_path build.context (codes "build context")
  output_dir ← cstring_path build.output_dir (codes "output directory")
  output_filename ← cstring build.output_filename (codes "output filename")
  containerfile ← cstring (containerfile_vm_path build) (codes "Containerfile path")
  tag ← cstring build.tag (codes "image tag")
  root ← cstring tag_root (codes "root tag")
  context_tag ← cstring tag_context (codes "context tag")
  output_tag ← cstring tag_output (codes "output tag")
  workdir ← cstring (codes "/") (codes "workdir")
  exec ← cstring vm_build_script (codes "build helper")
  path_env ← cstring vm_path (codes "PATH")
  dns_env ← dns_cstring (dns_env_value net build)
  ok (record {
    rootfs = rootfs;
    context = context;
    output_dir = output_dir;
    output_filename = output_filename;
    containerfile = containerfile;
    tag = tag;
    tag_root = root;
    tag_context = context_tag;
    tag_output = output_tag;
    workdir = workdir;
    exec = exec;
    path_env = path_env;
    dns_env = dns_env;
  })

ok_injective : {A E : Type 0} (a b : A) → ◌≡◌ {A = Result E A} (ok a) (ok b) → a ≡ b
ok_injective a b h = cc h

-- The lemmas that invert one conversion.
>>=-eq-ok :
    {E A B : Type 0} (m : Result E A) (f : A → Result E B) {b : B} {κ : Type 0}
    → (m >>= f) ≡ ok b
    → ((a : A) → m ≡ ok a → f a ≡ ok b → κ)
    → κ
unfolding ◌>>=◌
>>=-eq-ok (ok a) f h k = k a refl h
>>=-eq-ok (err e) f h k = absurd (cc h)

-- A C string is the text itself, which has no NUL.
abbrev pub IsCString : Text → Text → Type 0
IsCString s t = (t ≡ s) × (has_nul t ≡ false)

cstring-ok : (s what : Text) {t : Text} → cstring s what ≡ ok t → IsCString s t
unfolding cstring
cstring-ok s what h = ground arith

replace_err-ok :
    (e : VmBuildError) (r : Result VmBuildError Text) {t : Text} → replace_err e r ≡ ok t → r ≡ ok t
replace_err-ok e (ok s) h = h
replace_err-ok e (err e') h = absurd (cc h)

utf8-ok :
    (p : FilePath) (what : Text) {s : Text}
    → or_invalid_utf8 p what (to_str p) ≡ ok s
    → (s ≡ p) × (to_str p ≡ some p)
unfolding to_str
utf8-ok p what h = ground arith

cstring_path-ok :
    (p : FilePath) (what : Text) {t : Text}
    → cstring_path p what ≡ ok t
    → IsCString p t × (to_str p ≡ some p)
unfolding cstring_path
cstring_path-ok p what h = >>=-eq-ok (or_invalid_utf8 p what (to_str p)) _ h λ s valid rest.
    let (same, utf8) = utf8-ok p what valid in
    let (t_eq, clean) = cstring-ok s what (replace_err-ok _ (cstring s what) rest) in
    ((t_eq ∙ same, clean), utf8)

-- The environment entry for the nameservers, where there are any.
abbrev pub IsDnsEntry : Option Text → Option Text → Type 0
IsDnsEntry none entry = entry ≡ none
IsDnsEntry (some value) entry =
    (t : Text) × (entry ≡ some t) × IsCString (vm_dns_env ++ (codes "=" ++ value)) t

dns_cstring-ok :
    (value : Option Text) (entry : Option Text)
    → dns_cstring value ≡ ok entry
    → IsDnsEntry value entry
dns_cstring-ok none entry h = ground arith
dns_cstring-ok (some value) entry h =
    >>=-eq-ok (cstring (vm_dns_env ++ (codes "=" ++ value)) (codes "VM nameservers")) _ h
      λ t made rest. (t, ground arith, cstring-ok _ _ made)

-- The strings are those of the request, without NUL, and the paths are valid UTF-8.
pub record IsPassed {S : Type 0} (net : Net S) (build : VmBuild) (args : Args) : Type 0 where
  pub rootfs : IsCString build.rootfs args.rootfs
  pub context : IsCString build.context args.context
  pub output_dir : IsCString build.output_dir args.output_dir
  pub utf8 :
      (to_str build.rootfs ≡ some build.rootfs)
      × (to_str build.context ≡ some build.context)
      × (to_str build.output_dir ≡ some build.output_dir)
  pub output_filename : IsCString build.output_filename args.output_filename
  pub tag : IsCString build.tag args.tag
  pub containerfile : args.containerfile ≡ codes "/build/context/Containerfile"
  pub shares :
      (args.tag_root ≡ tag_root) × (args.tag_context ≡ tag_context) × (args.tag_output ≡ tag_output)
  pub workdir : args.workdir ≡ codes "/"
  pub exec : args.exec ≡ vm_build_script
  pub path_env : args.path_env ≡ vm_path
  pub dns_env : IsDnsEntry (dns_env_value net build) args.dns_env

-- When the conversion succeeds, the strings for libkrun are those of the request: no text is cut at a
-- NUL, the three shares have their own tags, and the nameservers are passed if there are any.
pub new-IsPassed :
    {S : Type 0} (net : Net S) (build : VmBuild) {args : Args}
    → new net build ≡ ok args
    → IsPassed net build args
unfolding new containerfile_vm_path
new-IsPassed net build h = >>=-eq-ok _ _ h λ rootfs rootfs_ok h1.
    >>=-eq-ok _ _ h1 λ context context_ok h2. >>=-eq-ok _ _ h2 λ output_dir output_dir_ok h3.
      >>=-eq-ok _ _ h3 λ filename filename_ok h4.
        >>=-eq-ok _ _ h4 λ containerfile containerfile_ok h5. >>=-eq-ok _ _ h5 λ tag tag_ok h6.
          >>=-eq-ok _ _ h6 λ root root_ok h7. >>=-eq-ok _ _ h7 λ context_tag context_tag_ok h8.
            >>=-eq-ok _ _ h8 λ output_tag output_tag_ok h9.
              >>=-eq-ok _ _ h9 λ workdir workdir_ok h10. >>=-eq-ok _ _ h10 λ exec exec_ok h11.
                >>=-eq-ok _ _ h11 λ path_env path_env_ok h12. >>=-eq-ok _ _ h12 λ dns dns_ok made.
                  let (rootfs_c, rootfs_utf8) = cstring_path-ok _ _ rootfs_ok in
                  let (context_c, context_utf8) = cstring_path-ok _ _ context_ok in
                  let (dir_c, dir_utf8) = cstring_path-ok _ _ output_dir_ok in
                  let same = ok_injective _ _ made in
                  subst (IsPassed net build) same (record {
                    rootfs = rootfs_c;
                    context = context_c;
                    output_dir = dir_c;
                    utf8 = (rootfs_utf8, context_utf8, dir_utf8);
                    output_filename = cstring-ok _ _ filename_ok;
                    tag = cstring-ok _ _ tag_ok;
                    containerfile = (cstring-ok _ _ containerfile_ok).0;
                    shares = (
                      (cstring-ok _ _ root_ok).0,
                      (cstring-ok _ _ context_tag_ok).0,
                      (cstring-ok _ _ output_tag_ok).0,
                    );
                    workdir = (cstring-ok _ _ workdir_ok).0;
                    exec = (cstring-ok _ _ exec_ok).0;
                    path_env = (cstring-ok _ _ path_env_ok).0;
                    dns_env = dns_cstring-ok _ _ dns_ok;
                  })
