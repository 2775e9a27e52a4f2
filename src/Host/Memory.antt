-- ===== src/Host/Memory.antt =====
-- A file system in memory that meets the laws. The witnesses run on it.
use mathlib.Core.Path.{subst}
use openshell_image_builder.Base.{
  Bool, ℕ, true, false, Option, none, some, List, [], ◌∷◌, ◌++◌, map, Result, ok, err,
  if◌then◌else◌, ◌≡◌, refl, All, ap,
}
use openshell_image_builder.Base.Io.{Io, after}
use openshell_image_builder.Text.{Text, codes, text_eq, strip_prefix}
use openshell_image_builder.Text.Laws.{text_eq_refl, strip_prefix-append}
use openshell_image_builder.FilePath.{FilePath, under}
use openshell_image_builder.FilePath.Laws.{under_self, under-tail, IsName}
use openshell_image_builder.Host.{IoError, other, Stat, absent, FileSystem}
use openshell_image_builder.Host.Laws.{IsLawful, flatten}

pub data Node : Type 0 where
  nothing : Node
  dir : Node
  file : ℕ → Text → Node

abbrev is_a_file : IoError
is_a_file = record { kind = other; message = codes "File exists" }

abbrev is_a_directory : IoError
is_a_directory = record { kind = other; message = codes "Is a directory" }

abbrev pub stat_of : Node → Stat
stat_of nothing = absent
stat_of dir = record {
  is_dir = true;
  is_file = false;
  exists = true;
  mode = ok 0o755;
  contents = err is_a_directory;
}
stat_of (file mode text) = record {
  is_dir = false;
  is_file = true;
  exists = true;
  mode = ok mode;
  contents = ok text;
}

-- The nodes by path.
abbrev pub Disk : Type 0
Disk = FilePath → Node

abbrev pub put : FilePath → Node → Disk → Disk
put p n d q = if text_eq p q then n else d q

-- A missing directory on the way is made too.
abbrev made : Node → Node
made nothing = dir
made dir = dir
made (file mode text) = file mode text

abbrev create_at : Node → FilePath → Io Disk IoError (Unit {0})
create_at (file mode text) p d = (err is_a_file, d)
create_at nothing p d = (ok tt, λ q. if under q p then made (d q) else d q)
create_at dir p d = (ok tt, λ q. if under q p then made (d q) else d q)

abbrev create : FilePath → Io Disk IoError (Unit {0})
create p d = create_at (d p) p d

abbrev remove : FilePath → Io Disk IoError (Unit {0})
remove p d = (ok tt, λ q. if under p q then nothing else d q)

-- What was below `a`, by the rest of its path.
abbrev taken : Disk → FilePath → Option Text → Node
taken d a none = nothing
taken d a (some r) = d (a ++ r)

abbrev move : FilePath → FilePath → Io Disk IoError (Unit {0})
move a b d = (
  ok tt,
  λ q. if under b q then taken d a (strip_prefix b q) else if under a q then nothing else d q,
)

-- A listing gives the same names everywhere.
module _ (names : List Text) where
  abbrev pub memory : FileSystem
  memory = record {
    State = Disk;
    Handle = FilePath;
    stat = λ d p. stat_of (d p);
    canonicalize = λ d p. ok p;
    read_dir = λ d p. ok (map ok names);
    create_dir_all = create;
    remove_dir_all = remove;
    rename = move;
    write = λ p t d. (ok tt, put p (file 0o644 t) d);
    open_file = λ options p d. (ok p, put p (file 0o644 []) d);
    write_all = λ p t d. (ok tt, put p (file 0o644 t) d);
  }

flatten-map : (names : List Text) → flatten (map ok names) ≡ names
flatten-map [] = refl
flatten-map (n ∷ names) = ap (λ (ns : List Text). n ∷ ns) (flatten-map names)

create_at-frame :
    (n : Node) (p q : FilePath) (d : Disk)
    → under q p ≡ false
    → stat_of (after (create_at n p) d q) ≡ stat_of (d q)
create_at-frame nothing p q d apart = rw apart
create_at-frame dir p q d apart = rw apart
create_at-frame (file mode text) p q d apart = refl

create_at-dir :
    (n : Node) (p : FilePath) (d : Disk)
    → d p ≡ n
    → (create_at n p d).0 ≡ ok tt
    → (stat_of (after (create_at n p) d p)).is_dir ≡ true
create_at-dir nothing p d e _ = rw (under_self p, e)
create_at-dir dir p d e _ = rw (under_self p, e)
create_at-dir (file mode text) p d e h = absurd (cc h)

made-keeps :
    (n : Node) (t : Text) (b : Bool)
    → (stat_of n).contents ≡ ok t
    → stat_of (if b then made n else n) ≡ stat_of n
made-keeps nothing t b h = absurd (cc h)
made-keeps dir t b h = absurd (cc h)
made-keeps (file mode text) t true h = refl
made-keeps (file mode text) t false h = refl

create_at-keeps :
    (n : Node) (p q : FilePath) (t : Text) (d : Disk)
    → (stat_of (d q)).contents ≡ ok t
    → stat_of (after (create_at n p) d q) ≡ stat_of (d q)
create_at-keeps nothing p q t d h = made-keeps (d q) t (under q p) h
create_at-keeps dir p q t d h = made-keeps (d q) t (under q p) h
create_at-keeps (file mode text) p q t d h = refl

written_lem :
    (p : FilePath) (t : Text) (h : FilePath) (d d' d'' : Disk)
    → ◌≡◌ {A = Result IoError FilePath × Disk} (ok p, put p (file 0o644 []) d) (ok h, d')
    → ◌≡◌ {A = Result IoError (Unit {0}) × Disk} (ok tt, put h (file 0o644 t) d') (ok tt, d'')
    → (stat_of (d'' p)).contents ≡ ok t
written_lem p t h d d' d'' opened put_in =
    let same : p ≡ h = cc opened in
    let end : put h (file 0o644 t) d' ≡ d'' =
      ap (λ (x : Result IoError (Unit {0}) × Disk). x.1) put_in in
    rw (← end, same, text_eq_refl)

written-frame :
    (p q : FilePath) (t : Text) (h : FilePath) (d d' d'' : Disk)
    → text_eq p q ≡ false
    → ◌≡◌ {A = Result IoError FilePath × Disk} (ok p, put p (file 0o644 []) d) (ok h, d')
    → ◌≡◌ {A = Result IoError (Unit {0}) × Disk} (ok tt, put h (file 0o644 t) d') (ok tt, d'')
    → stat_of (d'' q) ≡ stat_of (d q)
written-frame p q t h d d' d'' differ opened put_in =
    let same : p ≡ h = cc opened in
    let start : put p (file 0o644 []) d ≡ d' =
      ap (λ (x : Result IoError FilePath × Disk). x.1) opened in
    let end : put h (file 0o644 t) d' ≡ d'' =
      ap (λ (x : Result IoError (Unit {0}) × Disk). x.1) put_in in
    rw (← end, ← start, ← same, differ)

pub memory-IsLawful : (names : List Text) → All IsName names → IsLawful (memory names)
memory-IsLawful names h = record {
  remove_frame = λ p q d apart. rw apart;
  remove_gone = λ p r d tail _. rw (under-tail p r tail);
  create_frame = λ p q d apart. create_at-frame (d p) p q d apart;
  create_dir = λ p d made. create_at-dir (d p) p d refl made;
  create_keeps = λ p q t d h. create_at-keeps (d p) p q t d h;
  written = λ o p t h d d' d'' _ opened put_in. written_lem p t h d d' d'' opened put_in;
  written_frame = λ o p q t h d d' d'' differ opened put_in.
      written-frame p q t h d d' d'' differ opened put_in;
  write_frame = λ p q t d differ. rw differ;
  write_contents = λ p t d _. rw text_eq_refl;
  rename_moves = λ a b r d tail _. rw (under-tail b r tail, strip_prefix-append);
  rename_frame = λ a b q d apart_a apart_b. rw (apart_b, apart_a);
  rename_failed = λ a b q d e failed. cc;
  read_dir_names = λ p d es listed.
      let same : map ok names ≡ es = cc listed in
      subst (λ (x : List (Result IoError Text)). All IsName (flatten x)) same (rw flatten-map h);
}
