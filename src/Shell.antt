-- ===== src/Shell.antt =====
-- The POSIX shell, as far as the scripts of the repository use it: commands and their statuses,
-- `set -e`, command substitution, and the value of an arithmetic expansion's variable. What a command
-- does is a parameter.
pub mod Steps
pub mod Meets
use openshell_image_builder.Base.{
  ℕ, ◌+◌, ◌-◌, ◌/◌, ◌%◌, ◌^◌, List, [], ◌∷◌, ◌++◌, get_elem?, Result, ok, err, ltb, ◌==◌, is_empty,
  if◌then◌else◌, Option, none, some,
}
use openshell_image_builder.Base.Int.{ℤ, pos, negsuc}
use openshell_image_builder.Base.Io.{Io, ◌>>=◌, ◌>>◌, pure}
use openshell_image_builder.Text.{Text, codes, show, strip_prefix}

-- A command as the shell performs it, its words expanded: a simple command, a builtin included; a
-- pipeline; `a && b`; a simple command whose output goes to a file; or a loop of `echo` whose output
-- goes to a file.
pub data Action : Type 0 where
  simple : List Text → Action
  piped : List (List Text) → Action
  chained : List Text → List Text → Action
  saved : List Text → Text → Action
  redirected : Text → Text → Action

pub record Completed : Type 0 where
  pub status : ℕ
  pub output : Text

pub record Shell (S : Type 0) : Type 0 where
  pub perform : Action → S → Completed × S
  -- The number that a variable's value is in an arithmetic expansion, or the status of a shell that
  -- ends because it is none.
  pub constant : Text → Result ℕ ℕ

-- What `$( )` takes off: the line feeds at the end.
unfoldable pub trim_newlines : Text → Text
trim_newlines [] = []
trim_newlines (c ∷ s) =
    let r = trim_newlines s in elim r [ [] ↦ if c == 10 then [] else c ∷ [] | d ∷ t ↦ c ∷ d ∷ t ]

-- A number in the signed arithmetic of 64 bits.
unfoldable pub wrapped : ℕ → ℤ
wrapped n = let r = n % 2 ^ 64 in if ltb r (2 ^ 63) then pos r else negsuc (2 ^ 64 - r - 1)

-- The division of C, which drops the fraction.
unfoldable pub divided : ℤ → ℕ → ℤ
divided (pos n) d = pos (n / d)
divided (negsuc n) d = let q = (n + 1) / d in if q == 0 then pos 0 else negsuc (q - 1)

unfoldable pub show_int : ℤ → Text
show_int (pos n) = show n
show_int (negsuc n) = codes "-" ++ show (n + 1)

abbrev found_or : Option Text → Text → Text
found_or none other = other
found_or (some value) other = value

-- The positional parameter at an index, which is empty when there are fewer arguments.
abbrev pub argument : List Text → ℕ → Text
argument args n = found_or (get_elem? args n) []

-- `$name`, which is empty when the environment does not have it.
abbrev pub variable : Text → List Text → Text
variable name [] = []
variable name (entry ∷ entries) =
    found_or (strip_prefix (name ++ codes "=") entry) (variable name entries)

-- `${value:-other}`
abbrev pub or_default : Text → Text → Text
or_default [] other = other
or_default (c ∷ value) other = c ∷ value

module _ {S : Type 0} (sh : Shell S) where
  -- An empty value counts as 0.
  abbrev pub value : Text → Result ℕ ℕ
  value t = if is_empty t then ok 0 else sh.constant t

  abbrev pub checked : Completed × S → Result ℕ Text × S
  checked (c, t) = (if c.status == 0 then ok c.output else err c.status, t)

  -- A command under `set -e`: a status other than 0 ends the script with that status.
  unfoldable pub answer : Action → Io S ℕ Text
  answer a s = checked (sh.perform a s)

  -- A substitution inside the words of a command, whose status nobody reads.
  unfoldable pub asked : Action → Io S ℕ Text
  asked a s = let (c, t) = sh.perform a s in (ok c.output, t)

  -- Commands one after another.
  unfoldable pub run_all : List Action → Io S ℕ (Unit {0})
  run_all [] = pure tt
  run_all (a ∷ rest) = answer a >>= λ output. run_all rest
