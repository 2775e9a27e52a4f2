-- ===== src/FilePath.antt =====
-- `std::path::Path` on Unix, as far as the program uses it: a path is its text. `join`,
-- `file_name`, `parent` and `==` follow std's reading of a path as components.
pub mod Laws
pub mod Names
use openshell_image_builder.Base.{
  Bool, true, false, not, ◌&&◌, ◌||◌, Option, none, some, List, [], ◌∷◌, ◌++◌, ◌==◌, if◌then◌else◌,
  is_empty,
}
use mathlib.Core.List.{reverse}
use openshell_image_builder.Text.{Text, codes, text_eq, strip_prefix, starts_with}

abbrev pub FilePath : Type 0
FilePath = Text

abbrev pub slash : Text
slash = codes "/"

unfoldable pub is_absolute : FilePath → Bool
is_absolute [] = false
is_absolute (c ∷ p) = c == b'/'

unfoldable pub ends_with_slash : FilePath → Bool
ends_with_slash [] = false
ends_with_slash (c ∷ []) = c == b'/'
ends_with_slash (c ∷ d ∷ p) = ends_with_slash (d ∷ p)

-- The text in front of a name that is joined to `p`.
unfoldable pub base : FilePath → Text
unfolding ends_with_slash
base p = if is_empty p || ends_with_slash p then p else p ++ slash

-- `p.join(q)`: an absolute `q` replaces `p`.
unfoldable pub join : FilePath → FilePath → FilePath
unfolding is_absolute base
join p q = if is_absolute q then q else base p ++ q

-- Whether `q` is `p` or lies below it, read off the texts.
unfoldable pub under : FilePath → FilePath → Bool
unfolding strip_prefix is_absolute
under p q = elim (strip_prefix p q) [ none ↦ false | some r ↦ is_empty r || is_absolute r ]

-- The pieces of a path between its slashes.
unfoldable pub pieces_from : Text → Text → List Text
pieces_from cur [] = cur ∷ []
pieces_from cur (c ∷ p) = elim (c == b'/') [
  | true ↦ cur ∷ pieces_from [] p
  | false ↦ pieces_from (cur ++ c ∷ []) p
]

abbrev dot : Text
dot = codes "."

abbrev dot_dot : Text
dot_dot = codes ".."

-- An empty piece and a "." name nothing.
unfoldable pub is_noise : Text → Bool
unfolding text_eq
is_noise piece = is_empty piece || text_eq piece dot

keep_names : List Text → List Text
unfolding is_noise
keep_names [] = []
keep_names (piece ∷ ps) = let rest = keep_names ps in if is_noise piece then rest else piece ∷ rest

-- Only a "." at the very start of a relative path is a component.
relative_components : List Text → List Text
unfolding keep_names text_eq
relative_components [] = []
relative_components (piece ∷ ps) =
    if text_eq piece dot then piece ∷ keep_names ps else keep_names (piece ∷ ps)

-- `p.components()`, the root spelled "/".
unfoldable pub components : FilePath → List Text
unfolding is_absolute pieces_from relative_components
components p =
    if is_absolute p
    then slash ∷ keep_names (pieces_from [] p)
    else relative_components (pieces_from [] p)

texts_eq : List Text → List Text → Bool
unfolding text_eq
texts_eq [] [] = true
texts_eq [] (q ∷ qs) = false
texts_eq (p ∷ ps) [] = false
texts_eq (p ∷ ps) (q ∷ qs) = text_eq p q && texts_eq ps qs

-- `==` of two paths.
unfoldable pub path_eq : FilePath → FilePath → Bool
unfolding components texts_eq
path_eq p q = texts_eq (components p) (components q)

last : List Text → Option Text
last [] = none
last (p ∷ []) = some p
last (p ∷ q ∷ ps) = last (q ∷ ps)

-- A component that is an ordinary name.
normal : Option Text → Option Text
unfolding text_eq
normal none = none
normal (some piece) =
    if text_eq piece slash || text_eq piece dot || text_eq piece dot_dot then none else some piece

-- `p.file_name()`
unfoldable pub file_name : FilePath → Option Text
unfolding components last normal
file_name p = normal (last (components p))

-- The pieces, last one first, without those at the end that name nothing. A "." that starts a
-- relative path stays.
drop_noise : Bool → List Text → List Text
unfolding is_noise text_eq
drop_noise relative [] = []
drop_noise relative (piece ∷ []) =
    if is_empty piece || (text_eq piece dot && not relative) then [] else piece ∷ []
drop_noise relative (piece ∷ q ∷ ps) =
    let rest = drop_noise relative (q ∷ ps) in if is_noise piece then rest else piece ∷ q ∷ ps

spell : List Text → Text
spell [] = []
spell (p ∷ []) = p
spell (p ∷ q ∷ ps) = p ++ (slash ++ spell (q ∷ ps))

parent_of : Text → Bool → List Text → Option FilePath
unfolding drop_noise spell
parent_of root relative [] = none
parent_of root relative (name ∷ ps) = some (root ++ spell (reverse (drop_noise relative ps)))

-- The path behind the slash that makes it absolute.
body : FilePath → Text
body [] = []
body (c ∷ p) = p

-- `p.parent()`: the path without its last component, unless it has none or is a root.
unfoldable pub parent : FilePath → Option FilePath
unfolding is_absolute pieces_from parent_of drop_noise body
parent p =
    if is_absolute p
    then parent_of slash false (drop_noise false (reverse (pieces_from [] (body p))))
    else parent_of [] true (drop_noise true (reverse (pieces_from [] p)))
