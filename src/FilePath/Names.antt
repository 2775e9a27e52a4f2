-- ===== src/FilePath/Names.antt =====
-- Paths that are one name: what `file_name` and `parent` make of them.
use mathlib.Core.Path.{subst}
use openshell_image_builder.Base.{
  false, some, [], ◌∷◌, ◌++◌, append-nil, append_assoc, is_empty, ◌==◌, ◌≡◌, ◌≢◌, refl, inl, inr,
  arith, Bool-cases,
}
use openshell_image_builder.Text.{Text, codes, text_eq}
use openshell_image_builder.Text.Laws.{Lacks, text_eq_iff}
use openshell_image_builder.FilePath.{
  pieces_from, file_name, parent, components, is_noise, keep_names, relative_components, last,
  normal, drop_noise, spell, parent_of,
}
use openshell_image_builder.FilePath.Laws.{IsName, is_absolute-IsName}

text_eq_of_ne : (p q : Text) → p ≢ q → text_eq p q ≡ false
text_eq_of_ne p q ne = elim (Bool-cases (text_eq p q)) [
  | inl same ↦ absurd (ne ((text_eq_iff p q).0 same))
  | inr differ ↦ differ
]

pieces_from-name : (cur n : Text) → Lacks b'/' n → pieces_from cur n ≡ (cur ++ n) ∷ []
unfolding pieces_from
pieces_from-name cur [] _ = rw append-nil
pieces_from-name cur (c ∷ n) (h, t) =
    let other : (c == b'/') ≡ false = ground arith in
    rw (pieces_from, other, pieces_from-name (cur ++ c ∷ []) n t, append_assoc)

is_empty_of_ne : (n : Text) → n ≢ [] → is_empty n ≡ false
is_empty_of_ne [] ne = absurd (ne refl)
is_empty_of_ne (c ∷ n) ne = refl

no_slash : (n : Text) → Lacks b'/' n → n ≢ codes "/"
no_slash n lacks e = (subst (λ (t : Text). Lacks b'/' t) e lacks).0 refl

pub file_name_self : (n : Text) → IsName n → n ≢ codes "." → n ≢ codes ".." → file_name n ≡ some n
unfolding file_name components relative_components keep_names is_noise last normal
file_name_self n (full, lacks) no_dot no_dots = rw (
  is_absolute-IsName n lacks,
  pieces_from-name [] n lacks,
  text_eq_of_ne n (codes ".") no_dot,
  is_empty_of_ne n full,
  text_eq_of_ne n (codes ".") no_dot,
  text_eq_of_ne n (codes "/") (no_slash n lacks),
  text_eq_of_ne n (codes "..") no_dots,
)

pub parent_of_name : (n : Text) → IsName n → parent n ≡ some []
unfolding parent parent_of drop_noise spell is_noise
parent_of_name n (full, lacks) = elim (Bool-cases (text_eq n (codes "."))) [
  | inl dot ↦
      rw (is_absolute-IsName n lacks, pieces_from-name [] n lacks, is_empty_of_ne n full, dot)
  | inr name ↦
      rw (is_absolute-IsName n lacks, pieces_from-name [] n lacks, is_empty_of_ne n full, name)
]
