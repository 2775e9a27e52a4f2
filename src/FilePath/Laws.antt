-- ===== src/FilePath/Laws.antt =====
-- Joined paths and what lies under them. The lemmas speak of the text behind a common base.
use openshell_image_builder.Base.{
  ℕ, true, false, ◌||◌, List, [], ◌∷◌, ◌++◌, append_assoc, append-nil, ◌==◌, is_empty,
  is_empty-append, ◌≡◌, refl, ◌≢◌, arith, inl, inr, Bool-cases,
}
use openshell_image_builder.Text.{Text, strip_prefix}
use openshell_image_builder.Text.Laws.{
  Lacks, text_eq_refl, strip_prefix-append, strip_prefix-cancel,
}
use openshell_image_builder.FilePath.{
  FilePath, is_absolute, ends_with_slash, base, join, under, components, texts_eq, path_eq,
}

-- The name of a directory entry: not empty, with no slash.
abbrev pub IsName : Text → Type 0
IsName n = (n ≢ []) × Lacks b'/' n

pub is_absolute-IsName : (n : Text) → Lacks b'/' n → is_absolute n ≡ false
unfolding is_absolute
is_absolute-IsName [] _ = refl
is_absolute-IsName (c ∷ n) (h, _) = ground arith

pub join-base : (p n : Text) → Lacks b'/' n → join p n ≡ base p ++ n
unfolding join
join-base p n h = rw (is_absolute-IsName n h)

ends_with_slash-append : (b n : Text) → IsName n → ends_with_slash (b ++ n) ≡ false
unfolding ends_with_slash
ends_with_slash-append [] [] (h, _) = absurd (h refl)
ends_with_slash-append [] (c ∷ []) (_, h) = ground arith
ends_with_slash-append [] (c ∷ d ∷ n) (_, (_, h)) = ends_with_slash-append [] (d ∷ n) ((cc), h)
ends_with_slash-append (x ∷ []) [] (h, _) = absurd (h refl)
ends_with_slash-append (x ∷ []) (c ∷ n) h = ends_with_slash-append [] (c ∷ n) h
ends_with_slash-append (x ∷ y ∷ b) n h = ends_with_slash-append (y ∷ b) n h

-- A file below an entry: `root.join(n).join(x)`.
pub join-join :
    (root n x : Text)
    → IsName n
    → is_absolute x ≡ false
    → join (join root n) x ≡ base root ++ (n ++ (b'/' ∷ x))
unfolding join base
join-join root n x h hx =
    rw (is_absolute-IsName n h.1, hx, is_empty-append (base root) n h.0)
      (rw (ends_with_slash-append (base root) n h) (simp append_assoc))

-- What may follow a path in the text of one below it.
abbrev pub IsTail : Text → Type 0
IsTail r = (is_empty r || is_absolute r) ≡ true

-- A common base does not matter.
pub under-cancel : (b p q : Text) → under (b ++ p) (b ++ q) ≡ under p q
unfolding under
under-cancel b p q = rw (strip_prefix-cancel, under)

pub under-tail : (p r : Text) → IsTail r → under p (p ++ r) ≡ true
unfolding under
under-tail p r h = rw (strip_prefix-append, under) h

pub nil-IsTail : IsTail []
unfolding is_absolute
nil-IsTail = refl

pub under_self : (p : FilePath) → under p p ≡ true
under_self p = rw append-nil at (under-tail p [] nil-IsTail)

-- What is below a path is not above it.
pub under-append_self : (p : FilePath) (c : ℕ) (r : Text) → under (p ++ c ∷ r) p ≡ false
unfolding under strip_prefix
under-append_self p c r = rw append-nil at (under-cancel p (c ∷ r) [])

-- What is at or below a path is spelled as the path and a tail.
pub under-eq : (p q : FilePath) → under p q ≡ true → (r : Text) × (IsTail r × (q ≡ p ++ r))
unfolding under strip_prefix
under-eq [] q h = (q, (h, refl))
under-eq (c ∷ p) [] h = absurd (cc h)
under-eq (c ∷ p) (d ∷ q) h = elim (Bool-cases (c == d)) [
  | inr differ ↦ absurd (cc (rw (differ, under) at h))
  | inl same ↦
      let (r, (tail, spelled)) = under-eq p q (rw (same, under) at h) in
      (r, (tail, ground (arith, same, spelled)))
]

-- What lies below one entry does not lie below another.
pub under_of_names_ne :
    (n m r : Text) → Lacks b'/' n → Lacks b'/' m → n ≢ m → IsTail r → under n (m ++ r) ≡ false
unfolding under strip_prefix is_absolute
under_of_names_ne [] [] r hn hm ne t = absurd (ne refl)
under_of_names_ne [] (d ∷ m) r hn (h, _) ne t = ground arith
under_of_names_ne (c ∷ n) [] [] hn hm ne t = refl
under_of_names_ne (c ∷ n) [] (d ∷ r) (h, _) hm ne t = ground arith
under_of_names_ne (c ∷ n) (d ∷ m) r (_, hn) (_, hm) ne t = elim (Bool-cases (c == d)) [
  | inl same ↦ rw (same, under) (under_of_names_ne n m r hn hm (λ e. ne (ground (arith, e))) t)
  | inr differ ↦ rw (differ, under)
]

-- What lies at or below one entry is not above another.
pub under-append_of_names_ne :
    (n m r : Text) → Lacks b'/' n → Lacks b'/' m → n ≢ m → IsTail r → under (n ++ r) m ≡ false
unfolding under strip_prefix is_absolute
under-append_of_names_ne [] [] r hn hm ne t = absurd (ne refl)
under-append_of_names_ne [] (d ∷ m) [] hn (h, _) ne t = ground arith
under-append_of_names_ne [] (d ∷ m) (x ∷ r) hn (h, _) ne t = ground arith
under-append_of_names_ne (c ∷ n) [] r hn hm ne t = refl
under-append_of_names_ne (c ∷ n) (d ∷ m) r (_, hn) (_, hm) ne t = elim (Bool-cases (c == d)) [
  | inl same ↦
      rw (same, under) (under-append_of_names_ne n m r hn hm (λ e. ne (ground (arith, e))) t)
  | inr differ ↦ rw (differ, under)
]

texts_eq_refl : (ps : List Text) → texts_eq ps ps ≡ true
unfolding texts_eq
texts_eq_refl [] = refl
texts_eq_refl (p ∷ ps) = rw (text_eq_refl p, texts_eq_refl ps)

pub path_eq_refl : (p : FilePath) → path_eq p p ≡ true
unfolding path_eq
path_eq_refl p = texts_eq_refl (components p)
