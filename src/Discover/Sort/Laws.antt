-- ===== src/Discover/Sort/Laws.antt =====
-- The order of texts, and what `sort_strings` makes of a list.
use infiniband_exporter.Prelude.{
  ◌≡◌, refl, ap, ◌∙◌, inl, inr, true, false, List, [], ◌∷◌, All, Bool-cases, arith,
}
use mathlib.Core.List.{Permᴰ}
use mathlib.Core.List.Permᴰ
use infiniband_exporter.Text.{Text}
use infiniband_exporter.Dict.Laws.{All-perm}
use infiniband_exporter.Discover.Sort.{text_le, insert, sort_strings}

pub text_le_refl : (s : Text) → text_le s s ≡ true
unfolding text_le
text_le_refl [] = refl
text_le_refl (x ∷ s) = ground (arith, text_le_refl s)

pub text_le_total : (s t : Text) → text_le s t ≡ false → text_le t s ≡ true
unfolding text_le
text_le_total [] t h = cc
text_le_total (x ∷ s) [] h = refl
text_le_total (x ∷ s) (y ∷ t) h = ground (arith, text_le_total s t)

pub text_le_antisymm : (s t : Text) → text_le s t ≡ true → text_le t s ≡ true → s ≡ t
unfolding text_le
text_le_antisymm [] [] h k = refl
text_le_antisymm [] (y ∷ t) h k = cc
text_le_antisymm (x ∷ s) [] h k = cc
text_le_antisymm (x ∷ s) (y ∷ t) h k = ground (arith, text_le_antisymm s t)

pub text_le_trans : (s t u : Text) → text_le s t ≡ true → text_le t u ≡ true → text_le s u ≡ true
unfolding text_le
text_le_trans [] t u h k = refl
text_le_trans (x ∷ s) [] u h k = cc
text_le_trans (x ∷ s) (y ∷ t) [] h k = cc
text_le_trans (x ∷ s) (y ∷ t) (z ∷ u) h k = ground (arith, text_le_trans s t u)

insert_comm : (a b : Text) (l : List Text) → insert a (insert b l) ≡ insert b (insert a l)
unfolding insert
insert_comm a b [] = ground (arith, text_le_total a b, text_le_total b a, text_le_antisymm a b)
insert_comm a b (t ∷ ts) = ground (
  arith,
  insert_comm a b ts,
  text_le_total a b,
  text_le_total b a,
  text_le_antisymm a b,
  text_le_trans a b t,
  text_le_trans b a t,
)

-- Sorting forgets the order.
pub sort_strings-perm_eq : {xs ys : List Text} → Permᴰ xs ys → sort_strings xs ≡ sort_strings ys
unfolding sort_strings
sort_strings-perm_eq Permᴰ.nil = refl
sort_strings-perm_eq (Permᴰ.cons {a = a} {l₂ = m} e p) =
    ap (insert a) (sort_strings-perm_eq p) ∙ ap (λ x. insert x (sort_strings m)) e
sort_strings-perm_eq (Permᴰ.swap {a = a} {b = b} {l = l} e f) =
    rw (← e, ← f) (insert_comm a b (sort_strings l))
sort_strings-perm_eq (Permᴰ.trans p q) = sort_strings-perm_eq p ∙ sort_strings-perm_eq q

insert-perm : (a : Text) (l : List Text) → Permᴰ (insert a l) (a ∷ l)
unfolding insert
insert-perm a [] = Permᴰ.refl (a ∷ [])
insert-perm a (t ∷ ts) = elim (Bool-cases (text_le a t)) [
  | inl e ↦ rw e (Permᴰ.refl (a ∷ t ∷ ts))
  | inr e ↦ rw e (Permᴰ.trans (Permᴰ.cons refl (insert-perm a ts)) (Permᴰ.swap refl refl))
]

pub sort_strings-perm : (l : List Text) → Permᴰ (sort_strings l) l
unfolding sort_strings
sort_strings-perm [] = Permᴰ.nil
sort_strings-perm (t ∷ ts) =
    Permᴰ.trans (insert-perm t (sort_strings ts)) (Permᴰ.cons refl (sort_strings-perm ts))

-- Each text is before all that follow it.
abbrev pub IsSorted : List Text → Type 0
IsSorted [] = Unit
IsSorted (t ∷ ts) = All (λ u. text_le t u ≡ true) ts × IsSorted ts

All-le_trans :
    (s t : Text) (l : List Text)
    → text_le s t ≡ true
    → All (λ u. text_le t u ≡ true) l
    → All (λ u. text_le s u ≡ true) l
All-le_trans s t [] h k = tt
All-le_trans s t (u ∷ l) h (ku, k) = (text_le_trans s t u h ku, All-le_trans s t l h k)

insert-IsSorted : (a : Text) (l : List Text) → IsSorted l → IsSorted (insert a l)
unfolding insert
insert-IsSorted a [] h = (tt, tt)
insert-IsSorted a (t ∷ ts) (ht, h) = elim (Bool-cases (text_le a t)) [
  | inl e ↦ rw e ((e, All-le_trans a t ts e ht), (ht, h))
  | inr e ↦ rw e (
    All-perm (λ u. text_le t u ≡ true) (Permᴰ.symm (insert-perm a ts)) (text_le_total a t e, ht),
    insert-IsSorted a ts h,
  )
]

pub sort_strings-IsSorted : (l : List Text) → IsSorted (sort_strings l)
unfolding sort_strings
sort_strings-IsSorted [] = tt
sort_strings-IsSorted (t ∷ ts) = insert-IsSorted t (sort_strings ts) (sort_strings-IsSorted ts)
