-- ===== src/Dict/Laws.antt =====
-- A write is seen by the reads of its key and by no other; what `range` visits.
use infiniband_exporter.Prelude.{
  ◌≡◌, refl, Option, none, some, List, [], ◌∷◌, ◌++◌, arith, Bool-cases, inl, inr, Bool, true,
  false, not, ◌&&◌, map, filter_map, Perm, All, All-append, if◌then◌else◌,
}
use mathlib.Core.List.{Permᴰ, Mem, mem-cons_self, mem-cons_of_mem}
use mathlib.Core.Option.{some_inj}
use mathlib.Core.List.Perm
use mathlib.Core.Path.{subst, subst₂}
use mathlib.Core.Logic.{∥∥₁_elim}
use infiniband_exporter.Text.{Text, equal}
use infiniband_exporter.Text.Equal.{equal_iff, equal_refl}
use infiniband_exporter.Dict.{Dict, RangeOrder, get, put, keys, range}

-- No key stands twice.
abbrev pub Distinct : List Text → Type 0
Distinct [] = Unit
Distinct (k ∷ ks) = All (λ j. equal k j ≡ false) ks × Distinct ks

-- A test of `Distinct`, to be evaluated.
unfoldable pub is_absent : Text → List Text → Bool
is_absent k [] = true
is_absent k (j ∷ ks) = not (equal k j) && is_absent k ks

unfoldable pub is_distinct : List Text → Bool
unfolding is_absent
is_distinct [] = true
is_distinct (k ∷ ks) = is_absent k ks && is_distinct ks

is_absent_sound :
    (k : Text) (ks : List Text) → is_absent k ks ≡ true → All (λ j. equal k j ≡ false) ks
unfolding is_absent
is_absent_sound k [] h = tt
is_absent_sound k (j ∷ ks) h = ground (arith, is_absent_sound k ks)

pub is_distinct_sound : (ks : List Text) → is_distinct ks ≡ true → Distinct ks
unfolding is_distinct
is_distinct_sound [] h = tt
is_distinct_sound (k ∷ ks) h = ground (arith, is_absent_sound k ks, is_distinct_sound ks)

pub equal_sym_false : (s t : Text) → equal s t ≡ false → equal t s ≡ false
equal_sym_false s t h = ground (arith, equal_iff s t, equal_iff t s)

pub All-perm {ℓ κ} :
    {A : Type ℓ} (P : A → Type κ) {xs ys : List A} → Permᴰ xs ys → All P xs → All P ys
All-perm P Permᴰ.nil h = tt
All-perm P (Permᴰ.cons e p) (hx, h) = (subst P e hx, All-perm P p h)
All-perm P (Permᴰ.swap e f) (ha, (hb, h)) = (subst P f hb, (subst P e ha, h))
All-perm P (Permᴰ.trans p q) h = All-perm P q (All-perm P p h)

pub Distinct-perm : {xs ys : List Text} → Permᴰ xs ys → Distinct xs → Distinct ys
Distinct-perm Permᴰ.nil h = tt
Distinct-perm (Permᴰ.cons {a = a} {l₂ = l} e p) (ha, h) = (
  subst (λ x. All (λ j. equal x j ≡ false) l) e (All-perm (λ j. equal a j ≡ false) p ha),
  Distinct-perm p h,
)
Distinct-perm (Permᴰ.swap {a = a} {b = b} {l = l} e f) ((hab, ha), (hb, h)) =
    subst₂ (λ x y. Distinct (x ∷ y ∷ l)) f e ((equal_sym_false a b hab, hb), (ha, h))
Distinct-perm (Permᴰ.trans p q) h = Distinct-perm q (Distinct-perm p h)

All-left {ℓ κ} : {A : Type ℓ} (P : A → Type κ) (xs ys : List A) → All P (xs ++ ys) → All P xs
All-left P [] ys h = tt
All-left P (x ∷ xs) ys (hx, h) = (hx, All-left P xs ys h)

All-right {ℓ κ} : {A : Type ℓ} (P : A → Type κ) (xs ys : List A) → All P (xs ++ ys) → All P ys
All-right P [] ys h = h
All-right P (x ∷ xs) ys (hx, h) = All-right P xs ys h

pub Distinct-left : (xs ys : List Text) → Distinct (xs ++ ys) → Distinct xs
Distinct-left [] ys h = tt
Distinct-left (x ∷ xs) ys (hx, h) =
    (All-left (λ j. equal x j ≡ false) xs ys hx, Distinct-left xs ys h)

pub Distinct-right : (xs ys : List Text) → Distinct (xs ++ ys) → Distinct ys
Distinct-right [] ys h = h
Distinct-right (x ∷ xs) ys (hx, h) = Distinct-right xs ys h

Distinct-drop : (xs ys zs : List Text) → Distinct (xs ++ (ys ++ zs)) → Distinct (xs ++ zs)
Distinct-drop [] ys zs h = Distinct-right ys zs h
Distinct-drop (x ∷ xs) ys zs (hx, h) = (
  All-append (λ j. equal x j ≡ false) xs zs (All-left (λ j. equal x j ≡ false) xs (ys ++ zs) hx)
      (All-right (λ j. equal x j ≡ false) ys zs
        (All-right (λ j. equal x j ≡ false) xs (ys ++ zs) hx)),
  Distinct-drop xs ys zs h,
)

-- A part in the middle may be left out.
pub Distinct-if :
    (b : Bool) (xs ys zs : List Text)
    → Distinct (xs ++ (ys ++ zs))
    → Distinct (xs ++ ((if b then ys else []) ++ zs))
Distinct-if true xs ys zs h = h
Distinct-if false xs ys zs h = Distinct-drop xs ys zs h

All-false_prop : (k : Text) (ks : List Text) → IsProp (All (λ j. equal k j ≡ false) ks)
All-false_prop k [] = hlevel
All-false_prop k (j ∷ ks) = let rest = All-false_prop k ks in hlevel

Distinct-prop : (ks : List Text) → IsProp (Distinct ks)
Distinct-prop [] = hlevel
Distinct-prop (k ∷ ks) = let first = All-false_prop k ks in let rest = Distinct-prop ks in hlevel

All-put-keys :
    {V : Type 0} (P : Text → Type 0) (k : Text) (v : V) (m : Dict V)
    → P k
    → All P (keys m)
    → All P (keys (put k v m))
unfolding keys put
All-put-keys P k v [] hk h = (hk, tt)
All-put-keys P k v ((j, w) ∷ m) hk (hj, h) = elim (Bool-cases (equal j k)) [
  | inl e ↦ rw e (hj, h)
  | inr e ↦ rw e (hj, All-put-keys P k v m hk h)
]

pub put-Distinct :
    {V : Type 0} (k : Text) (v : V) (m : Dict V) → Distinct (keys m) → Distinct (keys (put k v m))
unfolding keys put
put-Distinct k v [] h = (tt, tt)
put-Distinct k v ((j, w) ∷ m) (hj, h) = elim (Bool-cases (equal j k)) [
  | inl e ↦ rw e (hj, h)
  | inr e ↦ rw e (All-put-keys (λ i. equal j i ≡ false) k v m e hj, put-Distinct k v m h)
]

module _ {ℓ} {V : Type ℓ} where
  pub get-put :
      (k j : Text) (v : V) (m : Dict V)
      → get j (put k v m) ≡ (if equal k j then some v else get j m)
  unfolding get put
  get-put k j v [] = refl
  get-put k j v ((i, w) ∷ m) =
      ground (arith, equal_iff k j, equal_iff i k, equal_iff i j, get-put k j v m)

  pub put-put : (k : Text) (v w : V) (m : Dict V) → put k v (put k w m) ≡ put k v m
  unfolding put
  put-put k v w [] = ground (arith, equal_refl k)
  put-put k v w ((i, u) ∷ m) = ground (arith, put-put k v w m)

  -- Writing what is there changes nothing.
  pub put-get : (k : Text) (v : V) (m : Dict V) → get k m ≡ some v → put k v m ≡ m
  unfolding get put
  put-get k v [] h = cc
  put-get k v ((i, u) ∷ m) h = ground (arith, put-get k v m)

  -- A new key goes to the end.
  pub put-new : (k : Text) (v : V) (m : Dict V) → get k m ≡ none → put k v m ≡ m ++ (k, v) ∷ []
  unfolding get put
  put-new k v [] h = refl
  put-new k v ((i, u) ∷ m) h = ground (arith, put-new k v m)

  pub get-append_new :
      (k j : Text) (v : V) (m : Dict V)
      → get j m ≡ none
      → get j (m ++ (k, v) ∷ []) ≡ (if equal k j then some v else none)
  unfolding get
  get-append_new k j v [] h = refl
  get-append_new k j v ((i, u) ∷ m) h = ground (arith, get-append_new k j v m)

  -- The pair that `range` makes of a key.
  pub visit : Dict V → Text → Option (Text × V)
  unfolding get
  visit m k = elim (get k m) [ none ↦ none | some v ↦ some (k, v) ]

  visit-cons_ne :
      (k : Text) (v : V) (m : Dict V) (ks : List Text)
      → All (λ j. equal k j ≡ false) ks
      → filter_map (visit ((k, v) ∷ m)) ks ≡ filter_map (visit m) ks
  unfolding visit filter_map
  visit-cons_ne k v m [] h = refl
  visit-cons_ne k v m (j ∷ ks) (hj, hs) = ground (arith, visit-cons_ne k v m ks hs)

  visit-keys : (m : Dict V) → Distinct (keys m) → filter_map (visit m) (keys m) ≡ m
  unfolding keys visit filter_map
  visit-keys [] h = refl
  visit-keys ((k, v) ∷ m) (hk, hm) =
      ground (arith, equal_refl k, visit-cons_ne k v m (keys m) hk, visit-keys m hm)

  -- `range` visits each entry once.
  pub range-perm : (ord : RangeOrder) (m : Dict V) → Distinct (keys m) → Perm (range ord m) m
  unfolding range visit
  range-perm ord m h =
      Perm.trans (Perm.filter_map (visit m) (ord.arrange-perm (keys m)))
        (rw (visit-keys m h) (Perm.refl m))

pub Distinct-Perm : {xs ys : List Text} → Perm xs ys → Distinct xs → Distinct ys
Distinct-Perm {ys = ys} p d = ∥∥₁_elim p (Distinct-prop ys) (λ q. Distinct-perm q d)

-- `range` visits no key twice.
pub range-Distinct :
    {V : Type 0} (ord : RangeOrder) (m : Dict V) → Distinct (keys m) → Distinct (keys (range ord m))
unfolding keys
range-Distinct ord m h = Distinct-Perm (Perm.symm (Perm.map (λ e. e.0) (range-perm ord m h))) h

-- Whatever is stored, `range` visits.
module _ {V : Type 0} where
  Mem-get : (k : Text) (v : V) (m : Dict V) → get k m ≡ some v → Mem v (map (λ e. e.1) m)
  unfolding get
  Mem-get k v [] h = absurd cc
  Mem-get k v ((j, w) ∷ m) h = elim (Bool-cases (equal j k)) [
    | inl e ↦ (let same : some w ≡ some v = (rw e at h) in rw (some_inj.0 same) mem-cons_self)
    | inr e ↦ mem-cons_of_mem w (Mem-get k v m (rw e at h))
  ]

  pub range-values :
      (ord : RangeOrder) (k : Text) (v : V) (m : Dict V)
      → Distinct (keys m)
      → get k m ≡ some v
      → Mem v (map (λ e. e.1) (range ord m))
  range-values ord k v m d h =
      (Perm.mem_iff (Perm.map (λ e. e.1) (range-perm ord m d))).1 (Mem-get k v m h)
