-- ===== src/Prelude/Lists.antt =====
-- Lists measured and indexed by native numbers, under the library's names.
use Prim.Native.Nat.{ℕ, zero, suc, ◌+◌}
use mathlib.Core.Path.{◌≡◌, refl}
use mathlib.Core.List.{Memᴰ, List, [], ◌∷◌, ◌++◌}
use mathlib.Core.Option.{Option, none, some}
use native.Mathlib.Omega.{arith}

module _ {ℓ} {A : Type ℓ} where
  abbrev pub length : List A → ℕ
  length [] = 0
  length (x ∷ xs) = suc (length xs)

  abbrev pub get_elem? : List A → ℕ → Option A
  get_elem? [] i = none
  get_elem? (x ∷ xs) zero = some x
  get_elem? (x ∷ xs) (suc i) = get_elem? xs i

  -- `xs[:n]`; where Go would panic the callers test the bound first.
  abbrev pub take : ℕ → List A → List A
  take zero xs = []
  take (suc n) [] = []
  take (suc n) (x ∷ xs) = x ∷ take n xs

  pub length-append : (xs ys : List A) → length (xs ++ ys) ≡ length xs + length ys
  length-append [] ys = omega arith
  length-append (x ∷ xs) ys = omega (arith, length-append xs ys)

module _ {ℓ κ} {A : Type ℓ} (P : A → Type κ) where
  abbrev pub All : List A → Type κ
  All [] = Unit
  All (x ∷ xs) = P x × All xs

  pub All-append : (xs ys : List A) → All xs → All ys → All (xs ++ ys)
  All-append [] ys _ hy = hy
  All-append (x ∷ xs) ys (px, hx) hy = (px, All-append xs ys hx hy)

-- The sum of a measure over a list.
abbrev pub sum_of {ℓ} : {A : Type ℓ} → (A → ℕ) → List A → ℕ
sum_of f [] = 0
sum_of f (x ∷ xs) = f x + sum_of f xs

pub sum_of-append {ℓ} :
    {A : Type ℓ} (f : A → ℕ) (xs ys : List A) → sum_of f (xs ++ ys) ≡ sum_of f xs + sum_of f ys
sum_of-append f [] ys = omega arith
sum_of-append f (x ∷ xs) ys = omega (arith, sum_of-append f xs ys)

-- Every element of a list is in the list.
pub All-Memᴰ {ℓ} :
    {A : Type ℓ} (xs ys : List A) → ((a : A) → Memᴰ a ys → Memᴰ a xs) → All (λ a. Memᴰ a xs) ys
All-Memᴰ xs [] h = tt
All-Memᴰ xs (y ∷ ys) h = (h y (Memᴰ.head refl), All-Memᴰ xs ys (λ a m. h a (Memᴰ.tail m)))

-- What stands at an index is in the list.
pub Memᴰ-get_elem? {ℓ} :
    {A : Type ℓ} (a : A) (xs : List A) (i : ℕ) → get_elem? xs i ≡ some a → Memᴰ a xs
Memᴰ-get_elem? a [] i h = cc
Memᴰ-get_elem? a (x ∷ xs) zero h = Memᴰ.head cc
Memᴰ-get_elem? a (x ∷ xs) (suc i) h = Memᴰ.tail (Memᴰ-get_elem? a xs i h)
