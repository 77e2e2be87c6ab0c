-- ===== src/Text/Trim.antt =====
-- Trimming the spaces of a column.
use infiniband_exporter.Prelude.{ℕ, ◌≢◌, zero, suc, ◌≡◌, refl, ap, ◌∙◌, false, [], ◌∷◌, ◌++◌}
use mathlib.Core.List.{reverse, reverse-append, reverse-cons, reverse-reverse}
use infiniband_exporter.Text.Cut.{Lacks}
use infiniband_exporter.Text.{Text, is_space, drop_while, trim_by, trim_space}

abbrev pub spaces : ℕ → Text
spaces zero = []
spaces (suc n) = b' ' ∷ spaces n

spaces-last : (n : ℕ) → spaces n ++ b' ' ∷ [] ≡ b' ' ∷ spaces n
spaces-last zero = refl
spaces-last (suc n) = ap (◌∷◌ b' ') (spaces-last n)

reverse-spaces : (n : ℕ) → reverse (spaces n) ≡ spaces n
reverse-spaces zero = refl
reverse-spaces (suc n) = reverse-cons b' ' (spaces n) ∙ (rw (reverse-spaces n) (spaces-last n))

drop_while-spaces : (n : ℕ) (s : Text) → drop_while is_space (spaces n ++ s) ≡ drop_while is_space s
unfolding drop_while is_space
drop_while-spaces zero s = refl
drop_while-spaces (suc n) s = drop_while-spaces n s

drop_while-stops : (c : ℕ) (s : Text) → is_space c ≡ false → drop_while is_space (c ∷ s) ≡ c ∷ s
unfolding drop_while
drop_while-stops c s h = rw h refl

-- A text that begins and ends with no space, in a column of some width.
pub trim_space-spaces :
    (c : ℕ) (s : Text) (d n : ℕ)
    → is_space c ≡ false
    → is_space d ≡ false
    → trim_space ((c ∷ (s ++ d ∷ [])) ++ spaces n) ≡ c ∷ (s ++ d ∷ [])
unfolding trim_space trim_by
trim_space-spaces c s d n hc hd =
    rw
      (
        drop_while-stops c ((s ++ d ∷ []) ++ spaces n) hc,
        reverse-append (c ∷ (s ++ d ∷ [])) (spaces n),
        reverse-spaces n,
        drop_while-spaces n (reverse (c ∷ (s ++ d ∷ []))),
        reverse-append (c ∷ s) (d ∷ []),
        drop_while-stops d (reverse (c ∷ s)) hd,
        reverse-append (d ∷ []) (reverse (c ∷ s)),
        reverse-reverse (c ∷ s),
      )
      refl

-- The same in a column that is indented.
pub trim_space-column :
    (m c : ℕ) (s : Text) (d n : ℕ)
    → is_space c ≡ false
    → is_space d ≡ false
    → trim_space (spaces m ++ ((c ∷ (s ++ d ∷ [])) ++ spaces n)) ≡ c ∷ (s ++ d ∷ [])
unfolding trim_space trim_by
trim_space-column m c s d n hc hd =
    rw (drop_while-spaces m ((c ∷ (s ++ d ∷ [])) ++ spaces n)) (trim_space-spaces c s d n hc hd)

pub Lacks-spaces : (b n : ℕ) → b ≢ b' ' → Lacks b (spaces n)
Lacks-spaces b zero h = tt
Lacks-spaces b (suc n) h = (λ e. h (rw e refl), Lacks-spaces b n h)

pub trim-value : (v : Text) → trim_space (b' ' ∷ v) ≡ trim_space v
unfolding trim_space trim_by drop_while is_space
trim-value v = refl
