-- ===== src/Text/Equal.antt =====
-- Equality of texts is decided by `equal`.
use infiniband_exporter.Prelude.{◌≡◌, refl, ◌↔◌, true, [], ◌∷◌, arith}
use infiniband_exporter.Text.{Text, equal}

pub equal_refl : (s : Text) → equal s s ≡ true
unfolding equal
equal_refl [] = refl
equal_refl (x ∷ s) = ground (arith, equal_refl s)

pub equal_sound : (s t : Text) → equal s t ≡ true → s ≡ t
unfolding equal
equal_sound [] [] h = refl
equal_sound [] (y ∷ t) h = cc
equal_sound (x ∷ s) [] h = cc
equal_sound (x ∷ s) (y ∷ t) h = ground (arith, equal_sound s t)

pub equal_iff : (s t : Text) → (equal s t ≡ true) ↔ (s ≡ t)
equal_iff s t = (equal_sound s t, λ e. rw e (equal_refl t))
