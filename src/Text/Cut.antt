-- ===== src/Text/Cut.antt =====
-- Cutting a text at a separator.
use infiniband_exporter.Prelude.{
  Bool, not, ◌&&◌, ◌==◌, ℕ, true, false, ◌≡◌, refl, ◌≢◌, List, [], ◌∷◌, ◌++◌, arith, All,
  All-append,
}
use infiniband_exporter.Text.{Text, is_digit, split, remove_all}

-- No character of the text is `b`.
abbrev pub Lacks : ℕ → Text → Type 0
Lacks b = All (λ c. c ≢ b)

pub split-Lacks : (s : Text) (sep : ℕ) → Lacks sep s → split s sep ≡ s ∷ []
unfolding split
split-Lacks [] sep h = refl
split-Lacks (c ∷ s) sep h = ground (arith, split-Lacks s sep)

pub split-append : (p s : Text) (sep : ℕ) → Lacks sep p → split (p ++ sep ∷ s) sep ≡ p ∷ split s sep
unfolding split
split-append [] s sep h = ground arith
split-append (c ∷ p) s sep h = ground (arith, split-append p s sep)

pub remove_all-Lacks : (b : ℕ) (s : Text) → Lacks b s → remove_all b s ≡ s
unfolding remove_all
remove_all-Lacks b [] h = refl
remove_all-Lacks b (c ∷ s) h = ground (arith, remove_all-Lacks b s)

pub remove_all-append :
    (b : ℕ) (s t : Text) → remove_all b (s ++ t) ≡ remove_all b s ++ remove_all b t
unfolding remove_all
remove_all-append b [] t = refl
remove_all-append b (c ∷ s) t = ground (arith, remove_all-append b s t)

pub Lacks-append : (b : ℕ) (s t : Text) → Lacks b s → Lacks b t → Lacks b (s ++ t)
Lacks-append b s t hs ht = All-append (λ c. c ≢ b) s t hs ht

-- Every line ends in a newline.
abbrev pub unlines : List Text → Text
unlines [] = []
unlines (l ∷ ls) = l ++ b'\n' ∷ unlines ls

pub split-unlines :
    (ls : List Text) → All (Lacks b'\n') ls → split (unlines ls) b'\n' ≡ ls ++ [] ∷ []
split-unlines [] h = unfold split in refl
split-unlines (l ∷ ls) (hl, h) = rw (split-append l (unlines ls) b'\n' hl, split-unlines ls h)

pub digit_ne : (b c : ℕ) → is_digit b ≡ false → is_digit c ≡ true → c ≢ b
digit_ne b c hb hc e = cc

-- A list of digits lacks what is no digit.
pub Lacks-digits :
    (b : ℕ) (s : Text) → is_digit b ≡ false → All (λ d. is_digit d ≡ true) s → Lacks b s
Lacks-digits b [] hb h = tt
Lacks-digits b (c ∷ s) hb (hc, h) = (digit_ne b c hb hc, Lacks-digits b s hb h)

pub Lacks-around :
    (b : ℕ) (before id after : Text)
    → is_digit b ≡ false
    → Lacks b before
    → All (λ d. is_digit d ≡ true) id
    → Lacks b after
    → Lacks b (before ++ (id ++ after))
Lacks-around b before id after hb x h y =
    Lacks-append b before (id ++ after) x (Lacks-append b id after (Lacks-digits b id hb h) y)

-- A test of `Lacks`, to be evaluated.
abbrev pub lacks : ℕ → Text → Bool
lacks b [] = true
lacks b (c ∷ s) = not (c == b) && lacks b s

pub lacks_sound : (b : ℕ) (s : Text) → lacks b s ≡ true → Lacks b s
lacks_sound b [] h = tt
lacks_sound b (c ∷ s) h = ground (arith, lacks_sound b s)
