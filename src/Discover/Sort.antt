-- ===== src/Discover/Sort.antt =====
-- `sort.Strings`: the increasing order of texts, which is the same by code points as by the bytes of
-- UTF-8. Any way to sort has the same result.
pub mod Laws
use infiniband_exporter.Prelude.{
  ℕ, Bool, true, false, ◌&&◌, ◌||◌, List, [], ◌∷◌, ltb, ◌==◌, if◌then◌else◌,
}
use infiniband_exporter.Text.{Text}

-- `s <= t`
unfoldable pub text_le : Text → Text → Bool
text_le [] t = true
text_le (x ∷ s) [] = false
text_le (x ∷ s) (y ∷ t) = ltb x y || (x == y && text_le s t)

unfoldable pub insert : Text → List Text → List Text
unfolding text_le
insert s [] = s ∷ []
insert s (t ∷ ts) = let rest = insert s ts in if text_le s t then s ∷ (t ∷ ts) else t ∷ rest

unfoldable pub sort_strings : List Text → List Text
unfolding insert
sort_strings [] = []
sort_strings (t ∷ ts) = insert t (sort_strings ts)
