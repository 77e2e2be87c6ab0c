-- ===== src/Discover/Parse/Panic.antt =====
-- When `ibnetdiscoverParse` indexes out of range, and when it cannot.
use infiniband_exporter.Prelude.{
  ℕ, zero, suc, ◌<◌, ◌≡◌, refl, ◌⊎◌, Bool, true, false, Option, none, some, List, [], ◌∷◌, ◌++◌,
  length, get_elem?, arith,
}
use infiniband_exporter.Text.{Text, fields}
use infiniband_exporter.Dict.{Dict}
use infiniband_exporter.Float.{Float64}
use infiniband_exporter.Device.{InfinibandDevice}
use infiniband_exporter.Discover.Names.{parse_names}
use infiniband_exporter.Discover.Rate.{Rate}
use infiniband_exporter.Discover.Items.{merge_name}
use infiniband_exporter.Discover.Parse.{
  Parsed, ok, and_then, error, panic, items_line, parse_line, parse_lines,
}

pub get_elem?-past {ℓ} : {A : Type ℓ} (xs : List A) (i : ℕ) → length xs ≡ i → get_elem? xs i ≡ none
get_elem?-past [] i h = refl
get_elem?-past (x ∷ xs) zero h = ground arith
get_elem?-past (x ∷ xs) (suc i) h = get_elem?-past xs i (omega arith)

pub get_elem?-below {ℓ} :
    {A : Type ℓ} (xs : List A) (i : ℕ) → i < length xs → (a : A) × (get_elem? xs i ≡ some a)
get_elem?-below [] i h = ground arith
get_elem?-below (x ∷ xs) zero h = (x, refl)
get_elem?-below (x ∷ xs) (suc i) h = get_elem?-below xs i (omega arith)

pub and_then-ok :
    {A B : Type 0} (r : Parsed A) {f : A → Parsed B} {b : B}
    → and_then r f ≡ ok b
    → (a : A) × ((r ≡ ok a) × (f a ≡ ok b))
and_then-ok (ok a) h = (a, (refl, h))
and_then-ok (error e) h = cc
and_then-ok panic h = cc

abbrev Returns : {A : Type 0} → Parsed A → Type 0
Returns r = ¬ (r ≡ panic)

abbrev pub has_link : Option (Text × Text) → Bool
has_link none = false
has_link (some (port, [])) = false
has_link (some (port, c ∷ link)) = true

-- A line that has no five words and, where it names a link, has the words of the link.
abbrev pub IsSafe : Text → Type 0
IsSafe line =
    ¬ (length (fields line) ≡ 5)
    × ((has_link (parse_names line) ≡ false) ⊎ (10 < length (merge_name (fields line))))

module _ {F : Type 0} (fl : Float64 F) (port_state : Bool) where
  parse_line-five :
      (devices : Dict (InfinibandDevice F)) (line : Text)
      → length (fields line) ≡ 5
      → parse_line fl port_state devices line ≡ panic
  unfolding parse_line items_line
  parse_line-five devices line h = rw (h, get_elem?-past (fields line) 5 h) refl

  -- A line of exactly five words that the lines before it lead to makes the function panic.
  pub parse_lines-five :
      (devices reached : Dict (InfinibandDevice F)) (before after : List Text) (line : Text)
      → parse_lines fl port_state devices before ≡ ok reached
      → length (fields line) ≡ 5
      → parse_lines fl port_state devices (before ++ line ∷ after) ≡ panic
  unfolding parse_lines
  parse_lines-five devices reached [] after line h five =
      rw (parse_line-five devices line five) refl
  parse_lines-five devices reached (l ∷ before) after line h five =
      let (d, (e, k)) = and_then-ok (parse_line fl port_state devices l) h in
      rw e (parse_lines-five d reached before after line k five)
