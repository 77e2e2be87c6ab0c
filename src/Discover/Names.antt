-- ===== src/Discover/Names.antt =====
-- `parseNames`: the names of a port and of its link, in quotes.
use infiniband_exporter.Prelude.{ℕ, Option, none, some, [], ◌∷◌, ◌==◌, if◌then◌else◌}
use infiniband_exporter.Text.{Text, codes, contains, strip_prefix, trim_space}

infixl 5 ◌>>=◌
abbrev pub ◌>>=◌ {ℓ κ} : {A : Type ℓ} {B : Type κ} → Option A → (A → Option B) → Option B
none >>= f = none
some a >>= f = f a

-- The text before the first `b`, and what follows it: `s[:i]` and `s[i+1:]` for `i` of `strings.Index`.
unfoldable pub cut_at : ℕ → Text → Option (Text × Text)
cut_at b [] = none
cut_at b (c ∷ s) =
    let later = (do (before, after) ← cut_at b s; some (c ∷ before, after)) in
    if c == b then some ([], s) else later

module _ {B : Type 0} (k : Text → Option B) where
  -- The regular expression `(.*)` before `k`: as many characters as it can take, no newline.
  unfoldable pub any_star : Text → Option (Text × B)
  any_star [] = do b ← k []; some ([], b)
  any_star (c ∷ s) =
      let here = (do b ← k (c ∷ s); some ([], b)) in
      let longer = if c == b'\n' then none else any_star s in
      elim longer [ some (group, b) ↦ some (c ∷ group, b) | none ↦ here ]

  -- `(.+)`
  unfoldable pub any_plus : Text → Option (Text × B)
  unfolding any_star
  any_plus [] = none
  any_plus (c ∷ s) =
      let rest = (do (group, b) ← any_star s; some (c ∷ group, b)) in
      if c == b'\n' then none else rest

abbrev pub opening : Text
opening = codes "( '"

abbrev pub middle : Text
middle = codes "' - '"

abbrev pub closing : Text
closing = codes "' )"

-- The second group, behind the middle.
unfoldable pub link_group : Text → Option (Text × Text)
unfolding strip_prefix any_plus
link_group s = do t ← strip_prefix s middle; any_plus (λ u. strip_prefix u closing) t

-- `\( '(.+)' - '(.+)' \)` at the start of the text: the two groups.
unfoldable pub names_at : Text → Option (Text × Text)
unfolding strip_prefix any_plus link_group
names_at s = do
  t ← strip_prefix s opening
  (port, (link, rest)) ← any_plus link_group t
  some (port, link)

-- `FindStringSubmatch`: the leftmost match.
unfoldable pub find_names : Text → Option (Text × Text)
unfolding names_at
find_names [] = none
find_names (c ∷ s) =
    let later = find_names s in elim (names_at (c ∷ s)) [ some names ↦ some names | none ↦ later ]

-- The name between the first two quotes.
unfoldable pub quoted_name : Text → Option (Text × Text)
unfolding cut_at trim_space
quoted_name line = do
  (before, after) ← cut_at b'\'' line
  (name, rest) ← cut_at b'\'' (trim_space after)
  some (trim_space name, [])

-- `none` is an error.
unfoldable pub parse_names : Text → Option (Text × Text)
unfolding contains find_names quoted_name trim_space
parse_names line =
    if contains line b'('
    then (do (port, link) ← find_names line; some (trim_space port, trim_space link))
    else quoted_name line
