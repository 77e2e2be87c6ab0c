-- ===== src/Text.antt =====
-- Go's strings and the functions of `strings` that the exporter calls. A string is the list of
-- its code points: its text is taken to be valid UTF-8, and the separators are all ASCII, so
-- cutting by code points and by bytes comes to the same.
pub mod Equal
pub mod Cut
pub mod Trim
use Prim.Native.Char.{code}
use Prim.Native.String.{String}
use infiniband_exporter.Prelude.{
  ℕ, suc, Bool, true, false, not, ◌&&◌, ◌||◌, List, [], ◌∷◌, ◌++◌, Option, none, some, leb, ◌==◌,
  if◌then◌else◌,
}
use mathlib.Core.List.{reverse}

abbrev pub Text : Type 0
Text = List ℕ

-- The code points of a literal.
abbrev pub codes : String → Text
codes String.[] = []
codes (String.◌∷◌ c s) = code c ∷ codes s

-- `s == t`
unfoldable pub equal : Text → Text → Bool
equal [] [] = true
equal (x ∷ xs) (y ∷ ys) = x == y && equal xs ys
equal _ _ = false

-- `unicode.IsSpace`
unfoldable pub is_space : ℕ → Bool
is_space c =
    (leb 9 c && leb c 13)
    || c == 32
    || c == 0x85
    || c == 0xa0
    || c == 0x1680
    || (leb 0x2000 c && leb c 0x200a)
    || c == 0x2028
    || c == 0x2029
    || c == 0x202f
    || c == 0x205f
    || c == 0x3000

unfoldable pub is_digit : ℕ → Bool
is_digit c = leb b'0' c && leb c b'9'

-- `strings.HasPrefix`
unfoldable pub has_prefix : Text → Text → Bool
has_prefix s [] = true
has_prefix [] (y ∷ ys) = false
has_prefix (x ∷ xs) (y ∷ ys) = x == y && has_prefix xs ys

-- What is left of `s` behind the prefix, if it has it.
unfoldable pub strip_prefix : Text → Text → Option Text
strip_prefix s [] = some s
strip_prefix [] (y ∷ ys) = none
strip_prefix (x ∷ xs) (y ∷ ys) = if x == y then strip_prefix xs ys else none

-- `strings.HasSuffix`
unfoldable pub has_suffix : Text → Text → Bool
unfolding has_prefix
has_suffix s t = has_prefix (reverse s) (reverse t)

-- `strings.Contains` for a one-character text
unfoldable pub contains : Text → ℕ → Bool
contains [] b = false
contains (c ∷ cs) b = c == b || contains cs b

unfoldable pub drop_while : (ℕ → Bool) → Text → Text
drop_while p [] = []
drop_while p (c ∷ cs) = let rest = drop_while p cs in if p c then rest else c ∷ cs

-- `strings.TrimFunc`
unfoldable pub trim_by : (ℕ → Bool) → Text → Text
unfolding drop_while
trim_by p s = reverse (drop_while p (reverse (drop_while p s)))

-- `strings.TrimSpace`
unfoldable pub trim_space : Text → Text
unfolding trim_by is_space
trim_space = trim_by is_space

-- `strings.Join`
unfoldable pub join : List Text → Text → Text
join [] sep = []
join (p ∷ []) sep = p
join (p ∷ (q ∷ ps)) sep = p ++ (sep ++ join (q ∷ ps) sep)

-- `strings.ReplaceAll(s, string(b), "")`
unfoldable pub remove_all : ℕ → Text → Text
remove_all b [] = []
remove_all b (c ∷ cs) = let rest = remove_all b cs in if c == b then rest else c ∷ rest

-- `strings.Split(s, string(sep))`
unfoldable pub push_front : ℕ → List Text → List Text
push_front c [] = (c ∷ []) ∷ []
push_front c (p ∷ ps) = (c ∷ p) ∷ ps

unfoldable pub split : Text → ℕ → List Text
unfolding push_front
split [] sep = [] ∷ []
split (c ∷ s) sep = let rest = split s sep in if c == sep then [] ∷ rest else push_front c rest

-- `strings.Fields`: `word` is the field that is being read, reversed.
unfoldable pub fields_from : Text → Text → List Text
unfolding is_space
fields_from [] [] = []
fields_from [] (x ∷ word) = reverse (x ∷ word) ∷ []
fields_from (c ∷ s) [] = fields_from s (if is_space c then [] else c ∷ [])
fields_from (c ∷ s) (x ∷ word) =
    let ended = fields_from s [] in
    let longer = fields_from s (c ∷ x ∷ word) in
    if is_space c then reverse (x ∷ word) ∷ ended else longer

unfoldable pub fields : Text → List Text
unfolding fields_from
fields s = fields_from s []
