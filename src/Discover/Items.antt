-- ===== src/Discover/Items.antt =====
-- The words of a line: a name in quotes that holds spaces is put together again.
use infiniband_exporter.Prelude.{
  ℕ, zero, suc, ◌+◌, ◌-◌, Bool, false, ◌&&◌, Option, none, some, List, [], ◌∷◌, ◌++◌, length,
  get_elem?, take, ◌==◌, if◌then◌else◌,
}
use mathlib.Core.List.{reverse}
use infiniband_exporter.Text.{Text, codes, equal, has_suffix, trim_by}

abbrev pub is_quote : ℕ → Bool
is_quote c = c == b'\''

abbrev starts_quoted : Text → Bool
starts_quoted [] = false
starts_quoted (c ∷ s) = is_quote c

-- `isPairedQuotesName`; it is never called on the empty text, at which it would panic.
unfoldable pub is_paired_quotes_name : Text → Bool
unfolding equal
is_paired_quotes_name name =
    if equal name (codes "'") then false else starts_quoted name && starts_quoted (reverse name)

-- The last word and the words before it.
abbrev pub last_item : List Text → Option Text
last_item [] = none
last_item (x ∷ []) = some x
last_item (x ∷ (y ∷ ys)) = last_item (y ∷ ys)

abbrev pub word : List Text → ℕ → Text
word items i = elim (get_elem? items i) [ none ↦ [] | some w ↦ w ]

-- `for i := len(items) - 2; i > 5; i--`, on `n = i - 5`: the words and the name at its end.
unfoldable pub join_quoted : List Text → ℕ → Text → List Text × Text
unfolding is_paired_quotes_name
join_quoted items zero name = (items, name)
join_quoted items (suc n) name =
    let i = n + 6 in
    let longer = word items i ++ (codes " " ++ name) in
    let rest = join_quoted items n longer in
    if is_paired_quotes_name longer then (take i items ++ longer ∷ [], longer) else rest

-- `items[len(items)-1] = name`
abbrev pub set_last : List Text → Text → List Text
set_last [] name = []
set_last (x ∷ []) name = name ∷ []
set_last (x ∷ (y ∷ ys)) name = x ∷ set_last (y ∷ ys) name

unfoldable pub trim_quotes : Text → Text
unfolding trim_by
trim_quotes = trim_by is_quote

abbrev finish_items : List Text × Text → List Text
unfolding trim_quotes
finish_items (items, name) = set_last items (trim_quotes name)

abbrev merge_last : List Text → Option Text → List Text
unfolding has_suffix is_paired_quotes_name join_quoted trim_quotes
merge_last items none = items
merge_last items (some name) =
    if has_suffix name (codes "'")
    then finish_items (
        if is_paired_quotes_name name
        then (items, name)
        else join_quoted items (length items - 7) name)
    else items

-- The statements from `name := items[len(items)-1]` on.
unfoldable pub merge_name : List Text → List Text
unfolding has_suffix is_paired_quotes_name join_quoted trim_quotes
merge_name items = merge_last items (last_item items)
