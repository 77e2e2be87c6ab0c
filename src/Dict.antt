-- ===== src/Dict.antt =====
-- Go's `map[string]V`. The entries stand in the order of insertion, and the order in which `range`
-- visits the keys, which Go leaves open, is a parameter.
pub mod Laws
use infiniband_exporter.Prelude.{
  ◌≡◌, Option, none, some, List, [], ◌∷◌, ◌++◌, map, filter_map, Perm, if◌then◌else◌,
}
use infiniband_exporter.Text.{Text, equal}

pub record RangeOrder : Type 0 where
  pub arrange : List Text → List Text
  pub arrange-perm : (ks : List Text) → Perm (arrange ks) ks

abbrev pub Dict {ℓ} : Type ℓ → Type ℓ
Dict V = List (Text × V)

module _ {ℓ} {V : Type ℓ} where
  -- `v, ok := m[k]`
  unfoldable pub get : Text → Dict V → Option V
  get k [] = none
  get k ((j, v) ∷ m) = if equal j k then some v else get k m

  -- `m[k] = v`
  unfoldable pub put : Text → V → Dict V → Dict V
  put k v [] = (k, v) ∷ []
  put k v ((j, w) ∷ m) = if equal j k then (j, v) ∷ m else (j, w) ∷ put k v m

  unfoldable pub keys : Dict V → List Text
  keys m = map (λ (e : Text × V). e.0) m

  -- `for k, v := range m`
  unfoldable pub range : RangeOrder → Dict V → List (Text × V)
  unfolding filter_map keys get
  range ord m =
      filter_map (λ k. elim (get k m) [ none ↦ none | some v ↦ some (k, v) ]) (ord.arrange (keys m))
