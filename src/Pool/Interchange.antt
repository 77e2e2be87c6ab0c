-- ===== src/Pool/Interchange.antt =====
-- Steps that may be exchanged: two runs with the same steps lead to states that are alike, if no two
-- of the steps write under the same key.
use infiniband_exporter.Prelude.{
  Option, List, [], ◌∷◌, ◌≡◌, ◌⊎◌, inl, inr, false, All, map, filter_map,
}
use mathlib.Core.List.{Permᴰ, flatten, filter_map-append}
use mathlib.Core.List.Permᴰ
use infiniband_exporter.Text.{Text, equal}
use infiniband_exporter.Dict.Laws.{Distinct, Distinct-left, Distinct-right, Distinct-perm}

module _ {E S : Type 0} (apply : S → E → S) (IsAlike : S → S → Type 0) (key : E → Option Text) where
  -- The steps one after the other.
  abbrev pub run : S → List E → S
  run s [] = s
  run s (e ∷ es) = run (apply s e) es

  -- The keys under which the steps write.
  abbrev pub written : List E → List Text
  written es = filter_map key es

  -- States may be alike without being equal: a step leads from such states to such states, and two
  -- steps with different keys, or with none, may be exchanged.
  pub record IsExchanging : Type 0 where
    pub alike_refl : (s : S) → IsAlike s s
    pub alike_trans : {s t u : S} → IsAlike s t → IsAlike t u → IsAlike s u
    pub apply-alike : (e : E) {s t : S} → IsAlike s t → IsAlike (apply s e) (apply t e)
    pub exchanged :
        (d e : E) (s : S)
        → Distinct (written (d ∷ e ∷ []))
        → IsAlike (apply (apply s d) e) (apply (apply s e) d)

  module _ (x : IsExchanging) where
    run-alike : (es : List E) {s t : S} → IsAlike s t → IsAlike (run s es) (run t es)
    run-alike [] h = h
    run-alike (e ∷ es) h = run-alike es (x.apply-alike e h)

    pub run-perm :
        {es es' : List E}
        → Permᴰ es es'
        → Distinct (written es)
        → (s : S) → IsAlike (run s es) (run s es')
    run-perm Permᴰ.nil h s = x.alike_refl s
    run-perm (Permᴰ.cons {a = a} {b = b} {l₁ = l} {l₂ = m} e p) h s = rw (← e) (
        run-perm p
          (Distinct-right (written (a ∷ [])) (written l)
            (rw (filter_map-append key (a ∷ []) l) at h))
          (apply s a))
    run-perm (Permᴰ.swap {a = a} {b = b} {l = l} e f) h s =
        rw (← e, ← f)
          (run-alike l (
            x.exchanged a b s (
              Distinct-left (written (a ∷ b ∷ [])) (written l)
                (rw (filter_map-append key (a ∷ b ∷ []) l) at h))))
    run-perm (Permᴰ.trans p q) h s =
        x.alike_trans (run-perm p h s) (run-perm q (Distinct-perm (Permᴰ.filter_map key p) h) s)

module _ {D E : Type 0} (key : E → Option Text) (task : D → List E) (name : D → Text)
    (own : (d : D) → (filter_map key (task d) ≡ []) ⊎ (filter_map key (task d) ≡ name d ∷ [])) where
  All-keys :
      (P : Text → Type 0) (ds : List D)
      → All P (map name ds)
      → All P (filter_map key (flatten (map task ds)))
  unfolding flatten filter_map
  All-keys P [] h = tt
  All-keys P (d ∷ ds) (hd, h) = elim (own d) [
    | inl e ↦ rw (filter_map-append key (task d) (flatten (map task ds)), e) (All-keys P ds h)
    | inr e ↦ rw (filter_map-append key (task d) (flatten (map task ds)), e) (hd, All-keys P ds h)
  ]

  -- Goroutines that write under their own key at most once do not write under the same key.
  pub keys-Distinct :
      (ds : List D) → Distinct (map name ds) → Distinct (filter_map key (flatten (map task ds)))
  unfolding flatten filter_map
  keys-Distinct [] h = tt
  keys-Distinct (d ∷ ds) (hd, h) = elim (own d) [
    | inl e ↦ rw (filter_map-append key (task d) (flatten (map task ds)), e) (keys-Distinct ds h)
    | inr e ↦
        rw (filter_map-append key (task d) (flatten (map task ds)), e)
          (All-keys (λ j. equal (name d) j ≡ false) ds hd, keys-Distinct ds h)
  ]
