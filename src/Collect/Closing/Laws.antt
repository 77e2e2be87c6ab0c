-- ===== src/Collect/Closing/Laws.antt =====
-- The closing metrics fit their descriptors.
use infiniband_exporter.Prelude.{
  ℕ, ◌≡◌, refl, ◌⊎◌, inr, some, Bool, List, [], ◌∷◌, All, get_elem?, Memᴰ-get_elem?, if_holds,
  if◌then◌else◌,
}
use mathlib.Core.List.{Mem, Memᴰ}
use infiniband_exporter.Text.{Text, codes, has_suffix}
use infiniband_exporter.Float.{Float64}
use infiniband_exporter.Metrics.{
  Desc, Clock, IsConsistent, exporter_descs, new_const_metric, collector_desc, gauge_value,
}
use infiniband_exporter.Metrics.Described.{IsFit, All-IsConsistent}
use infiniband_exporter.Collect.Events.{Totals}
use infiniband_exporter.Collect.Closing.{closing_metrics, last_execution}

pub All-if {ℓ κ} :
    {A : Type ℓ} (P : A → Type κ) (b : Bool) (xs : List A) → All P xs → All P (if b then xs else [])
All-if P b xs h = if_holds (All P) b xs [] h tt

module _ {F : Type 0} (fl : Float64 F) (descs : List Desc) where
  -- One of the five descriptors of the exporter, by its place.
  shared :
      (d : Desc) (i : ℕ) → get_elem? exporter_descs i ≡ some d → Mem d descs ⊎ Memᴰ d exporter_descs
  shared d i h = inr (Memᴰ-get_elem? d exporter_descs i h)

  last_execution-IsFit :
      (collector : Text) (clock : Clock F) → All (IsFit descs) (last_execution fl collector clock)
  unfolding last_execution
  last_execution-IsFit collector clock =
      All-if (IsFit descs) (has_suffix collector (codes "-runonce"))
        (new_const_metric (collector_desc "last_execution") gauge_value clock.now (collector ∷ [])
          ∷ [])
        ((refl, shared _ 4 refl), tt)

  pub closing_metrics-IsFit :
      (collector : Text) (clock : Clock F) (totals : Totals)
      → All (IsFit descs) (closing_metrics fl collector clock totals)
  unfolding closing_metrics
  closing_metrics-IsFit collector clock totals = (
    (refl, shared _ 1 refl),
    (
      (refl, shared _ 2 refl),
      ((refl, shared _ 3 refl), ((refl, shared _ 0 refl), last_execution-IsFit collector clock)),
    ),
  )

pub last_execution-IsConsistent :
    {F : Type 0} (fl : Float64 F) (collector : Text) (clock : Clock F)
    → All IsConsistent (last_execution fl collector clock)
last_execution-IsConsistent fl collector clock =
    All-IsConsistent [] (last_execution fl collector clock)
      (last_execution-IsFit fl [] collector clock)
