-- ===== src/Collect/Runs/Up.antt =====
-- The `up` metric of a device.
use infiniband_exporter.Prelude.{ℕ, ◌≡◌, refl, ap, ◌∙◌, inl, inr, Bool-cases, List, [], ◌∷◌, All}
use mathlib.Core.List.Permᴰ
use infiniband_exporter.Text.{Text, equal}
use infiniband_exporter.Dict.{Dict, get}
use infiniband_exporter.Dict.Laws.{get-put, All-perm}
use infiniband_exporter.Float.{Float64}
use infiniband_exporter.Device.{InfinibandDevice}
use infiniband_exporter.Pool.Laws.{trace-perm}
use infiniband_exporter.Collect.Events.{
  DeviceMetrics, Event, add_retries, add_errors, add_timeouts, append_counters, set_metrics, Totals,
  Collected, apply_event, apply_events, metric_of, up,
}
use infiniband_exporter.Collect.Worker.{Fabric, CollectFlags, tasks}
use infiniband_exporter.Collect.Runs.{Collects, nothing_yet}
use infiniband_exporter.Collect.Runs.Written.{IsZero, IsClean, IsClean-tasks}

module _ {F : Type 0} (fl : Float64 F) where
  up-IsZero : (m : DeviceMetrics F) → IsZero fl m → up fl m ≡ fl.decimal 1 0
  unfolding up
  up-IsZero m (e, t) =
      ap (λ x. fl.sub (fl.sub (fl.decimal 1 0) x) m.timeout) e
      ∙ ap (λ x. fl.sub (fl.sub (fl.decimal 1 0) (fl.decimal 0 0)) x) t
      ∙ rw (fl.sub_zero 1, fl.sub_zero 1)

  -- All metrics that are stored are clean.
  abbrev AreZero : Dict (DeviceMetrics F) → Type 0
  AreZero metrics = (g : Text) → IsZero fl (metric_of fl g metrics)

  apply_event-AreZero :
      (e : Event F) (s : Collected F)
      → IsClean fl e
      → AreZero s.metrics
      → AreZero (apply_event s e).metrics
  unfolding apply_event metric_of
  apply_event-AreZero (add_retries n) s c h = h
  apply_event-AreZero (add_errors n) s c h = h
  apply_event-AreZero (add_timeouts n) s c h = h
  apply_event-AreZero (append_counters cs) s c h = h
  apply_event-AreZero (set_metrics guid m) s c h = λ g. elim (Bool-cases (equal guid g)) [
    | inl e ↦ rw (get-put guid g m s.metrics, e) c
    | inr e ↦ rw (get-put guid g m s.metrics, e) (h g)
  ]

  apply_events-AreZero :
      (es : List (Event F)) (s : Collected F)
      → All (IsClean fl) es
      → AreZero s.metrics
      → AreZero (apply_events s es).metrics
  unfolding apply_events
  apply_events-AreZero [] s c h = h
  apply_events-AreZero (e ∷ es) s (ce, c) h =
      apply_events-AreZero es (apply_event s e) c (apply_event-AreZero e s ce h)

  -- The `up` metric of every device is 1, whatever its queries answered: a goroutine that fails does
  -- not store its metrics, and one that stores them has not failed.
  pub up-eq-one :
      (flags : CollectFlags) (fabric : Fabric F) (limit : ℕ) (devices : List (InfinibandDevice F))
      (totals : Totals) (result : Collected F)
      → Collects fl flags fabric limit devices totals result
      → (guid : Text) → up fl (metric_of fl guid result.metrics) ≡ fl.decimal 1 0
  up-eq-one flags fabric limit devices totals result c guid = up-IsZero _ (
      rw c.result_is (
        apply_events-AreZero c.pool.trace (nothing_yet totals)
          (All-perm (IsClean fl)
            (Permᴰ.symm (trace-perm limit (tasks fl flags fabric devices) c.steps c.done))
            (IsClean-tasks fl flags fabric devices))
          (λ g. unfold metric_of get in (refl, refl)) guid))
