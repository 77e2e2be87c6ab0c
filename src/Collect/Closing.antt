-- ===== src/Collect/Closing.antt =====
-- The end of `Collect`, which the switch and the HCA collector share.
pub mod Laws
use infiniband_exporter.Prelude.{List, [], ◌∷◌, if◌then◌else◌}
use infiniband_exporter.Text.{Text, codes, has_suffix}
use infiniband_exporter.Float.{Float64}
use infiniband_exporter.Metrics.{
  Metric, Clock, collector_desc, counter_value, gauge_value, new_const_metric,
}
use infiniband_exporter.Collect.Events.{Totals}

module _ {F : Type 0} (fl : Float64 F) where
  -- `if strings.HasSuffix(s.collector, "-runonce")`
  unfoldable pub last_execution : Text → Clock F → List (Metric F)
  unfolding has_suffix
  last_execution collector clock =
      if has_suffix collector (codes "-runonce")
      then new_const_metric (collector_desc "last_execution") gauge_value clock.now (collector ∷ [])
        ∷ []
      else []

  unfoldable pub closing_metrics : Text → Clock F → Totals → List (Metric F)
  unfolding last_execution
  closing_metrics collector clock totals =
      new_const_metric (collector_desc "collect_errors_total") counter_value
        (fl.decimal totals.errors 0) (collector ∷ [])
      ∷ new_const_metric (collector_desc "collect_timeouts_total") counter_value
          (fl.decimal totals.timeouts 0) (collector ∷ [])
      ∷ new_const_metric (collector_desc "collect_retries_total") counter_value
          (fl.decimal totals.retries 0) (collector ∷ [])
      ∷ new_const_metric (collector_desc "collector_duration_seconds") gauge_value clock.seconds
          (collector ∷ [])
      ∷ last_execution collector clock
