-- ===== src/Hca/Series.antt =====
-- The metrics of the HCA collector fit their descriptors.
use infiniband_exporter.Prelude.{
  ℕ, ◌≡◌, refl, inl, some, get_elem?, map, Bool, List, [], ◌∷◌, ◌++◌, All, All-append,
  if◌then◌else◌,
}
use mathlib.Core.List.{Mem}
use infiniband_exporter.Text.{Text, codes}
use infiniband_exporter.Dict.{Dict, RangeOrder, range}
use infiniband_exporter.Float.{Float64}
use infiniband_exporter.Device.{InfinibandDevice, InfinibandUplink}
use infiniband_exporter.Metrics.{Desc, Clock, IsConsistent}
use infiniband_exporter.Metrics.Described.{
  IsFit, Mem-before, Mem-behind, All-between, All-IsConsistent,
}
use infiniband_exporter.Metrics.PortCounters.Laws.{counter_descs, emit_port_counters-IsVisited}
use infiniband_exporter.Perfquery.Counters.{PerfQueryCounters}
use infiniband_exporter.Collect.Events.{DeviceMetrics, Collected}
use infiniband_exporter.Collect.Worker.{CollectFlags}
use infiniband_exporter.Collect.Closing.{closing_metrics}
use infiniband_exporter.Collect.Closing.Laws.{All-if, closing_metrics-IsFit}
use infiniband_exporter.Hca.{
  labels, new_hca_collector, describe, counter_series, uplink_series, base_series, rcv_err_series,
  collect_series,
}

module _ {F : Type 0} (fl : Float64 F) (devices : List (InfinibandDevice F)) (runonce : Bool)
    (visited : RangeOrder) where
  -- What the collector describes, where `range` visits the counters in the order `visited`.
  abbrev pub described : List Desc
  described = describe (new_hca_collector devices runonce) visited

  -- The descriptors behind those of the counters, by their placeh.
  behind :
      (d : Desc) (i : ℕ)
      → (let h = new_hca_collector devices runonce in
          get_elem? (h.rate ∷ h.raw_rate ∷ h.uplink ∷ h.info ∷ h.up ∷ []) i ≡ some d)
      → Mem d described
  unfolding describe
  behind d i e =
      let h = new_hca_collector devices runonce in
      Mem-behind d (h.duration ∷ h.error ∷ h.timeout ∷ [])
        (map (λ e. e.1) (range visited h.port_descs))
        (h.rate ∷ h.raw_rate ∷ h.uplink ∷ h.info ∷ h.up ∷ []) i e

  before :
      (d : Desc) (i : ℕ)
      → (let h = new_hca_collector devices runonce in
          get_elem? (h.duration ∷ h.error ∷ h.timeout ∷ []) i ≡ some d)
      → Mem d described
  unfolding describe
  before d i e =
      let h = new_hca_collector devices runonce in
      Mem-before d (h.duration ∷ h.error ∷ h.timeout ∷ []) _ i e

  counters-IsFit :
      (cs : List (PerfQueryCounters F))
      → All (IsFit described) (counter_series fl (new_hca_collector devices runonce) cs)
  unfolding counter_series new_hca_collector describe
  counters-IsFit [] = tt
  counters-IsFit (c ∷ cs) =
      let h = new_hca_collector devices runonce in
      All-append (IsFit described) _ _
        (All-between (h.duration ∷ h.error ∷ h.timeout ∷ [])
          (counter_descs fl visited (codes "hca") labels)
          (h.rate ∷ h.raw_rate ∷ h.uplink ∷ h.info ∷ h.up ∷ []) _
          (emit_port_counters-IsVisited fl visited (codes "hca") labels c
            (c.device.guid ∷ c.device.name ∷ c.port_select ∷ c.device.switch ∷ []) refl))
        (counters-IsFit cs)

  uplinks-IsFit :
      (device : InfinibandDevice F) (uplinks : List (Text × InfinibandUplink F))
      → All (IsFit described) (uplink_series fl (new_hca_collector devices runonce) device uplinks)
  unfolding uplink_series new_hca_collector describe
  uplinks-IsFit device [] = tt
  uplinks-IsFit device ((port, uplink) ∷ uplinks) =
      ((refl, inl (behind _ 2 refl)), uplinks-IsFit device uplinks)

  base-IsFit :
      (ord : RangeOrder) (metrics : Dict (DeviceMetrics F)) (ds : List (InfinibandDevice F))
      → All (IsFit described) (base_series fl (new_hca_collector devices runonce) ord metrics ds)
  unfolding base_series new_hca_collector describe
  base-IsFit ord metrics [] = tt
  base-IsFit ord metrics (d ∷ ds) =
      let rest =
        All-append (IsFit described) _ _ (uplinks-IsFit d (range ord d.uplinks))
          (base-IsFit ord metrics ds) in
      (
        (refl, inl (behind _ 0 refl)),
        (
          (refl, inl (behind _ 1 refl)),
          (
            (refl, inl (behind _ 3 refl)),
            (
              (refl, inl (before _ 0 refl)),
              (
                (refl, inl (before _ 2 refl)),
                ((refl, inl (before _ 1 refl)), ((refl, inl (behind _ 4 refl)), rest)),
              ),
            ),
          ),
        ),
      )

  rcv_err-IsFit :
      (metrics : Dict (DeviceMetrics F)) (ds : List (InfinibandDevice F))
      → All (IsFit described) (rcv_err_series fl (new_hca_collector devices runonce) metrics ds)
  unfolding rcv_err_series new_hca_collector describe
  rcv_err-IsFit metrics [] = tt
  rcv_err-IsFit metrics (d ∷ ds) = (
    (refl, inl (before _ 0 refl)),
    ((refl, inl (before _ 2 refl)), ((refl, inl (before _ 1 refl)), rcv_err-IsFit metrics ds)),
  )

  -- Every metric that the HCA collector sends is under a descriptor that `Describe` names, in whatever
  -- order `range` visits the counters, or under one of the five that all collectors share; and it has
  -- a value for each label of that descriptor.
  pub hca_series-IsFit :
      (flags : CollectFlags) (ord : RangeOrder) (clock : Clock F) (result : Collected F)
      → All
          (IsFit described)
          (collect_series fl (new_hca_collector devices runonce) flags ord clock result)
  unfolding collect_series
  hca_series-IsFit flags ord clock result =
      let h = new_hca_collector devices runonce in
      let base = base_series fl h ord result.metrics h.devices in
      let details = rcv_err_series fl h result.metrics h.devices in
      let closing = closing_metrics fl h.collector clock result.totals in
      let details_on = if flags.rcv_err then details else [] in
      let base_on = if flags.base then base else [] in
      All-append (IsFit described) (counter_series fl h result.counters)
        (base_on ++ (details_on ++ closing)) (counters-IsFit result.counters)
        (All-append (IsFit described) base_on (details_on ++ closing)
          (All-if (IsFit described) flags.base base (base-IsFit ord result.metrics h.devices))
          (All-append (IsFit described) details_on closing
            (All-if (IsFit described) flags.rcv_err details
              (rcv_err-IsFit result.metrics h.devices))
            (closing_metrics-IsFit fl described h.collector clock result.totals)))

module _ {F : Type 0} (fl : Float64 F) (devices : List (InfinibandDevice F)) (runonce : Bool) where
  -- Every metric that the HCA collector sends has a value for each label of its descriptor, under all
  -- flags and whatever was collected, so that none makes `MustNewConstMetric` panic.
  hca_series-IsConsistent :
      (flags : CollectFlags) (ord : RangeOrder) (clock : Clock F) (result : Collected F)
      → All IsConsistent
          (collect_series fl (new_hca_collector devices runonce) flags ord clock result)
  hca_series-IsConsistent flags ord clock result =
      All-IsConsistent (described fl devices runonce ord) _
        (hca_series-IsFit fl devices runonce ord flags ord clock result)
