-- ===== src/Switch/Series.antt =====
-- The metrics of the switch collector fit their descriptors.
use infiniband_exporter.Prelude.{
  ℕ, ◌≡◌, refl, inl, some, get_elem?, map, Bool, List, [], ◌∷◌, ◌++◌, All, All-append,
  if◌then◌else◌,
}
use mathlib.Core.List.{Mem}
use infiniband_exporter.Text.{Text, codes}
use infiniband_exporter.Dict.{Dict, RangeOrder, keys, range}
use infiniband_exporter.Float.{Float64}
use infiniband_exporter.Device.{InfinibandDevice, InfinibandUplink}
use infiniband_exporter.Metrics.{Desc, Clock, IsConsistent}
use infiniband_exporter.Metrics.Described.{
  IsFit, Mem-before, Mem-behind, All-between, All-IsConsistent,
}
use infiniband_exporter.Metrics.PortCounters.Laws.{counter_descs, emit_port_counters-IsVisited}
use infiniband_exporter.Perfquery.Counters.{PerfQueryCounters}
use infiniband_exporter.Collect.Events.{DeviceMetrics, Collected}
use infiniband_exporter.Collect.Closing.{closing_metrics}
use infiniband_exporter.Collect.Closing.Laws.{All-if, closing_metrics-IsFit}
use infiniband_exporter.Switch.{
  SwitchFlags, labels, new_switch_collector, describe, counter_series, uplink_series, base_series,
  port_series, port_state_series, rcv_err_series, collect_series,
}

module _ {F : Type 0} (fl : Float64 F) (devices : List (InfinibandDevice F)) (runonce : Bool)
    (visited : RangeOrder) where
  -- What the collector describes, where `range` visits the counters in the order `visited`.
  abbrev pub described : List Desc
  described = describe (new_switch_collector devices runonce) visited

  -- The descriptors behind those of the counters, by their places.
  behind :
      (d : Desc) (i : ℕ)
      → (let s = new_switch_collector devices runonce in
          get_elem? (s.rate ∷ s.raw_rate ∷ s.uplink ∷ s.info ∷ s.up ∷ s.port_state ∷ []) i ≡ some d)
      → Mem d described
  unfolding describe
  behind d i h =
      let s = new_switch_collector devices runonce in
      Mem-behind d (s.duration ∷ s.error ∷ s.timeout ∷ [])
        (map (λ e. e.1) (range visited s.port_descs))
        (s.rate ∷ s.raw_rate ∷ s.uplink ∷ s.info ∷ s.up ∷ s.port_state ∷ []) i h

  before :
      (d : Desc) (i : ℕ)
      → (let s = new_switch_collector devices runonce in
          get_elem? (s.duration ∷ s.error ∷ s.timeout ∷ []) i ≡ some d)
      → Mem d described
  unfolding describe
  before d i h =
      let s = new_switch_collector devices runonce in
      Mem-before d (s.duration ∷ s.error ∷ s.timeout ∷ []) _ i h

  counter_series-IsFit :
      (cs : List (PerfQueryCounters F))
      → All (IsFit described) (counter_series fl (new_switch_collector devices runonce) cs)
  unfolding counter_series new_switch_collector describe
  counter_series-IsFit [] = tt
  counter_series-IsFit (c ∷ cs) =
      let s = new_switch_collector devices runonce in
      All-append (IsFit described) _ _
        (All-between (s.duration ∷ s.error ∷ s.timeout ∷ [])
          (counter_descs fl visited (codes "switch") labels)
          (s.rate ∷ s.raw_rate ∷ s.uplink ∷ s.info ∷ s.up ∷ s.port_state ∷ []) _
          (emit_port_counters-IsVisited fl visited (codes "switch") labels c
            (c.device.guid ∷ c.port_select ∷ c.device.name ∷ []) refl))
        (counter_series-IsFit cs)

  uplink_series-IsFit :
      (device : InfinibandDevice F) (uplinks : List (Text × InfinibandUplink F))
      → All
          (IsFit described)
          (uplink_series fl (new_switch_collector devices runonce) device uplinks)
  unfolding uplink_series new_switch_collector describe
  uplink_series-IsFit device [] = tt
  uplink_series-IsFit device ((port, uplink) ∷ uplinks) = (
    (refl, inl (behind _ 0 refl)),
    (
      (refl, inl (behind _ 1 refl)),
      ((refl, inl (behind _ 2 refl)), uplink_series-IsFit device uplinks),
    ),
  )

  base_series-IsFit :
      (ord : RangeOrder) (metrics : Dict (DeviceMetrics F)) (ds : List (InfinibandDevice F))
      → All (IsFit described) (base_series fl (new_switch_collector devices runonce) ord metrics ds)
  unfolding base_series new_switch_collector describe
  base_series-IsFit ord metrics [] = tt
  base_series-IsFit ord metrics (d ∷ ds) = (
    (refl, inl (behind _ 3 refl)),
    (
      (refl, inl (before _ 0 refl)),
      (
        (refl, inl (before _ 2 refl)),
        (
          (refl, inl (before _ 1 refl)),
          (
            (refl, inl (behind _ 4 refl)),
            All-append (IsFit described) _ _ (uplink_series-IsFit d (range ord d.uplinks))
                (base_series-IsFit ord metrics ds),
          ),
        ),
      ),
    ),
  )

  port_series-IsFit :
      (device : InfinibandDevice F) (state : F) (ports : List Text)
      → All
          (IsFit described)
          (port_series fl (new_switch_collector devices runonce) device state ports)
  unfolding port_series new_switch_collector describe
  port_series-IsFit device state [] = tt
  port_series-IsFit device state (p ∷ ps) =
      ((refl, inl (behind _ 5 refl)), port_series-IsFit device state ps)

  port_state_series-IsFit :
      (ord : RangeOrder) (ds : List (InfinibandDevice F))
      → All (IsFit described) (port_state_series fl (new_switch_collector devices runonce) ord ds)
  unfolding port_state_series
  port_state_series-IsFit ord [] = tt
  port_state_series-IsFit ord (d ∷ ds) =
      All-append (IsFit described) _ _ (port_series-IsFit d _ (ord.arrange (keys d.uplinks))) (
        All-append (IsFit described) _ _ (port_series-IsFit d _ d.down_ports)
          (port_state_series-IsFit ord ds))

  rcv_err_series-IsFit :
      (metrics : Dict (DeviceMetrics F)) (ds : List (InfinibandDevice F))
      → All (IsFit described) (rcv_err_series fl (new_switch_collector devices runonce) metrics ds)
  unfolding rcv_err_series new_switch_collector describe
  rcv_err_series-IsFit metrics [] = tt
  rcv_err_series-IsFit metrics (d ∷ ds) = (
    (refl, inl (before _ 0 refl)),
    (
      (refl, inl (before _ 2 refl)),
      ((refl, inl (before _ 1 refl)), rcv_err_series-IsFit metrics ds),
    ),
  )

  -- Every metric that the switch collector sends is under a descriptor that `Describe` names, in
  -- whatever order `range` visits the counters, or under one of the five that all collectors share;
  -- and it has a value for each label of that descriptor.
  pub switch_series-IsFit :
      (flags : SwitchFlags) (ord : RangeOrder) (clock : Clock F) (result : Collected F)
      → All
          (IsFit described)
          (collect_series fl (new_switch_collector devices runonce) flags ord clock result)
  unfolding collect_series
  switch_series-IsFit flags ord clock result =
      let s = new_switch_collector devices runonce in
      let base = base_series fl s ord result.metrics s.devices in
      let states = port_state_series fl s ord s.devices in
      let details = rcv_err_series fl s result.metrics s.devices in
      let closing = closing_metrics fl s.collector clock result.totals in
      let details_on = if flags.collect.rcv_err then details else [] in
      let states_on = if flags.port_state then states else [] in
      let base_on = if flags.collect.base then base else [] in
      All-append (IsFit described) (counter_series fl s result.counters)
        (base_on ++ (states_on ++ (details_on ++ closing))) (counter_series-IsFit result.counters)
        (All-append (IsFit described) base_on (states_on ++ (details_on ++ closing))
          (All-if (IsFit described) flags.collect.base base
            (base_series-IsFit ord result.metrics s.devices))
          (All-append (IsFit described) states_on (details_on ++ closing)
            (All-if (IsFit described) flags.port_state states
              (port_state_series-IsFit ord s.devices))
            (All-append (IsFit described) details_on closing
              (All-if (IsFit described) flags.collect.rcv_err details
                (rcv_err_series-IsFit result.metrics s.devices))
              (closing_metrics-IsFit fl described s.collector clock result.totals))))

module _ {F : Type 0} (fl : Float64 F) (devices : List (InfinibandDevice F)) (runonce : Bool) where
  -- Every metric that the switch collector sends has a value for each label of its descriptor, under
  -- all flags and whatever was collected, so that none makes `MustNewConstMetric` panic.
  switch_series-IsConsistent :
      (flags : SwitchFlags) (ord : RangeOrder) (clock : Clock F) (result : Collected F)
      → All IsConsistent
          (collect_series fl (new_switch_collector devices runonce) flags ord clock result)
  switch_series-IsConsistent flags ord clock result =
      All-IsConsistent (described fl devices runonce ord) _
        (switch_series-IsFit fl devices runonce ord flags ord clock result)
