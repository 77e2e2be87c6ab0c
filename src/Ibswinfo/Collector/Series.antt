-- ===== src/Ibswinfo/Collector/Series.antt =====
-- The metrics of the ibswinfo collector fit their descriptors, which `Describe` names.
use infiniband_exporter.Prelude.{
  ℕ, Memᴰ-get_elem?, refl, Bool, List, [], ◌∷◌, ◌++◌, All, All-append, Bool-cases, inl, inr,
}
use mathlib.Core.List.{Memᴰ}
use infiniband_exporter.Text.{Text}
use infiniband_exporter.Float.{Float64}
use infiniband_exporter.Device.{InfinibandDevice}
use infiniband_exporter.Metrics.{Desc, Clock, Metric, IsConsistent, gauge_value, new_const_metric}
use infiniband_exporter.Collect.Closing.Laws.{last_execution-IsConsistent}
use infiniband_exporter.Ibswinfo.{SwitchPowerSupply, SwitchFan, Ibswinfo}
use infiniband_exporter.Ibswinfo.Collector.{
  new_ibswinfo_collector, describe, status_series, number_series, psu_series, fan_series,
  swinfo_series, swinfos_series, collect_series,
}

module _ {F : Type 0} (fl : Float64 F) (devices : List (InfinibandDevice F)) (runonce : Bool) where
  -- The values fit the labels, and `Describe` names the descriptor.
  abbrev pub IsFit : Metric F → Type 0
  IsFit m = IsConsistent m × Memᴰ m.desc (describe (new_ibswinfo_collector devices runonce))

  All-status :
      (P : Metric F → Type 0) (desc : Desc) (before : List Text) (status : Text) (after : List Text)
      → ((t : Text) → P (new_const_metric desc gauge_value (fl.decimal 1 0) (before ++ t ∷ after)))
      → All P (status_series fl (new_ibswinfo_collector devices runonce) desc before status after)
  All-status P desc before [] after h = tt
  All-status P desc before (c ∷ status) after h = (h (c ∷ status), tt)

  All-number :
      (P : Metric F → Type 0) (desc : Desc) (value : F) (labels : List Text)
      → P (new_const_metric desc gauge_value value labels)
      → All P (number_series fl (new_ibswinfo_collector devices runonce) desc value labels)
  All-number P desc value labels h = elim (Bool-cases (fl.is_nan value)) [
    | inl e ↦ rw e tt
    | inr e ↦ rw e (h, tt)
  ]

  psu_series-IsFit :
      (device : InfinibandDevice F) (psus : List (SwitchPowerSupply F))
      → All IsFit (psu_series fl (new_ibswinfo_collector devices runonce) device psus)
  unfolding psu_series new_ibswinfo_collector describe
  psu_series-IsFit device [] = tt
  psu_series-IsFit device (psu ∷ psus) =
      let s = new_ibswinfo_collector devices runonce in
      All-append IsFit _ _
        (All-status IsFit s.power_supply_status (device.guid ∷ psu.id ∷ []) psu.status
          (device.name ∷ []) (λ t. (refl, Memᴰ-get_elem? _ (describe s) 5 refl)))
        (All-append IsFit _ _
          (All-status IsFit s.power_supply_dc_power (device.guid ∷ psu.id ∷ []) psu.dc_power
            (device.name ∷ []) (λ t. (refl, Memᴰ-get_elem? _ (describe s) 6 refl)))
          (All-append IsFit _ _
            (All-status IsFit s.power_supply_fan_status (device.guid ∷ psu.id ∷ []) psu.fan_status
              (device.name ∷ []) (λ t. (refl, Memᴰ-get_elem? _ (describe s) 7 refl)))
            (All-append IsFit _ _
              (All-number IsFit s.power_supply_watts psu.power_w
                (device.guid ∷ psu.id ∷ device.name ∷ [])
                (refl, Memᴰ-get_elem? _ (describe s) 8 refl))
              (psu_series-IsFit device psus))))

  fan_series-IsFit :
      (device : InfinibandDevice F) (fans : List (SwitchFan F))
      → All IsFit (fan_series fl (new_ibswinfo_collector devices runonce) device fans)
  unfolding fan_series new_ibswinfo_collector describe
  fan_series-IsFit device [] = tt
  fan_series-IsFit device (fan ∷ fans) =
      let s = new_ibswinfo_collector devices runonce in
      All-append IsFit _ _
        (All-number IsFit s.fan_rpm fan.rpm (device.guid ∷ fan.id ∷ device.name ∷ [])
          (refl, Memᴰ-get_elem? _ (describe s) 11 refl))
        (fan_series-IsFit device fans)

  swinfo_series-IsFit :
      (swinfo : Ibswinfo F)
      → All IsFit (swinfo_series fl (new_ibswinfo_collector devices runonce) swinfo)
  unfolding swinfo_series new_ibswinfo_collector describe
  swinfo_series-IsFit swinfo =
      let s = new_ibswinfo_collector devices runonce in
      let device = swinfo.device in
      (
        (refl, Memᴰ-get_elem? _ (describe s) 3 refl),
        (
          (refl, Memᴰ-get_elem? _ (describe s) 4 refl),
          (
            (refl, Memᴰ-get_elem? _ (describe s) 0 refl),
            (
              (refl, Memᴰ-get_elem? _ (describe s) 1 refl),
              (
                (refl, Memᴰ-get_elem? _ (describe s) 2 refl),
                (
                  (refl, Memᴰ-get_elem? _ (describe s) 12 refl),
                  All-append IsFit _ _ (psu_series-IsFit device swinfo.power_supplies) (
                      All-append IsFit _ _
                        (All-number IsFit s.temp swinfo.temp (device.guid ∷ device.name ∷ [])
                          (refl, Memᴰ-get_elem? _ (describe s) 9 refl))
                        (All-append IsFit _ _
                          (All-status IsFit s.fan_status (device.guid ∷ []) swinfo.fan_status
                            (device.name ∷ []) (λ t. (refl, Memᴰ-get_elem? _ (describe s) 10 refl)))
                          (fan_series-IsFit device swinfo.fans))),
                ),
              ),
            ),
          ),
        ),
      )

  swinfos_series-IsFit :
      (swinfos : List (Ibswinfo F))
      → All IsFit (swinfos_series fl (new_ibswinfo_collector devices runonce) swinfos)
  unfolding swinfos_series
  swinfos_series-IsFit [] = tt
  swinfos_series-IsFit (swinfo ∷ swinfos) =
      All-append IsFit (swinfo_series fl (new_ibswinfo_collector devices runonce) swinfo) _
        (swinfo_series-IsFit swinfo) (swinfos_series-IsFit swinfos)

  All-IsConsistent : (ms : List (Metric F)) → All IsFit ms → All IsConsistent ms
  All-IsConsistent [] h = tt
  All-IsConsistent (m ∷ ms) ((c, _), h) = (c, All-IsConsistent ms h)

  -- Every metric that the ibswinfo collector sends has a value for each label of its descriptor, so
  -- that none makes `MustNewConstMetric` panic; and those of the switches are under descriptors that
  -- `Describe` names.
  pub ibswinfo_series-IsFit :
      (clock : Clock F) (swinfos : List (Ibswinfo F)) (errors timeouts : ℕ)
      → All IsFit (swinfos_series fl (new_ibswinfo_collector devices runonce) swinfos)
        × All IsConsistent (
            collect_series fl
              (new_ibswinfo_collector devices runonce)
              clock
              swinfos
              errors
              timeouts)
  unfolding collect_series
  ibswinfo_series-IsFit clock swinfos errors timeouts =
      let s = new_ibswinfo_collector devices runonce in
      (
        swinfos_series-IsFit swinfos,
        All-append IsConsistent (swinfos_series fl s swinfos) _
            (All-IsConsistent (swinfos_series fl s swinfos) (swinfos_series-IsFit swinfos))
            (refl, (refl, (refl, last_execution-IsConsistent fl s.collector clock))),
      )
