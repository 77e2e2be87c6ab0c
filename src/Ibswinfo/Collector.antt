-- ===== src/Ibswinfo/Collector.antt =====
-- `NewIbswinfoCollector`, `Describe` and `Collect`.
pub mod Series
use infiniband_exporter.Prelude.{ℕ, Bool, List, [], ◌∷◌, ◌++◌, if◌then◌else◌}
use infiniband_exporter.Text.{Text, codes}
use infiniband_exporter.Float.{Float64}
use infiniband_exporter.Device.{InfinibandDevice}
use infiniband_exporter.Metrics.{
  Desc, Clock, new_desc, collector_desc, Metric, counter_value, gauge_value, new_const_metric,
}
use infiniband_exporter.Collect.Closing.{last_execution}
use infiniband_exporter.Ibswinfo.{SwitchPowerSupply, SwitchFan, Ibswinfo}

pub record IbswinfoCollector (F : Type 0) : Type 0 where
  pub devices : List (InfinibandDevice F)
  pub collector : Text
  pub duration : Desc
  pub error : Desc
  pub timeout : Desc
  pub hardware_info : Desc
  pub uptime : Desc
  pub power_supply_status : Desc
  pub power_supply_dc_power : Desc
  pub power_supply_fan_status : Desc
  pub power_supply_watts : Desc
  pub temp : Desc
  pub fan_status : Desc
  pub fan_rpm : Desc
  pub up : Desc

abbrev pub collect_labels : List Text
collect_labels = codes "guid" ∷ codes "collector" ∷ codes "switch" ∷ []

abbrev pub psu_labels : List Text
psu_labels = codes "guid" ∷ codes "psu" ∷ codes "status" ∷ codes "switch" ∷ []

abbrev pub switch_labels : List Text
switch_labels = codes "guid" ∷ codes "switch" ∷ []

unfoldable pub new_ibswinfo_collector :
    {F : Type 0} → List (InfinibandDevice F) → Bool → IbswinfoCollector F
new_ibswinfo_collector devices runonce = record {
  devices = devices;
  collector = if runonce then codes "ibswinfo-runonce" else codes "ibswinfo";
  duration = new_desc "ibswinfo" "collect_duration_seconds" collect_labels;
  error = new_desc "ibswinfo" "collect_error" collect_labels;
  timeout = new_desc "ibswinfo" "collect_timeout" collect_labels;
  hardware_info = new_desc "switch" "hardware_info" (
      codes "guid"
      ∷ codes "firmware_version"
      ∷ codes "psid"
      ∷ codes "part_number"
      ∷ codes "serial_number"
      ∷ codes "switch"
      ∷ []);
  uptime = new_desc "switch" "uptime_seconds" switch_labels;
  power_supply_status = new_desc "switch" "power_supply_status_info" psu_labels;
  power_supply_dc_power = new_desc "switch" "power_supply_dc_power_status_info" psu_labels;
  power_supply_fan_status = new_desc "switch" "power_supply_fan_status_info" psu_labels;
  power_supply_watts =
      new_desc "switch" "power_supply_watts" (codes "guid" ∷ codes "psu" ∷ codes "switch" ∷ []);
  temp = new_desc "switch" "temperature_celsius" switch_labels;
  fan_status =
      new_desc "switch" "fan_status_info" (codes "guid" ∷ codes "status" ∷ codes "switch" ∷ []);
  fan_rpm = new_desc "switch" "fan_rpm" (codes "guid" ∷ codes "fan" ∷ codes "switch" ∷ []);
  up = new_desc "ibswinfo" "up" switch_labels;
}

module _ {F : Type 0} (s : IbswinfoCollector F) where
  unfoldable pub describe : List Desc
  describe =
      s.duration ∷ s.error ∷ s.timeout ∷ s.hardware_info ∷ s.uptime ∷ s.power_supply_status
      ∷ s.power_supply_dc_power ∷ s.power_supply_fan_status ∷ s.power_supply_watts ∷ s.temp
      ∷ s.fan_status ∷ s.fan_rpm ∷ s.up ∷ []

-- `up := 1 - swinfo.error - swinfo.timeout`
unfoldable pub swinfo_up : {F : Type 0} → Float64 F → Ibswinfo F → F
swinfo_up fl swinfo = fl.sub (fl.sub (fl.decimal 1 0) swinfo.error) swinfo.timeout

module _ {F : Type 0} (fl : Float64 F) (s : IbswinfoCollector F) where
  -- A status text is sent as a label, unless it is empty.
  abbrev pub status_series : Desc → List Text → Text → List Text → List (Metric F)
  status_series desc before [] after = []
  status_series desc before (c ∷ status) after =
      new_const_metric desc gauge_value (fl.decimal 1 0) (before ++ (c ∷ status) ∷ after) ∷ []

  -- `if !math.IsNaN(value)`
  abbrev pub number_series : Desc → F → List Text → List (Metric F)
  number_series desc value labels =
      if fl.is_nan value then [] else new_const_metric desc gauge_value value labels ∷ []

  unfoldable pub psu_series : InfinibandDevice F → List (SwitchPowerSupply F) → List (Metric F)
  psu_series device [] = []
  psu_series device (psu ∷ psus) =
      status_series s.power_supply_status (device.guid ∷ psu.id ∷ []) psu.status (device.name ∷ [])
      ++ (status_series s.power_supply_dc_power (device.guid ∷ psu.id ∷ []) psu.dc_power
            (device.name ∷ [])
          ++ (status_series s.power_supply_fan_status (device.guid ∷ psu.id ∷ []) psu.fan_status
                (device.name ∷ [])
              ++ (number_series s.power_supply_watts psu.power_w
                    (device.guid ∷ psu.id ∷ device.name ∷ [])
                  ++ psu_series device psus)))

  unfoldable pub fan_series : InfinibandDevice F → List (SwitchFan F) → List (Metric F)
  fan_series device [] = []
  fan_series device (fan ∷ fans) =
      number_series s.fan_rpm fan.rpm (device.guid ∷ fan.id ∷ device.name ∷ [])
      ++ fan_series device fans

  -- The body of `for _, swinfo := range swinfos`.
  unfoldable pub swinfo_series : Ibswinfo F → List (Metric F)
  unfolding psu_series fan_series swinfo_up
  swinfo_series swinfo =
      let device = swinfo.device in
      new_const_metric s.hardware_info gauge_value (fl.decimal 1 0) (
        device.guid ∷ swinfo.firmware_version ∷ swinfo.psid ∷ swinfo.part_number
        ∷ swinfo.serial_number ∷ device.name ∷ [])
      ∷ new_const_metric s.uptime gauge_value swinfo.uptime (device.guid ∷ device.name ∷ [])
      ∷ new_const_metric s.duration gauge_value swinfo.duration
          (device.guid ∷ s.collector ∷ device.name ∷ [])
      ∷ new_const_metric s.error gauge_value swinfo.error
          (device.guid ∷ s.collector ∷ device.name ∷ [])
      ∷ new_const_metric s.timeout gauge_value swinfo.timeout
          (device.guid ∷ s.collector ∷ device.name ∷ [])
      ∷ new_const_metric s.up gauge_value (swinfo_up fl swinfo) (device.guid ∷ device.name ∷ [])
      ∷ (psu_series device swinfo.power_supplies
          ++ (number_series s.temp swinfo.temp (device.guid ∷ device.name ∷ [])
              ++ (status_series s.fan_status (device.guid ∷ []) swinfo.fan_status (device.name ∷ [])
                  ++ fan_series device swinfo.fans)))

  unfoldable pub swinfos_series : List (Ibswinfo F) → List (Metric F)
  unfolding swinfo_series
  swinfos_series [] = []
  swinfos_series (swinfo ∷ swinfos) = swinfo_series swinfo ++ swinfos_series swinfos

  -- `Collect` on what `collect` returns, with the two totals.
  unfoldable pub collect_series : Clock F → List (Ibswinfo F) → ℕ → ℕ → List (Metric F)
  unfolding swinfos_series last_execution
  collect_series clock swinfos errors timeouts =
      swinfos_series swinfos
      ++ (new_const_metric (collector_desc "collect_errors_total") counter_value
            (fl.decimal errors 0) (s.collector ∷ [])
          ∷ new_const_metric (collector_desc "collect_timeouts_total") counter_value
              (fl.decimal timeouts 0) (s.collector ∷ [])
          ∷ new_const_metric (collector_desc "collector_duration_seconds") gauge_value clock.seconds
              (s.collector ∷ [])
          ∷ last_execution fl s.collector clock)
