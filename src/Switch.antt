-- ===== src/Switch.antt =====
-- collectors/switch.go: the switch collector.
pub mod Series
use infiniband_exporter.Prelude.{ℕ, Bool, true, false, List, [], ◌∷◌, ◌++◌, map, if◌then◌else◌}
use Prim.Native.String.{String}
use infiniband_exporter.Prelude.Int.{ℤ}
use infiniband_exporter.Text.{Text, codes, has_suffix}
use infiniband_exporter.Dict.{Dict, RangeOrder, keys, range}
use infiniband_exporter.Float.{Float64}
use infiniband_exporter.Device.{InfinibandDevice, InfinibandUplink}
use infiniband_exporter.Metrics.{
  Desc, Clock, new_desc, Metric, counter_value, gauge_value, new_const_metric,
}
use infiniband_exporter.Metrics.PortCounters.{build_port_counter_descs, emit_port_counters}
use infiniband_exporter.Perfquery.Counters.{PerfQueryCounters}
use infiniband_exporter.Collect.Closing.{closing_metrics}
use infiniband_exporter.Collect.Events.{DeviceMetrics, Totals, Collected, metric_of, up}
use infiniband_exporter.Collect.Worker.{CollectFlags}

pub record SwitchCollector (F : Type 0) : Type 0 where
  pub devices : List (InfinibandDevice F)
  pub collector : Text
  pub port_descs : Dict Desc
  pub duration : Desc
  pub error : Desc
  pub timeout : Desc
  pub rate : Desc
  pub raw_rate : Desc
  pub uplink : Desc
  pub info : Desc
  pub up : Desc
  pub port_state : Desc

abbrev pub labels : List Text
labels = codes "guid" ∷ codes "port" ∷ codes "switch" ∷ []

unfoldable pub new_switch_collector :
    {F : Type 0} → List (InfinibandDevice F) → Bool → SwitchCollector F
unfolding build_port_counter_descs
new_switch_collector devices runonce = record {
  devices = devices;
  collector = if runonce then codes "switch-runonce" else codes "switch";
  port_descs = build_port_counter_descs (codes "switch") labels;
  duration = new_desc "switch" "collect_duration_seconds" (codes "guid" ∷ codes "collector" ∷ []);
  error = new_desc "switch" "collect_error" (codes "guid" ∷ codes "collector" ∷ []);
  timeout = new_desc "switch" "collect_timeout" (codes "guid" ∷ codes "collector" ∷ []);
  rate = new_desc "switch" "port_rate_bytes_per_second" labels;
  raw_rate = new_desc "switch" "port_raw_rate_bytes_per_second" labels;
  uplink = new_desc "switch" "uplink_info" (
      labels
      ++ codes "uplink"
        ∷ codes "uplink_guid"
        ∷ codes "uplink_type"
        ∷ codes "uplink_port"
        ∷ codes "uplink_lid"
        ∷ []);
  info = new_desc "switch" "info" (codes "guid" ∷ codes "switch" ∷ codes "lid" ∷ []);
  up = new_desc "switch" "up" (codes "guid" ∷ codes "switch" ∷ []);
  port_state = new_desc "switch" "port_state" labels;
}

-- `--collector.switch.port-state` beside the flags that both collectors have.
pub record SwitchFlags : Type 0 where
  pub collect : CollectFlags
  pub port_state : Bool

-- `Describe`
unfoldable pub describe : {F : Type 0} → SwitchCollector F → RangeOrder → List Desc
unfolding range
describe s ord =
    s.duration
    ∷ s.error
    ∷ s.timeout
    ∷ (map (λ (e : Text × Desc). e.1) (range ord s.port_descs)
        ++ s.rate ∷ s.raw_rate ∷ s.uplink ∷ s.info ∷ s.up ∷ s.port_state ∷ [])

module _ {F : Type 0} (fl : Float64 F) (s : SwitchCollector F) where
  -- `for _, c := range counters`
  unfoldable pub counter_series : List (PerfQueryCounters F) → List (Metric F)
  unfolding emit_port_counters
  counter_series [] = []
  counter_series (c ∷ cs) =
      emit_port_counters fl s.port_descs c (c.device.guid ∷ c.port_select ∷ c.device.name ∷ [])
      ++ counter_series cs

  -- `for port, uplink := range device.Uplinks` among the base metrics
  unfoldable pub uplink_series :
      InfinibandDevice F → List (Text × InfinibandUplink F) → List (Metric F)
  uplink_series device [] = []
  uplink_series device ((port, uplink) ∷ uplinks) =
      new_const_metric s.rate gauge_value uplink.rate (device.guid ∷ port ∷ device.name ∷ [])
      ∷ new_const_metric s.raw_rate gauge_value uplink.raw_rate
          (device.guid ∷ port ∷ device.name ∷ [])
      ∷ new_const_metric s.uplink gauge_value (fl.decimal 1 0) (
          device.guid ∷ port ∷ device.name ∷ uplink.name ∷ uplink.guid ∷ uplink.type
          ∷ uplink.port_number ∷ uplink.lid ∷ [])
      ∷ uplink_series device uplinks

  -- The base metrics of a device.
  unfoldable pub device_series : RangeOrder → DeviceMetrics F → InfinibandDevice F → List (Metric F)
  unfolding uplink_series range up
  device_series ord metric device =
      new_const_metric s.info gauge_value (fl.decimal 1 0)
        (device.guid ∷ device.name ∷ device.lid ∷ [])
      ∷ new_const_metric s.duration gauge_value metric.duration (device.guid ∷ s.collector ∷ [])
      ∷ new_const_metric s.timeout gauge_value metric.timeout (device.guid ∷ s.collector ∷ [])
      ∷ new_const_metric s.error gauge_value metric.error (device.guid ∷ s.collector ∷ [])
      ∷ new_const_metric s.up gauge_value (up fl metric) (device.guid ∷ device.name ∷ [])
      ∷ uplink_series device (range ord device.uplinks)

  unfoldable pub base_series :
      RangeOrder → Dict (DeviceMetrics F) → List (InfinibandDevice F) → List (Metric F)
  unfolding device_series metric_of
  base_series ord metrics [] = []
  base_series ord metrics (device ∷ devices) =
      device_series ord (metric_of fl device.guid metrics) device ++ base_series ord metrics devices

  unfoldable pub port_series : InfinibandDevice F → F → List Text → List (Metric F)
  port_series device state [] = []
  port_series device state (port ∷ ports) =
      new_const_metric s.port_state gauge_value state (device.guid ∷ port ∷ device.name ∷ [])
      ∷ port_series device state ports

  -- `if *switchCollectPortState`
  unfoldable pub port_state_series : RangeOrder → List (InfinibandDevice F) → List (Metric F)
  unfolding port_series keys
  port_state_series ord [] = []
  port_state_series ord (device ∷ devices) =
      port_series device (fl.decimal 1 0) (ord.arrange (keys device.uplinks))
      ++ (port_series device (fl.decimal 0 0) device.down_ports ++ port_state_series ord devices)

  -- `if *switchCollectRcvErr`
  unfoldable pub rcv_err_series :
      Dict (DeviceMetrics F) → List (InfinibandDevice F) → List (Metric F)
  unfolding metric_of
  rcv_err_series metrics [] = []
  rcv_err_series metrics (device ∷ devices) =
      let metric = metric_of fl device.guid metrics in
      let name = s.collector ++ codes "-rcv-err" in
      new_const_metric s.duration gauge_value metric.rcv_err_duration (device.guid ∷ name ∷ [])
      ∷ new_const_metric s.timeout gauge_value metric.rcv_err_timeout (device.guid ∷ name ∷ [])
      ∷ new_const_metric s.error gauge_value metric.rcv_err_error (device.guid ∷ name ∷ [])
      ∷ rcv_err_series metrics devices

  -- `Collect`, on what `collect` has returned.
  unfoldable pub collect_series : SwitchFlags → RangeOrder → Clock F → Collected F → List (Metric F)
  unfolding counter_series base_series port_state_series rcv_err_series closing_metrics
  collect_series flags ord clock result =
      counter_series result.counters
      ++ ((if flags.collect.base then base_series ord result.metrics s.devices else [])
          ++ ((if flags.port_state then port_state_series ord s.devices else [])
              ++ ((if flags.collect.rcv_err then rcv_err_series result.metrics s.devices else [])
                  ++ closing_metrics fl s.collector clock result.totals)))
