-- ===== src/Hca.antt =====
-- collectors/hca.go: the HCA collector. Its `collect` is that of the switch collector (Collect).
pub mod Series
use infiniband_exporter.Prelude.{Bool, true, false, List, [], ◌∷◌, ◌++◌, map, if◌then◌else◌}
use infiniband_exporter.Text.{Text, codes}
use infiniband_exporter.Dict.{Dict, RangeOrder, range}
use infiniband_exporter.Float.{Float64}
use infiniband_exporter.Device.{InfinibandDevice, InfinibandUplink}
use infiniband_exporter.Metrics.{Desc, Clock, new_desc, Metric, gauge_value, new_const_metric}
use infiniband_exporter.Metrics.PortCounters.{build_port_counter_descs, emit_port_counters}
use infiniband_exporter.Perfquery.Counters.{PerfQueryCounters}
use infiniband_exporter.Collect.Closing.{closing_metrics}
use infiniband_exporter.Collect.Events.{DeviceMetrics, Collected, metric_of, up}
use infiniband_exporter.Collect.Worker.{CollectFlags}

pub record HcaCollector (F : Type 0) : Type 0 where
  pub devices : List (InfinibandDevice F)
  pub collector : Text
  pub port_descs : Dict Desc
  pub duration : Desc
  pub error : Desc
  pub timeout : Desc
  pub rate : Desc
  pub raw_rate : Desc
  pub uplink : Desc
  pub info : Desc
  pub up : Desc

abbrev pub labels : List Text
labels = codes "guid" ∷ codes "hca" ∷ codes "port" ∷ codes "switch" ∷ []

unfoldable pub new_hca_collector : {F : Type 0} → List (InfinibandDevice F) → Bool → HcaCollector F
unfolding build_port_counter_descs
new_hca_collector devices runonce = record {
  devices = devices;
  collector = if runonce then codes "hca-runonce" else codes "hca";
  port_descs = build_port_counter_descs (codes "hca") labels;
  duration = new_desc "hca" "collect_duration_seconds" (codes "guid" ∷ codes "collector" ∷ []);
  error = new_desc "hca" "collect_error" (codes "guid" ∷ codes "collector" ∷ []);
  timeout = new_desc "hca" "collect_timeout" (codes "guid" ∷ codes "collector" ∷ []);
  rate = new_desc "hca" "port_rate_bytes_per_second" (codes "guid" ∷ codes "hca" ∷ []);
  raw_rate = new_desc "hca" "port_raw_rate_bytes_per_second" (codes "guid" ∷ codes "hca" ∷ []);
  uplink = new_desc "hca" "uplink_info" (
      labels
      ++ codes "uplink"
        ∷ codes "uplink_guid"
        ∷ codes "uplink_type"
        ∷ codes "uplink_port"
        ∷ codes "uplink_lid"
        ∷ []);
  info = new_desc "hca" "info" (codes "guid" ∷ codes "hca" ∷ codes "lid" ∷ []);
  up = new_desc "hca" "up" (codes "guid" ∷ codes "hca" ∷ []);
}

-- `Describe`
unfoldable pub describe : {F : Type 0} → HcaCollector F → RangeOrder → List Desc
unfolding range
describe h ord =
    h.duration
    ∷ h.error
    ∷ h.timeout
    ∷ (map (λ (e : Text × Desc). e.1) (range ord h.port_descs)
        ++ h.rate ∷ h.raw_rate ∷ h.uplink ∷ h.info ∷ h.up ∷ [])

module _ {F : Type 0} (fl : Float64 F) (h : HcaCollector F) where
  -- `for _, c := range counters`
  unfoldable pub counter_series : List (PerfQueryCounters F) → List (Metric F)
  unfolding emit_port_counters
  counter_series [] = []
  counter_series (c ∷ cs) =
      emit_port_counters fl h.port_descs c
        (c.device.guid ∷ c.device.name ∷ c.port_select ∷ c.device.switch ∷ [])
      ++ counter_series cs

  -- `for port, uplink := range device.Uplinks`
  unfoldable pub uplink_series :
      InfinibandDevice F → List (Text × InfinibandUplink F) → List (Metric F)
  uplink_series device [] = []
  uplink_series device ((port, uplink) ∷ uplinks) =
      new_const_metric h.uplink gauge_value (fl.decimal 1 0) (
        device.guid ∷ device.name ∷ port ∷ device.switch ∷ uplink.name ∷ uplink.guid ∷ uplink.type
        ∷ uplink.port_number ∷ uplink.lid ∷ [])
      ∷ uplink_series device uplinks

  -- The base metrics of a device.
  unfoldable pub device_series : RangeOrder → DeviceMetrics F → InfinibandDevice F → List (Metric F)
  unfolding uplink_series range up
  device_series ord metric device =
      new_const_metric h.rate gauge_value device.rate (device.guid ∷ device.name ∷ [])
      ∷ new_const_metric h.raw_rate gauge_value device.raw_rate (device.guid ∷ device.name ∷ [])
      ∷ new_const_metric h.info gauge_value (fl.decimal 1 0)
          (device.guid ∷ device.name ∷ device.lid ∷ [])
      ∷ new_const_metric h.duration gauge_value metric.duration (device.guid ∷ h.collector ∷ [])
      ∷ new_const_metric h.timeout gauge_value metric.timeout (device.guid ∷ h.collector ∷ [])
      ∷ new_const_metric h.error gauge_value metric.error (device.guid ∷ h.collector ∷ [])
      ∷ new_const_metric h.up gauge_value (up fl metric) (device.guid ∷ device.name ∷ [])
      ∷ uplink_series device (range ord device.uplinks)

  -- `if *hcaCollectBase`
  unfoldable pub base_series :
      RangeOrder → Dict (DeviceMetrics F) → List (InfinibandDevice F) → List (Metric F)
  unfolding device_series metric_of
  base_series ord metrics [] = []
  base_series ord metrics (device ∷ devices) =
      device_series ord (metric_of fl device.guid metrics) device ++ base_series ord metrics devices

  -- `if *hcaCollectRcvErr`
  unfoldable pub rcv_err_series :
      Dict (DeviceMetrics F) → List (InfinibandDevice F) → List (Metric F)
  unfolding metric_of
  rcv_err_series metrics [] = []
  rcv_err_series metrics (device ∷ devices) =
      let metric = metric_of fl device.guid metrics in
      let name = h.collector ++ codes "-rcv-err" in
      new_const_metric h.duration gauge_value metric.rcv_err_duration (device.guid ∷ name ∷ [])
      ∷ new_const_metric h.timeout gauge_value metric.rcv_err_timeout (device.guid ∷ name ∷ [])
      ∷ new_const_metric h.error gauge_value metric.rcv_err_error (device.guid ∷ name ∷ [])
      ∷ rcv_err_series metrics devices

  -- `Collect`, on what `collect` has returned.
  unfoldable pub collect_series :
      CollectFlags → RangeOrder → Clock F → Collected F → List (Metric F)
  unfolding counter_series base_series rcv_err_series closing_metrics
  collect_series flags ord clock result =
      counter_series result.counters
      ++ ((if flags.base then base_series ord result.metrics h.devices else [])
          ++ ((if flags.rcv_err then rcv_err_series result.metrics h.devices else [])
              ++ closing_metrics fl h.collector clock result.totals))
