-- ===== src/Collect/Worker.antt =====
-- One goroutine of `collect`: its queries, and the steps that they lead to.
use infiniband_exporter.Prelude.{ℕ, Bool, true, false, none, some, List, [], ◌∷◌, ◌++◌}
use infiniband_exporter.Prelude.Int.{ℤ}
use infiniband_exporter.Text.{Text, codes, join}
use infiniband_exporter.Dict.{Dict, RangeOrder, keys}
use infiniband_exporter.Float.{Float64}
use infiniband_exporter.Device.{InfinibandDevice, InfinibandUplink}
use infiniband_exporter.Exec.{deadline_exceeded, exit_error, Outcome}
use infiniband_exporter.Perfquery.Counters.{PerfQueryCounters}
use infiniband_exporter.Perfquery.Retry.{Retried, perfquery_with_retry}
use infiniband_exporter.Perfquery.Parse.{perfquery_parse}
use infiniband_exporter.Collect.Events.{
  DeviceMetrics, zero_metrics, Event, add_retries, add_errors, add_timeouts, append_counters,
  set_metrics,
}

-- What the code does not decide: the answer of `PerfqueryExec` to each attempt of a query (the GUID,
-- the ports, the extra arguments), the seconds that the query took, and the order of `range`.
pub record Fabric (F : Type 0) : Type 0 where
  pub exec : Text → Text → List Text → ℕ → Outcome
  pub elapsed : Text → Text → List Text → F
  pub order : RangeOrder

pub record CollectFlags : Type 0 where
  -- `--collector.*.base-metrics`
  pub base : Bool
  -- `--collector.*.rcv-err-details`
  pub rcv_err : Bool
  -- `--perfquery.retries`
  pub retries : ℤ

unfoldable pub get_device_ports : {F : Type 0} → RangeOrder → Dict (InfinibandUplink F) → List Text
unfolding keys
get_device_ports ord uplinks = ord.arrange (keys uplinks)

abbrev pub extended_args : List Text
extended_args = codes "-l" ∷ codes "-x" ∷ []

abbrev pub rcv_err_args : List Text
rcv_err_args = codes "-E" ∷ []

module _ {F : Type 0} (fl : Float64 F) (flags : CollectFlags) (fabric : Fabric F) where
  unfoldable pub query : Text → Text → List Text → Retried
  query guid ports args = perfquery_with_retry (fabric.exec guid ports args) flags.retries

  module _ (device : InfinibandDevice F) where
    abbrev pub parsed : Text → List (PerfQueryCounters F) × ℕ
    parsed out = perfquery_parse fl fabric.order device out

    -- The body of the loop over the ports, behind its query.
    unfoldable pub rcv_err_result : DeviceMetrics F → Retried → List (Event F) × DeviceMetrics F
    rcv_err_result metric (out, retries, none) = (
      add_retries retries ∷ add_errors (parsed out).1 ∷ append_counters (parsed out).0 ∷ [],
      metric,
    )
    rcv_err_result metric (out, retries, some deadline_exceeded) = (
      add_retries retries ∷ add_timeouts 1 ∷ [],
      record metric { rcv_err_timeout = fl.decimal 1 0 },
    )
    rcv_err_result metric (out, retries, some (exit_error e)) =
        (add_retries retries ∷ add_errors 1 ∷ [], record metric { rcv_err_error = fl.decimal 1 0 })

    unfoldable pub rcv_err_rounds :
        List (PerfQueryCounters F) → DeviceMetrics F → List (Event F) × DeviceMetrics F
    unfolding query rcv_err_result
    rcv_err_rounds [] metric = ([], metric)
    rcv_err_rounds (c ∷ cs) metric =
        let timed = record metric {
          rcv_err_duration = fabric.elapsed device.guid c.port_select rcv_err_args;
        } in
        let (events, metric') =
          rcv_err_result timed (query device.guid c.port_select rcv_err_args) in
        let (later, final) = rcv_err_rounds cs metric' in (events ++ later, final)

    -- `if *switchCollectBase`
    abbrev pub base_part : Bool → List (PerfQueryCounters F) → List (Event F)
    base_part true counters = append_counters counters ∷ []
    base_part false counters = []

    -- `if *switchCollectRcvErr`
    abbrev pub rcv_err_part :
        Bool → List (PerfQueryCounters F) → DeviceMetrics F → List (Event F) × DeviceMetrics F
    rcv_err_part true counters metric = rcv_err_rounds counters metric
    rcv_err_part false counters metric = ([], metric)

    -- Behind the extended counters: the optional parts, and the metrics at the end.
    unfoldable pub collect_details : List (PerfQueryCounters F) → DeviceMetrics F → List (Event F)
    unfolding rcv_err_rounds
    collect_details counters metric =
        let (events, metric') = rcv_err_part flags.rcv_err counters metric in
        base_part flags.base counters ++ (events ++ set_metrics device.guid metric' ∷ [])

    -- On an error the flag is set in the local `metric` alone: `return` comes before it is stored.
    unfoldable pub collect_result : DeviceMetrics F → Retried → List (Event F)
    unfolding collect_details
    collect_result metric (out, retries, some deadline_exceeded) =
        add_retries retries ∷ add_timeouts 1 ∷ []
    collect_result metric (out, retries, some (exit_error e)) =
        add_retries retries ∷ add_errors 1 ∷ []
    collect_result metric (out, retries, none) =
        add_retries retries ∷ add_errors (parsed out).1 ∷ collect_details (parsed out).0 metric

    unfoldable pub collect_device : List (Event F)
    unfolding collect_result query get_device_ports join
    collect_device =
        let ports = join (get_device_ports fabric.order device.uplinks) (codes ",") in
        let metric = record (zero_metrics fl) {
          duration = fabric.elapsed device.guid ports extended_args;
        } in
        collect_result metric (query device.guid ports extended_args)

  unfoldable pub tasks : List (InfinibandDevice F) → List (List (Event F))
  unfolding collect_device
  tasks [] = []
  tasks (d ∷ ds) = collect_device d ∷ tasks ds
