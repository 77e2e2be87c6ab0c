-- ===== src/Tests/Collecting.antt =====
-- Examples of `collect` and of the series of the collectors.
use infiniband_exporter.Prelude.{
  ℕ, zero, suc, ◌≡◌, refl, Bool, true, false, Option, none, some, List, [], ◌∷◌, arith, All,
}
use infiniband_exporter.Prelude.Int.{pos}
use infiniband_exporter.Text.{codes, equal}
use infiniband_exporter.Dict.Laws.{Distinct}
use infiniband_exporter.Device.{InfinibandDevice}
use infiniband_exporter.Exec.{exit_error, Outcome}
use infiniband_exporter.Metrics.{Clock}
use infiniband_exporter.Metrics.Described.{IsFit}
use infiniband_exporter.Collect.Events.{Totals, Collected, metric_of, up}
use infiniband_exporter.Collect.Worker.{Fabric, CollectFlags}
use infiniband_exporter.Collect.Runs.{Collects}
use infiniband_exporter.Collect.Runs.Schedule.{Alike}
use infiniband_exporter.Collect.Runs.Written.{guids}
use infiniband_exporter.Collect.Runs.Sequential.{collect_in_order, collect_returns, collect_lem}
use infiniband_exporter.Collect.Runs.Up.{up-eq-one}
use infiniband_exporter.Switch.{SwitchFlags, new_switch_collector}
use infiniband_exporter.Switch.Series.{switch_series-IsFit}
use infiniband_exporter.Hca.{new_hca_collector}
use infiniband_exporter.Hca.Series.{hca_series-IsFit}
use infiniband_exporter.Tests.{numbers, in_order, device}

-- The second device does not answer; the first does at the second attempt.
abbrev answer : Bool → ℕ → Outcome
answer true zero = ([], some (exit_error (codes "timed out")))
answer true (suc n) = (codes "PortSelect:...1\nPortXmitData:..10\n", none)
answer false n = ([], some (exit_error (codes "no such node")))

abbrev fabric : Fabric (Option ℕ)
unfolding equal
fabric = record {
  exec = λ guid ports args. answer (equal guid (codes "0x7cfe"));
  elapsed = λ guid ports args. some 2;
  order = in_order;
}

abbrev flags : CollectFlags
flags = record { base = true; rcv_err = true; retries = pos 1 }

abbrev devices : List (InfinibandDevice (Option ℕ))
devices = device ∷ record device { guid = codes "0x7cff" } ∷ []

abbrev totals : Totals
totals = record { retries = 0; errors = 0; timeouts = 0 }

devices_Distinct : Distinct (guids devices)
unfolding equal
devices_Distinct = ((refl, tt), (tt, tt))

abbrev returned :
    (result : Collected (Option ℕ)) × Collects numbers flags fabric 1 devices totals result
returned = collect_returns numbers flags fabric 1 devices totals (omega arith)

collect_lem_example : Alike returned.0 (collect_in_order numbers flags fabric devices totals)
collect_lem_example =
    collect_lem numbers flags fabric 1 devices totals returned.0 devices_Distinct returned.1

up-eq-one_example : up numbers (metric_of numbers (codes "0x7cff") returned.0.metrics) ≡ some 1
up-eq-one_example =
    up-eq-one numbers flags fabric 1 devices totals returned.0 returned.1 (codes "0x7cff")

abbrev clock : Clock (Option ℕ)
clock = record { seconds = some 2; now = some 1700000000 }

switch_series-IsFit_example :
    All (IsFit (infiniband_exporter.Switch.Series.described numbers devices true in_order)) (
      infiniband_exporter.Switch.collect_series numbers
        (new_switch_collector devices true)
        (record { collect = flags; port_state = true })
        in_order
        clock
        (collect_in_order numbers flags fabric devices totals))
switch_series-IsFit_example =
    switch_series-IsFit numbers devices true in_order
      (record { collect = flags; port_state = true }) in_order clock
      (collect_in_order numbers flags fabric devices totals)

hca_series-IsFit_example :
    All (IsFit (infiniband_exporter.Hca.Series.described numbers devices true in_order)) (
      infiniband_exporter.Hca.collect_series numbers
        (new_hca_collector devices true)
        flags
        in_order
        clock
        (collect_in_order numbers flags fabric devices totals))
hca_series-IsFit_example =
    hca_series-IsFit numbers devices true in_order flags in_order clock
      (collect_in_order numbers flags fabric devices totals)
