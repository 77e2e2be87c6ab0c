-- ===== src/Collect/Runs/Sequential.antt =====
-- `collect` against a loop over the devices with no goroutines.
use infiniband_exporter.Prelude.{ℕ, ◌<◌, refl, List}
use mathlib.Core.List.{flatten}
use mathlib.Core.List.Permᴰ
use infiniband_exporter.Dict.Laws.{Distinct, Distinct-perm}
use infiniband_exporter.Float.{Float64}
use infiniband_exporter.Device.{InfinibandDevice}
use infiniband_exporter.Pool.Laws.{trace-perm}
use infiniband_exporter.Pool.Progress.{pool_ends}
use infiniband_exporter.Pool.{here}
use infiniband_exporter.Collect.Events.{Totals, Collected, apply_events}
use infiniband_exporter.Collect.Worker.{Fabric, CollectFlags, tasks}
use infiniband_exporter.Collect.Runs.{Collects, nothing_yet}
use infiniband_exporter.Collect.Runs.Schedule.{Alike, perm-Alike, written-perm}
use infiniband_exporter.Collect.Runs.Written.{guids, tasks-Distinct}

module _ {F : Type 0} (fl : Float64 F) (flags : CollectFlags) (fabric : Fabric F) where
  -- One device after the other.
  pub collect_in_order : List (InfinibandDevice F) → Totals → Collected F
  collect_in_order devices totals =
      apply_events (nothing_yet totals) (flatten (tasks fl flags fabric devices))

  -- With room for at least one goroutine `collect` can always come to its end.
  pub collect_returns :
      (limit : ℕ) (devices : List (InfinibandDevice F)) (totals : Totals)
      → 0 < limit
      → (result : Collected F) × Collects fl flags fabric limit devices totals result
  collect_returns limit devices totals room =
      let (_, _, (pool, steps, done)) = pool_ends limit (tasks fl flags fabric devices) room here in
      (
        apply_events (nothing_yet totals) pool.trace,
        record { pool = pool; steps = steps; done = done; result_is = refl },
      )

  -- Where the devices have distinct GUIDs, whatever the schedule, what `collect` returns has the
  -- metrics and the totals of the loop that takes one device after the other, and its counters up to
  -- their order.
  pub collect_lem :
      (limit : ℕ) (devices : List (InfinibandDevice F)) (totals : Totals) (result : Collected F)
      → Distinct (guids devices)
      → Collects fl flags fabric limit devices totals result
      → Alike result (collect_in_order devices totals)
  unfolding collect_in_order
  collect_lem limit devices totals result distinct c = rw c.result_is (
      perm-Alike (trace-perm limit (tasks fl flags fabric devices) c.steps c.done)
        (Distinct-perm
          (written-perm
            (Permᴰ.symm (trace-perm limit (tasks fl flags fabric devices) c.steps c.done)))
          (tasks-Distinct fl flags fabric devices distinct))
        (nothing_yet totals))
