-- ===== src/Collect/Runs.antt =====
-- The runs of `collect`: one goroutine for each device, in a pool of `--perfquery.max-concurrent`.
pub mod Schedule
pub mod Written
pub mod Sequential
pub mod Up
use infiniband_exporter.Prelude.{ℕ, ◌≡◌, List, []}
use infiniband_exporter.Float.{Float64}
use infiniband_exporter.Device.{InfinibandDevice}
use infiniband_exporter.Pool.{Pool, start, Steps, IsDone}
use infiniband_exporter.Collect.Events.{Event, Totals, Collected, apply_events}
use infiniband_exporter.Collect.Worker.{Fabric, CollectFlags, tasks}

abbrev pub nothing_yet : {F : Type 0} → Totals → Collected F
nothing_yet totals = record { counters = []; metrics = []; totals = totals }

module _ {F : Type 0} (fl : Float64 F) (flags : CollectFlags) (fabric : Fabric F) where
  -- `collect` may return `result`: some run of the pool has come to its end with it.
  pub record Collects (limit : ℕ) (devices : List (InfinibandDevice F)) (totals : Totals)
      (result : Collected F) : Type 0 where
    pub pool : Pool (Event F)
    pub steps : Steps limit (start (tasks fl flags fabric devices)) pool
    pub done : IsDone pool
    pub result_is : result ≡ apply_events (nothing_yet totals) pool.trace
