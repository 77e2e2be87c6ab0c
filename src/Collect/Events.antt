-- ===== src/Collect/Events.antt =====
-- What the goroutines of `collect` share, and the steps by which they change it.
use infiniband_exporter.Prelude.{Option, none, some, ℕ, ◌+◌, ◌%◌, List, [], ◌∷◌, ◌++◌}
use Prim.Native.Nat.{◌^◌}
use infiniband_exporter.Text.{Text}
use infiniband_exporter.Dict.{Dict, get, put}
use infiniband_exporter.Float.{Float64}
use infiniband_exporter.Perfquery.Counters.{PerfQueryCounters}

-- `SwitchMetrics` and `HCAMetrics`
pub record DeviceMetrics (F : Type 0) : Type 0 where
  pub duration : F
  pub timeout : F
  pub error : F
  pub rcv_err_duration : F
  pub rcv_err_timeout : F
  pub rcv_err_error : F

-- The zero value of the struct.
abbrev pub zero_metrics : {F : Type 0} → Float64 F → DeviceMetrics F
zero_metrics fl = record {
  duration = fl.decimal 0 0;
  timeout = fl.decimal 0 0;
  error = fl.decimal 0 0;
  rcv_err_duration = fl.decimal 0 0;
  rcv_err_timeout = fl.decimal 0 0;
  rcv_err_error = fl.decimal 0 0;
}

-- The package's `atomic.Uint64` counters, which live as long as the process.
pub record Totals : Type 0 where
  pub retries : ℕ
  pub errors : ℕ
  pub timeouts : ℕ

-- A step of a goroutine that others can see.
pub data Event (F : Type 0) : Type 0 where
  add_retries : ℕ → Event F
  add_errors : ℕ → Event F
  add_timeouts : ℕ → Event F
  append_counters : List (PerfQueryCounters F) → Event F
  set_metrics : Text → DeviceMetrics F → Event F

pub record Collected (F : Type 0) : Type 0 where
  pub counters : List (PerfQueryCounters F)
  pub metrics : Dict (DeviceMetrics F)
  pub totals : Totals

-- `Uint64.Add` wraps around.
abbrev pub add_u64 : ℕ → ℕ → ℕ
add_u64 a b = (a + b) % 2 ^ 64

module _ {F : Type 0} where
  unfoldable pub apply_event : Collected F → Event F → Collected F
  unfolding put
  apply_event s (add_retries n) = record s {
    totals = record s.totals { retries = add_u64 s.totals.retries n };
  }
  apply_event s (add_errors n) = record s {
    totals = record s.totals { errors = add_u64 s.totals.errors n };
  }
  apply_event s (add_timeouts n) = record s {
    totals = record s.totals { timeouts = add_u64 s.totals.timeouts n };
  }
  apply_event s (append_counters cs) = record s { counters = s.counters ++ cs }
  apply_event s (set_metrics guid m) = record s { metrics = put guid m s.metrics }

  unfoldable pub apply_events : Collected F → List (Event F) → Collected F
  unfolding apply_event
  apply_events s [] = s
  apply_events s (e ∷ es) = apply_events (apply_event s e) es

module _ {F : Type 0} (fl : Float64 F) where
  -- `metrics[guid]`; a missing key reads as the zero value.
  abbrev pub or_zero : Option (DeviceMetrics F) → DeviceMetrics F
  or_zero none = zero_metrics fl
  or_zero (some m) = m

  unfoldable pub metric_of : Text → Dict (DeviceMetrics F) → DeviceMetrics F
  metric_of guid metrics = or_zero (get guid metrics)

  -- `up := 1 - metric.error - metric.timeout`
  unfoldable pub up : DeviceMetrics F → F
  up m = fl.sub (fl.sub (fl.decimal 1 0) m.error) m.timeout
