-- ===== src/Metrics.antt =====
-- The Prometheus metrics that the collectors send, as far as the exporter sets them, and the port
-- counters of collectors/port_counters.go.
pub mod PortCounters
pub mod Described
use infiniband_exporter.Prelude.{ℕ, ◌≡◌, List, [], ◌∷◌, length}
use Prim.Native.String.{String}
use infiniband_exporter.Text.{Text, codes}

-- A descriptor made by `prometheus.NewDesc`: the subsystem and the name that `BuildFQName` joins
-- behind the namespace, and the names of the variable labels.
pub record Desc : Type 0 where
  pub subsystem : Text
  pub name : Text
  pub variable_labels : List Text

pub data ValueType : Type 0 where
  counter_value gauge_value : ValueType

-- A metric made by `prometheus.MustNewConstMetric`.
pub record Metric (F : Type 0) : Type 0 where
  pub desc : Desc
  pub value_type : ValueType
  pub value : F
  pub label_values : List Text

module _ {F : Type 0} where
  abbrev pub new_const_metric : Desc → ValueType → F → List Text → Metric F
  new_const_metric desc t value labels = record {
    desc = desc;
    value_type = t;
    value = value;
    label_values = labels;
  }

  -- `MustNewConstMetric` panics unless each label of the descriptor has a value.
  abbrev pub IsConsistent : Metric F → Type 0
  IsConsistent m = length m.label_values ≡ length m.desc.variable_labels

abbrev pub new_desc : String → String → List Text → Desc
new_desc subsystem name variable_labels = record {
  subsystem = codes subsystem;
  name = codes name;
  variable_labels = variable_labels;
}

-- The descriptors of collectors/collectors.go.
abbrev pub collector_desc : String → Desc
collector_desc name = new_desc "exporter" name (codes "collector" ∷ [])

-- The five of them.
abbrev pub exporter_descs : List Desc
exporter_descs =
    collector_desc "collector_duration_seconds"
    ∷ collector_desc "collect_errors_total"
    ∷ collector_desc "collect_timeouts_total"
    ∷ collector_desc "collect_retries_total"
    ∷ collector_desc "last_execution"
    ∷ []

-- The clock: the seconds that `Collect` took, and the time at its end.
pub record Clock (F : Type 0) : Type 0 where
  pub seconds : F
  pub now : F
