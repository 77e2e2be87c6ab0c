-- ===== src/Metrics/PortCounters/Laws.antt =====
-- Each counter has one metric.
use infiniband_exporter.Prelude.{
  ℕ, ◌+◌, ◌≡◌, refl, ◌∙◌, List, [], ◌∷◌, All, some, if◌then◌else◌, Bool-cases, inl, inr, true,
  false, length, map,
}
use mathlib.Core.List.{flat_map, Mem}
use infiniband_exporter.Text.{Text, equal}
use infiniband_exporter.Text.Equal.{equal_refl}
use infiniband_exporter.Dict.{Dict, RangeOrder, get, keys, range}
use infiniband_exporter.Dict.Laws.{
  Distinct, is_distinct, is_distinct_sound, get-put, put-Distinct, equal_sym_false, range-values,
}
use infiniband_exporter.Float.{Float64}
use infiniband_exporter.Metrics.{Desc, Metric, counter_value, new_const_metric, IsConsistent}
use infiniband_exporter.Metrics.PortCounters.{
  PortCounterDef, port_counter_defs, build_descs, build_port_counter_descs, emit_defs,
  emit_port_counters,
}
use infiniband_exporter.Perfquery.Counters.{Counter, port_xmit_data, same, PerfQueryCounters}

abbrev pub counter_desc : Text → List Text → PortCounterDef → Desc
counter_desc subsystem labels def = record {
  subsystem = subsystem;
  name = def.name;
  variable_labels = labels;
}

abbrev pub names : List PortCounterDef → List Text
names [] = []
names (def ∷ defs) = def.name ∷ names defs

names-Distinct : Distinct (names port_counter_defs)
names-Distinct = is_distinct_sound (names port_counter_defs) evaluated
  where
    evaluated : is_distinct (names port_counter_defs) ≡ true
    evaluated = unfold is_distinct equal in refl

module _ (subsystem : Text) (labels : List Text) where
  get-build_descs_other :
      (k : Text) (defs : List PortCounterDef) (descs : Dict Desc)
      → All (λ j. equal k j ≡ false) (names defs)
      → get k (build_descs subsystem labels defs descs) ≡ get k descs
  unfolding build_descs
  get-build_descs_other k [] descs h = refl
  get-build_descs_other k (def ∷ defs) descs (hd, h) =
      get-build_descs_other k defs _ h
      ∙ rw (
        get-put def.name k (counter_desc subsystem labels def) descs,
        equal_sym_false k def.name hd,
      )

  -- The descriptor of each definition is found under its name.
  get-build_descs :
      (defs : List PortCounterDef) (descs : Dict Desc)
      → Distinct (names defs)
      → All
          (λ def.
            get def.name (build_descs subsystem labels defs descs)
            ≡ some (counter_desc subsystem labels def))
          defs
  unfolding build_descs
  get-build_descs [] descs h = tt
  get-build_descs (def ∷ defs) descs (hd, h) = (
    get-build_descs_other def.name defs _ hd
        ∙ rw (
          get-put def.name def.name (counter_desc subsystem labels def) descs,
          equal_refl def.name,
        ),
    get-build_descs defs _ h,
  )

module _ {F : Type 0} (fl : Float64 F) where
  -- The metric of a definition, if its counter has a number.
  abbrev pub counter_metric :
      Text → List Text → PerfQueryCounters F → List Text → PortCounterDef → List (Metric F)
  counter_metric subsystem labels c values def =
      if fl.is_nan (c.value def.counter)
      then []
      else new_const_metric (counter_desc subsystem labels def) counter_value (c.value def.counter)
          values
        ∷ []

  emit_defs-flat_map :
      (subsystem : Text) (labels : List Text) (defs : List PortCounterDef) (descs : Dict Desc)
      (c : PerfQueryCounters F) (values : List Text)
      → All (λ def. get def.name descs ≡ some (counter_desc subsystem labels def)) defs
      → emit_defs fl defs descs c values ≡ flat_map (counter_metric subsystem labels c values) defs
  unfolding emit_defs flat_map
  emit_defs-flat_map subsystem labels [] descs c values h = refl
  emit_defs-flat_map subsystem labels (def ∷ defs) descs c values (hd, h) =
      rw (hd, emit_defs-flat_map subsystem labels defs descs c values h)

-- How many definitions a counter has.
abbrev pub definitions : Counter → List PortCounterDef → ℕ
definitions c [] = 0
definitions c (def ∷ defs) = (if same c def.counter then 1 else 0) + definitions c defs

definitions-one : (c : Counter) → definitions c port_counter_defs ≡ 1
unfolding same infiniband_exporter.Perfquery.Counters.index
definitions-one port_xmit_data = refl
definitions-one _ = refl

-- The metrics sent for the counters of a port are those of the counters that are no NaN, each under
-- the one descriptor of its definition, in the order of the definitions; every counter of the struct
-- has exactly one definition, and no two definitions share a name.
pub emit_port_counters_lem :
    {F : Type 0} (fl : Float64 F) (subsystem : Text) (labels : List Text) (c : PerfQueryCounters F)
    (values : List Text)
    → (emit_port_counters fl (build_port_counter_descs subsystem labels) c values
        ≡ flat_map (counter_metric fl subsystem labels c values) port_counter_defs)
      × ((counter : Counter) → definitions counter port_counter_defs ≡ 1)
      × Distinct (names port_counter_defs)
unfolding emit_port_counters build_port_counter_descs
emit_port_counters_lem fl subsystem labels c values = (
  emit_defs-flat_map fl subsystem labels port_counter_defs _ c values
      (get-build_descs subsystem labels port_counter_defs [] names-Distinct),
  definitions-one,
  names-Distinct,
)

-- What a predicate says of every metric that a definition can have, it says of those sent.
flat_map-All :
    {F : Type 0} (fl : Float64 F) (P : Metric F → Type 0) (subsystem : Text) (labels : List Text)
    (c : PerfQueryCounters F) (values : List Text) (defs : List PortCounterDef)
    → All
        (λ def. P (
          new_const_metric
            (counter_desc subsystem labels def)
            counter_value
            (c.value def.counter)
            values))
        defs
    → All P (flat_map (counter_metric fl subsystem labels c values) defs)
unfolding flat_map
flat_map-All fl P subsystem labels c values [] h = tt
flat_map-All fl P subsystem labels c values (def ∷ defs) (hd, h) =
    elim (Bool-cases (fl.is_nan (c.value def.counter))) [
      | inl e ↦ rw e (flat_map-All fl P subsystem labels c values defs h)
      | inr e ↦ rw e (hd, flat_map-All fl P subsystem labels c values defs h)
    ]

build_descs-Distinct :
    (subsystem : Text) (labels : List Text) (defs : List PortCounterDef) (descs : Dict Desc)
    → Distinct (keys descs)
    → Distinct (keys (build_descs subsystem labels defs descs))
unfolding build_descs
build_descs-Distinct subsystem labels [] descs h = h
build_descs-Distinct subsystem labels (def ∷ defs) descs h =
    build_descs-Distinct subsystem labels defs _
      (put-Distinct def.name (counter_desc subsystem labels def) descs h)

pub build_port_counter_descs-Distinct :
    (subsystem : Text) (labels : List Text)
    → Distinct (keys (build_port_counter_descs subsystem labels))
unfolding build_port_counter_descs keys
build_port_counter_descs-Distinct subsystem labels =
    build_descs-Distinct subsystem labels port_counter_defs [] tt

module _ {F : Type 0} (fl : Float64 F) (ord : RangeOrder) (subsystem : Text)
    (labels : List Text) where
  -- The descriptors of the port counters, as `range` visits them.
  abbrev pub counter_descs : List Desc
  counter_descs = map (λ e. e.1) (range ord (build_port_counter_descs subsystem labels))

  All-counter_descs :
      (defs : List PortCounterDef)
      → All
          (λ def.
            get def.name (build_port_counter_descs subsystem labels)
            ≡ some (counter_desc subsystem labels def))
          defs
      → All (λ def. Mem (counter_desc subsystem labels def) counter_descs) defs
  All-counter_descs [] h = tt
  All-counter_descs (def ∷ defs) (hd, h) = (
    range-values ord _ _ _ (build_port_counter_descs-Distinct subsystem labels) hd,
    All-counter_descs defs h,
  )

  with_length :
      (c : PerfQueryCounters F) (values : List Text) (defs : List PortCounterDef)
      → length values ≡ length labels
      → All (λ def. Mem (counter_desc subsystem labels def) counter_descs) defs
      → All
          (λ def.
            (length values ≡ length labels) × Mem (counter_desc subsystem labels def) counter_descs)
          defs
  with_length c values [] h m = tt
  with_length c values (def ∷ defs) h (md, m) = ((h, md), with_length c values defs h m)

  -- The metrics of a port have a value for each label, where the labels have their values, and are
  -- under descriptors that `range` visits.
  pub emit_port_counters-IsVisited :
      (c : PerfQueryCounters F) (values : List Text)
      → length values ≡ length labels
      → All
          (λ m. IsConsistent m × Mem m.desc counter_descs)
          (emit_port_counters fl (build_port_counter_descs subsystem labels) c values)
  emit_port_counters-IsVisited c values h =
      rw ((emit_port_counters_lem fl subsystem labels c values).0) (
        flat_map-All fl (λ m. IsConsistent m × Mem m.desc counter_descs) subsystem labels c values
          port_counter_defs
          (with_length c values port_counter_defs h (
            All-counter_descs port_counter_defs (
              unfold build_port_counter_descs in
              get-build_descs subsystem labels port_counter_defs [] names-Distinct))))
