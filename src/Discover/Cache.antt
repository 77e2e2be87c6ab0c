-- ===== src/Discover/Cache.antt =====
-- `GetPorts`: the topology of this scrape or a cached one; and the collector's own metrics.
pub mod Laws
pub mod Concurrent
use infiniband_exporter.Prelude.{
  ℕ, ◌-◌, Bool, true, false, not, ◌&&◌, Option, none, some, List, [], ◌∷◌, ◌++◌, ltb, if◌then◌else◌,
}
use infiniband_exporter.Prelude.Int.{ℤ, pos_part}
use infiniband_exporter.Text.{Text, codes}
use infiniband_exporter.Dict.{RangeOrder}
use infiniband_exporter.Float.{Float64}
use infiniband_exporter.Device.{InfinibandDevice}
use infiniband_exporter.Exec.{
  ExecError, Outcome, Run, deadline_exceeded, exit_error, with_stderr, command_line,
}
use infiniband_exporter.Metrics.{
  Metric, Clock, collector_desc, counter_value, gauge_value, new_const_metric,
}
use infiniband_exporter.Collect.Events.{add_u64}
use infiniband_exporter.Collect.Closing.{last_execution}
use infiniband_exporter.Discover.Parse.{
  ParseError, Parsed, ok, error, panic, Topology, ibnetdiscover_parse,
}

-- The two flags of the command line and the map of the node names.
unfoldable pub ibnetdiscover_args : Bool → Text → Text → Text × List Text
ibnetdiscover_args use_sudo path [] = command_line use_sudo path (codes "--ports" ∷ [])
ibnetdiscover_args use_sudo path (c ∷ node_name_map) =
    command_line use_sudo path
      (codes "--ports" ∷ (codes "--node-name-map" ∷ (c ∷ node_name_map) ∷ []))

unfoldable pub ibnetdiscover : Run → Outcome
ibnetdiscover = with_stderr

pub data DiscoverError : Type 0 where
  exec_failed : ExecError → DiscoverError
  parse_failed : ParseError → DiscoverError

-- What `collect` and `GetPorts` return: the two lists or an error; or they panic.
pub data Ports (F : Type 0) : Type 0 where
  found : Topology F → Ports F
  failed : DiscoverError → Ports F
  crashed : Ports F

-- `ibnetdiscoverCacheT`: the pointers and the time, which is zero or a reading in nanoseconds.
pub record Cache (F : Type 0) : Type 0 where
  pub switches : Option (List (InfinibandDevice F))
  pub hcas : Option (List (InfinibandDevice F))
  pub refresh : Option ℕ

-- What lives as long as the process.
pub record Shared (F : Type 0) : Type 0 where
  pub cache : Cache F
  pub errors_total : ℕ
  pub timeouts_total : ℕ

abbrev pub initial_shared : {F : Type 0} → Shared F
initial_shared = record {
  cache = record { switches = none; hcas = none; refresh = none };
  errors_total = 0;
  timeouts_total = 0;
}

-- The collector of one scrape.
pub record IbNetDiscover (F : Type 0) : Type 0 where
  pub timeout_metric : F
  pub error_metric : F
  pub duration : F
  pub collector : Text

abbrev pub new_ib_net_discover : {F : Type 0} → Float64 F → Bool → IbNetDiscover F
new_ib_net_discover fl runonce = record {
  timeout_metric = fl.decimal 0 0;
  error_metric = fl.decimal 0 0;
  duration = fl.decimal 0 0;
  collector = codes (if runonce then "ibnetdiscover-runonce" else "ibnetdiscover");
}

-- What one call of `GetPorts` meets: the monotonic clock at the test of the age and at the store,
-- the seconds that `collect` takes, and the end of `ibnetdiscover` if it is run.
pub record Scrape (F : Type 0) : Type 0 where
  pub checked : ℕ
  pub stored : ℕ
  pub seconds : F
  pub outcome : Outcome

module _ {F : Type 0} (fl : Float64 F) (ord : RangeOrder) (port_state : Bool) where
  abbrev pub parsed_ports : Parsed (Topology F) → Ports F
  parsed_ports (ok t) = found t
  parsed_ports (error e) = failed (parse_failed e)
  parsed_ports panic = crashed

  -- `collect` on what `IbnetdiscoverExec` returns.
  unfoldable pub collect : Outcome → Ports F
  unfolding ibnetdiscover_parse
  collect (out, some e) = failed (exec_failed e)
  collect (out, none) = parsed_ports (ibnetdiscover_parse fl ord port_state out)

  -- The totals and the collector's fields behind `collect`; a panic leaves no collector to be read.
  abbrev pub count : Ports F → Shared F × IbNetDiscover F → Shared F × IbNetDiscover F
  count (found t) (shared, ib) = (shared, ib)
  count (failed (exec_failed deadline_exceeded)) (shared, ib) = (
    record shared { timeouts_total = add_u64 shared.timeouts_total 1 },
    record ib { timeout_metric = fl.decimal 1 0 },
  )
  count (failed (exec_failed (exit_error e))) (shared, ib) = (
    record shared { errors_total = add_u64 shared.errors_total 1 },
    record ib { error_metric = fl.decimal 1 0 },
  )
  count (failed (parse_failed e)) (shared, ib) = (
    record shared { errors_total = add_u64 shared.errors_total 1 },
    record ib { error_metric = fl.decimal 1 0 },
  )
  count crashed (shared, ib) = (shared, ib)

  -- `if err == nil && *ibnetdiscoverCacheTTL > 0`
  abbrev pub store : ℤ → ℕ → Ports F → Shared F → Shared F
  store ttl now (found t) shared =
      if ltb 0 (pos_part ttl)
      then record shared {
        cache = record { switches = some t.switches; hcas = some t.hcas; refresh = some now };
      }
      else shared
  store ttl now (failed e) shared = shared
  store ttl now crashed shared = shared

  -- `!refresh.IsZero() && time.Since(refresh) < ttl`, under `ttl > 0`.
  unfoldable pub is_fresh : ℤ → ℕ → Option ℕ → Bool
  is_fresh ttl now none = false
  is_fresh ttl now (some refresh) = ltb (now - refresh) (pos_part ttl)

  -- The two pointers, as the callers read them; a nil pointer crashes them.
  abbrev pub both_lists :
      Option (List (InfinibandDevice F)) → Option (List (InfinibandDevice F)) → Ports F
  both_lists none hcas = crashed
  both_lists (some switches) none = crashed
  both_lists (some switches) (some hcas) = found (record { switches = switches; hcas = hcas })

  abbrev pub cached_ports : Cache F → Ports F
  cached_ports cache = both_lists cache.switches cache.hcas

  -- The branch that runs `ibnetdiscover`.
  unfoldable pub refreshed :
      ℤ → Scrape F → Shared F → IbNetDiscover F → Ports F × (Shared F × IbNetDiscover F)
  unfolding collect
  refreshed ttl scrape shared ib =
      let ports = collect scrape.outcome in
      let (counted, ib') = count ports (shared, record ib { duration = scrape.seconds }) in
      (ports, (store ttl scrape.stored ports counted, ib'))

  unfoldable pub get_ports :
      ℤ → Scrape F → Shared F → IbNetDiscover F → Ports F × (Shared F × IbNetDiscover F)
  unfolding is_fresh refreshed
  get_ports ttl scrape shared ib =
      if ltb 0 (pos_part ttl) && is_fresh ttl scrape.checked shared.cache.refresh
      then (cached_ports shared.cache, (shared, ib))
      else refreshed ttl scrape shared ib

  -- Scrapes one after the other, each with its own collector.
  unfoldable pub serve : ℤ → Bool → Shared F → List (Scrape F) → Shared F
  unfolding get_ports
  serve ttl runonce shared [] = shared
  serve ttl runonce shared (scrape ∷ scrapes) =
      serve ttl runonce (get_ports ttl scrape shared (new_ib_net_discover fl runonce)).1.0 scrapes

-- `Collect`
unfoldable pub collector_metrics :
    {F : Type 0} → Float64 F → Shared F → IbNetDiscover F → Clock F → List (Metric F)
unfolding last_execution
collector_metrics fl shared ib clock =
    new_const_metric (collector_desc "collect_errors_total") counter_value
      (fl.decimal shared.errors_total 0) (ib.collector ∷ [])
    ∷ new_const_metric (collector_desc "collect_timeouts_total") counter_value
        (fl.decimal shared.timeouts_total 0) (ib.collector ∷ [])
    ∷ new_const_metric (collector_desc "collector_duration_seconds") gauge_value ib.duration
        (ib.collector ∷ [])
    ∷ last_execution fl ib.collector clock
