-- ===== src/Exporter/Setup.antt =====
-- `setupGathers`: the collectors that a scrape registers.
pub mod Names
pub mod Laws
use infiniband_exporter.Prelude.{
  ℕ, ◌≡◌, map, Bool, not, ◌&&◌, Option, none, some, List, [], ◌∷◌, ◌++◌,
}
use infiniband_exporter.Text.{Text, codes}
use infiniband_exporter.Metrics.{Desc}
use infiniband_exporter.Switch
use infiniband_exporter.Hca
use infiniband_exporter.Ibswinfo.Collector
use infiniband_exporter.Prelude.{if◌then◌else◌}
use infiniband_exporter.Prelude.Int.{ℤ}
use infiniband_exporter.Dict.{RangeOrder}
use infiniband_exporter.Float.{Float64}
use infiniband_exporter.Discover.Parse.{Topology}
use infiniband_exporter.Discover.Cache.{
  Ports, found, failed, crashed, Shared, IbNetDiscover, Scrape, get_ports, new_ib_net_discover,
}
use infiniband_exporter.Switch.{SwitchCollector, new_switch_collector}
use infiniband_exporter.Hca.{HcaCollector, new_hca_collector}
use infiniband_exporter.Ibswinfo.Collector.{IbswinfoCollector, new_ibswinfo_collector}

-- The flags of the command line that choose the collectors.
pub record SetupFlags : Type 0 where
  pub disable_exporter_metrics : Bool
  pub collect_switch : Bool
  pub collect_ibswinfo : Bool
  pub collect_hca : Bool

-- An argument of `MustRegister`. The collector of `ibnetdiscover` is registered as a pointer: what
-- it points to is in the gatherer.
pub data Registered (F : Type 0) : Type 0 where
  build_info : Registered F
  go_build_info : Registered F
  go_collector : Registered F
  process_collector : Registered F
  ib_net_discover : Registered F
  switch_collector : SwitchCollector F → Registered F
  ibswinfo_collector : IbswinfoCollector F → Registered F
  hca_collector : HcaCollector F → Registered F

-- The registry that `setupGathers` returns, in the order of the calls of `MustRegister`.
pub record Gatherer (F : Type 0) : Type 0 where
  pub registered : List (Registered F)
  pub discover : IbNetDiscover F

module _ {F : Type 0} where
  -- `if !runonce && !*disableExporterMetrics`
  unfoldable pub exporter_metrics : SetupFlags → Bool → List (Registered F)
  exporter_metrics flags runonce =
      if not runonce && not flags.disable_exporter_metrics
      then go_collector ∷ process_collector ∷ []
      else []

  -- What is registered before `GetPorts` is called.
  unfoldable pub own_collectors : SetupFlags → Bool → List (Registered F)
  unfolding exporter_metrics
  own_collectors flags runonce =
      build_info ∷ go_build_info ∷ (exporter_metrics flags runonce ++ ib_net_discover ∷ [])

  -- The branch without an error. The switch and the ibswinfo collector are given the same devices.
  unfoldable pub device_collectors : SetupFlags → Bool → Topology F → List (Registered F)
  unfolding new_switch_collector new_ibswinfo_collector new_hca_collector
  device_collectors flags runonce t =
      (if flags.collect_switch
        then switch_collector (new_switch_collector t.switches runonce) ∷ []
        else [])
      ++ ((if flags.collect_ibswinfo
            then ibswinfo_collector (new_ibswinfo_collector t.switches runonce) ∷ []
            else [])
          ++ (if flags.collect_hca
              then hca_collector (new_hca_collector t.hcas runonce) ∷ []
              else []))

  -- What `GetPorts` answered decides; a panic of its parser ends `setupGathers`.
  unfoldable pub gatherer_of : SetupFlags → Bool → Ports F → IbNetDiscover F → Option (Gatherer F)
  unfolding own_collectors device_collectors
  gatherer_of flags runonce (found t) ib = some (record {
    registered = own_collectors flags runonce ++ device_collectors flags runonce t;
    discover = ib;
  })
  gatherer_of flags runonce (failed e) ib =
      some (record { registered = own_collectors flags runonce; discover = ib })
  gatherer_of flags runonce crashed ib = none

module _ {F : Type 0} (fl : Float64 F) (ord : RangeOrder) (port_state : Bool) where
  unfoldable pub setup_gathers :
      SetupFlags → ℤ → Bool → Scrape F → Shared F → Option (Gatherer F) × Shared F
  unfolding gatherer_of get_ports
  setup_gathers flags ttl runonce scrape shared =
      let (ports, (shared', ib)) =
        get_ports fl ord port_state ttl scrape shared (new_ib_net_discover fl runonce) in
      (gatherer_of flags runonce ports ib, shared')

-- `prometheus.BuildFQName`, which joins the parts of a name that are not empty.
pub record Naming : Type 0 where
  pub build_fq_name : Text → Text → Text → Text
  pub build_fq_name-joined :
      (c d e : ℕ) (space subsystem name : Text)
      → build_fq_name (c ∷ space) (d ∷ subsystem) (e ∷ name)
        ≡ (c ∷ space) ++ b'_' ∷ ((d ∷ subsystem) ++ b'_' ∷ (e ∷ name))

abbrev pub namespace : Text
namespace = codes "infiniband"

abbrev pub full_name : Naming → Desc → Text
full_name naming d = naming.build_fq_name namespace d.subsystem d.name

module _ {F : Type 0} (naming : Naming) (visited visited' : RangeOrder) where
  -- The names that the exporter's own collectors describe to the registry. The switch and the HCA
  -- collector visit their counters in some order each.
  unfoldable pub described_names : Registered F → List Text
  unfolding Switch.describe Hca.describe Collector.describe
  described_names build_info = codes "infiniband_exporter_build_info" ∷ []
  described_names go_build_info = []
  described_names go_collector = []
  described_names process_collector = []
  described_names ib_net_discover = []
  described_names (switch_collector s) = map (full_name naming) (Switch.describe s visited)
  described_names (ibswinfo_collector s) = map (full_name naming) (Collector.describe s)
  described_names (hca_collector h) = map (full_name naming) (Hca.describe h visited')

  unfoldable pub all_described : List (Registered F) → List Text
  unfolding described_names
  all_described [] = []
  all_described (r ∷ rs) = described_names r ++ all_described rs
