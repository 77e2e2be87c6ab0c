-- ===== src/Tests/Scrapes.antt =====
-- Examples of `GetPorts`: two scrapes within the time to live, and one that fails.
use infiniband_exporter.Prelude.{ℕ, ◌≡◌, refl, ap, true, false, Option, none, some, [], ◌∷◌, arith}
use mathlib.Core.List.{Memᴰ}
use infiniband_exporter.Prelude.Int.{pos}
use infiniband_exporter.Exec.{deadline_exceeded}
use infiniband_exporter.Discover.Cache.{
  Scrape, found, exec_failed, parsed_ports, collect, get_ports, refreshed, serve, initial_shared,
  new_ib_net_discover,
}
use infiniband_exporter.Discover.Cache.Laws.{
  IsServed, IsCounted, get_ports_lem, get_ports-refreshed, get_ports-failed,
}
use infiniband_exporter.Tests.{numbers, in_order}
use infiniband_exporter.Tests.Topologies.{output, found as topology, output-found}

abbrev pub first : Scrape (Option ℕ)
first = record { checked = 10; stored = 30; seconds = some 20; outcome = (output, none) }

abbrev pub second : Scrape (Option ℕ)
second = record {
  checked = 90;
  stored = 95;
  seconds = some 5;
  outcome = ([], some deadline_exceeded);
}

get_ports_lem_example :
    IsServed numbers in_order true
      (λ c. Memᴰ c (first ∷ []))
      (pos 100)
      second
      (serve numbers in_order true (pos 100) false initial_shared (first ∷ []))
      (new_ib_net_discover numbers false)
get_ports_lem_example =
    get_ports_lem numbers in_order true (pos 100) false (first ∷ []) second
      (new_ib_net_discover numbers false)

get_ports-refreshed_example :
    get_ports numbers in_order true
      (pos 100)
      second
      (refreshed numbers in_order true
        (pos 100)
        first
        initial_shared
        (new_ib_net_discover numbers false)).1.0
      (new_ib_net_discover numbers false)
    ≡ (
      found topology,
      (
        (refreshed numbers in_order true
            (pos 100)
            first
            initial_shared
            (new_ib_net_discover numbers false)).1.0,
        new_ib_net_discover numbers false,
      ),
    )
get_ports-refreshed_example =
    get_ports-refreshed numbers in_order true (pos 100) first second initial_shared
      (new_ib_net_discover numbers false) (new_ib_net_discover numbers false) topology (omega arith)
      (unfold collect in ap (parsed_ports numbers in_order true) output-found) (omega arith)

get_ports-failed_example :
    ((get_ports numbers in_order true
        (pos 100)
        second
        initial_shared
        (new_ib_net_discover numbers false)).1.0.cache
      ≡ initial_shared.cache)
    × IsCounted numbers in_order true
        (exec_failed deadline_exceeded)
        (initial_shared, new_ib_net_discover numbers false)
        (get_ports numbers in_order true
          (pos 100)
          second
          initial_shared
          (new_ib_net_discover numbers false)).1
get_ports-failed_example =
    get_ports-failed numbers in_order true (pos 100) second initial_shared
      (new_ib_net_discover numbers false) (exec_failed deadline_exceeded) (unfold get_ports in refl)
