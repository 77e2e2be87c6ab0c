-- ===== src/Tests/Exporting.antt =====
-- Examples of the scrape set-up and of the runs of the exporter, on files that are a map.
use infiniband_exporter.Prelude.{
  ℕ, suc, refl, ap, true, false, Option, none, some, List, [], ◌∷◌, ◌++◌,
}
use infiniband_exporter.Prelude.Int.{pos}
use infiniband_exporter.Text.{Text, codes, equal}
use infiniband_exporter.Dict.Laws.{Distinct}
use infiniband_exporter.Discover.Cache.{
  collect, parsed_ports, count, is_fresh, get_ports, refreshed, initial_shared, new_ib_net_discover,
}
use infiniband_exporter.Exporter.Setup.{
  Gatherer, SetupFlags, Naming, own_collectors, device_collectors, gatherer_of, setup_gathers,
  all_described,
}
use infiniband_exporter.Exporter.Setup.Laws.{setup_gathers-Distinct}
use infiniband_exporter.Exporter.Textfile.Laws.{IsWritten, write_metrics_lem}
use infiniband_exporter.Exporter.Web.{Request, Promhttp, handler_of, serve_request, serve_requests}
use infiniband_exporter.Exporter.Web.Laws.{IsAnswered, serve_request-IsAnswered}
use infiniband_exporter.Exporter.Run.{World, run}
use infiniband_exporter.Exporter.Run.Laws.{IsRun, run_once_lem}
use infiniband_exporter.Tests.Disks.{disk, disk-IsLawful, empty_disk}
use infiniband_exporter.Tests.{numbers, in_order}
use infiniband_exporter.Tests.Scrapes.{first, second}
use infiniband_exporter.Tests.Topologies.{found as topology, output-found}
use infiniband_exporter.Exporter.Textfile.{write_metrics}

-- The flags, and what a run meets: the lock is free and `ibnetdiscover` answers.
abbrev flags : SetupFlags
flags = record {
  disable_exporter_metrics = false;
  collect_switch = true;
  collect_ibswinfo = false;
  collect_hca = true;
}

-- What is answered is a list of the metrics' collectors; nothing is kept but the number of pages.
abbrev http : Promhttp (Option ℕ)
http = record {
  State = ℕ;
  Page = Gatherer (Option ℕ);
  initial = 0;
  serve_http = λ g shared n. (g, suc n);
}

abbrev world : World (Option ℕ)
world = record { scrape = first; requests = []; served = none }

abbrev output_path : Text
output_path = codes "ib.prom"

abbrev lock_path : Text
lock_path = codes "/tmp/infiniband_exporter.lock"

run_once_lem_example :
    let result =
      run disk http numbers in_order true flags
        (pos 0)
        world
        (record { run_once = true; output = output_path; lock_file = lock_path })
        empty_disk
        initial_shared in
    IsRun disk disk-IsLawful http numbers in_order true flags
      (pos 0)
      world
      lock_path
      output_path
      empty_disk
      initial_shared
      result.0
      result.1.0
run_once_lem_example =
    run_once_lem disk disk-IsLawful http numbers in_order true flags (pos 0) world empty_disk
      initial_shared lock_path output_path

write_metrics_lem_example :
    let gatherer =
      (setup_gathers numbers in_order true flags (pos 0) true first initial_shared).0 in
    let result =
      write_metrics disk output_path numbers in_order true flags
        (pos 0)
        first
        empty_disk
        initial_shared in
    IsWritten disk disk-IsLawful output_path gatherer empty_disk result.0 result.1.0
write_metrics_lem_example =
    write_metrics_lem disk disk-IsLawful output_path numbers in_order true flags (pos 0) first
      empty_disk initial_shared

abbrev naming : Naming
naming = record {
  build_fq_name = λ space subsystem name. space ++ b'_' ∷ (subsystem ++ b'_' ∷ name);
  build_fq_name-joined = λ c d e space subsystem name. refl;
}

abbrev gatherer : Gatherer (Option ℕ)
gatherer = record {
  registered = own_collectors flags false ++ device_collectors flags false topology;
  discover = record (new_ib_net_discover numbers false) { duration = some 20 };
}

setup_gathers-Distinct_example :
    Distinct (all_described naming in_order in_order gatherer.registered)
setup_gathers-Distinct_example =
    setup_gathers-Distinct naming in_order in_order numbers in_order true flags (pos 100) false
      first initial_shared gatherer
      (unfold setup_gathers get_ports refreshed is_fresh collect gatherer_of in
        ap
          (λ p.
            let ports = parsed_ports numbers in_order true p in
            let ib = record (new_ib_net_discover numbers false) { duration = some 20 } in
            gatherer_of flags false ports
              (count numbers in_order true ports (initial_shared, ib)).1)
          output-found)

abbrev requests : List (Request (Option ℕ))
requests =
    record { path = codes "/metrics"; scrape = first }
    ∷ record { path = codes "/healthz"; scrape = first }
    ∷ []

abbrev request : Request (Option ℕ)
request = record { path = codes "/metrics"; scrape = second }

serve_request-IsAnswered_example :
    IsAnswered http numbers in_order true flags
      (pos 100)
      requests
      request
      (serve_request http numbers in_order true flags (pos 100) request (
        serve_requests http numbers in_order true flags
          (pos 100)
          requests
          (initial_shared, http.initial))).0
serve_request-IsAnswered_example =
    serve_request-IsAnswered http numbers in_order true flags (pos 100) requests request
      (unfold handler_of equal in refl)
