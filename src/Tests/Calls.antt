-- ===== src/Tests/Calls.antt =====
-- Two calls of `GetPorts` at the same time: the second fails before the first has looked up the cache.
use infiniband_exporter.Prelude.{refl, true, false, Option, some, List, [], ◌∷◌, All}
use infiniband_exporter.Prelude.{ℕ}
use infiniband_exporter.Prelude.Int.{pos}
use infiniband_exporter.Exec.{deadline_exceeded}
use infiniband_exporter.Discover.Cache.{
  Shared, failed, exec_failed, is_fresh, collect, initial_shared, new_ib_net_discover,
}
use infiniband_exporter.Discover.Cache.Concurrent.{
  Call, Moves, stay, more, move, answered, missed, collected, look_up, advance, new_call, new_calls,
}
use infiniband_exporter.Discover.Cache.Concurrent.Laws.{IsTrue, concurrent_lem}
use infiniband_exporter.Tests.{numbers, in_order}
use infiniband_exporter.Tests.Scrapes.{first, second}

abbrev calls : List (Call (Option ℕ))
calls = new_calls numbers in_order true (pos 100) false (first ∷ second ∷ [])

abbrev start : Call (Option ℕ)
start = new_call numbers in_order true (pos 100) false first

abbrev failing : Call (Option ℕ)
failing = new_call numbers in_order true (pos 100) false second

abbrev failing_missed : Call (Option ℕ)
failing_missed = record failing { stage = missed }

abbrev failing_collected : Call (Option ℕ)
failing_collected = record failing {
  discover = record (new_ib_net_discover numbers false) {
    duration = some 5;
    timeout_metric = some 1;
  };
  stage = collected (failed (exec_failed deadline_exceeded));
}

abbrev failing_answered : Call (Option ℕ)
failing_answered = record failing_collected {
  stage = answered (failed (exec_failed deadline_exceeded));
}

abbrev one_timeout : Shared (Option ℕ)
one_timeout = record initial_shared { timeouts_total = 1 }

abbrev start_missed : Call (Option ℕ)
start_missed = record start { stage = missed }

moves :
    Moves numbers in_order true
      (pos 100)
      (initial_shared, calls)
      (one_timeout, start_missed ∷ failing_answered ∷ [])
unfolding advance look_up is_fresh collect
moves =
    more
      (more
        (more (more stay (move (start ∷ []) failing [] refl))
          (move [] start (failing_missed ∷ []) refl))
        (move (start_missed ∷ []) failing_missed [] refl))
      (move (start_missed ∷ []) failing_collected [] refl)

concurrent_lem_example :
    All
      (λ (call : Call (Option ℕ)).
        IsTrue numbers in_order true (pos 100) (first ∷ second ∷ []) call.scrape call.stage)
      (start_missed ∷ failing_answered ∷ [])
concurrent_lem_example =
    concurrent_lem numbers in_order true (pos 100) false (first ∷ second ∷ []) moves
