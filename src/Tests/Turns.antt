-- ===== src/Tests/Turns.antt =====
-- An example of a run of the ibswinfo collector against the loop with no goroutines.
use infiniband_exporter.Prelude.{[], ◌∷◌}
use infiniband_exporter.Prelude.Int.{pos}
use infiniband_exporter.Ibswinfo.Worker.Schedule.{IsSame}
use infiniband_exporter.Ibswinfo.Worker.InTurn.{collect_in_turn, collect_swinfos_lem}
use infiniband_exporter.Tests.{numbers, device}
use infiniband_exporter.Tests.Swinfos.{fabric, before, returned}

collect_swinfos_lem_example :
    IsSame returned.0 (collect_in_turn numbers (pos 100) fabric (device ∷ []) before)
collect_swinfos_lem_example =
    collect_swinfos_lem numbers (pos 100) fabric 4 (device ∷ []) before returned.0 (tt, tt)
      returned.1
