-- ===== src/Collect/Runs/Written.antt =====
-- The steps of one goroutine: what it writes, and under which key.
use infiniband_exporter.Prelude.{
  ◌≡◌, refl, ◌∙◌, ◌⊎◌, inl, inr, Bool, true, false, none, some, List, [], ◌∷◌, All, All-append,
}
use mathlib.Core.List.{flatten}
use infiniband_exporter.Text.{Text, equal}
use infiniband_exporter.Dict.Laws.{Distinct}
use infiniband_exporter.Float.{Float64}
use infiniband_exporter.Device.{InfinibandDevice}
use infiniband_exporter.Exec.{deadline_exceeded, exit_error}
use infiniband_exporter.Perfquery.Counters.{PerfQueryCounters}
use infiniband_exporter.Perfquery.Retry.{Retried}
use infiniband_exporter.Collect.Events.{DeviceMetrics, Event, set_metrics}
use infiniband_exporter.Collect.Worker.{
  Fabric, CollectFlags, query, rcv_err_args, rcv_err_result, rcv_err_rounds, collect_details,
  collect_result, collect_device, parsed, base_part, rcv_err_part, tasks,
}
use infiniband_exporter.Collect.Runs.Schedule.{written, written-append}

abbrev pub guids : {F : Type 0} → List (InfinibandDevice F) → List Text
guids [] = []
guids (d ∷ ds) = d.guid ∷ guids ds

module _ {F : Type 0} (fl : Float64 F) where
  abbrev pub IsZero : DeviceMetrics F → Type 0
  IsZero m = (m.error ≡ fl.decimal 0 0) × (m.timeout ≡ fl.decimal 0 0)

  -- Metrics are stored without an error and without a timeout.
  abbrev pub IsClean : Event F → Type 0
  IsClean (set_metrics guid m) = IsZero m
  IsClean _ = Unit

module _ {F : Type 0} (fl : Float64 F) (flags : CollectFlags) (fabric : Fabric F) where
  module _ (device : InfinibandDevice F) where
    -- The steps of the loop over the ports write no metrics.
    written-rcv_err_result :
        (metric : DeviceMetrics F) (r : Retried)
        → written (rcv_err_result fl flags fabric device metric r).0 ≡ []
    unfolding rcv_err_result
    written-rcv_err_result metric (out, retries, none) = refl
    written-rcv_err_result metric (out, retries, some deadline_exceeded) = refl
    written-rcv_err_result metric (out, retries, some (exit_error e)) = refl

    written-rcv_err_rounds :
        (cs : List (PerfQueryCounters F)) (metric : DeviceMetrics F)
        → written (rcv_err_rounds fl flags fabric device cs metric).0 ≡ []
    unfolding rcv_err_rounds
    written-rcv_err_rounds [] metric = refl
    written-rcv_err_rounds (c ∷ cs) metric =
        rw (written-append, written-rcv_err_result, written-rcv_err_rounds cs)

    -- The loop over the ports leaves the error and the timeout of the device as they are.
    kept-rcv_err_result :
        (metric : DeviceMetrics F) (r : Retried)
        → ((rcv_err_result fl flags fabric device metric r).1.error ≡ metric.error)
          × ((rcv_err_result fl flags fabric device metric r).1.timeout ≡ metric.timeout)
    unfolding rcv_err_result
    kept-rcv_err_result metric (out, retries, none) = (refl, refl)
    kept-rcv_err_result metric (out, retries, some deadline_exceeded) = (refl, refl)
    kept-rcv_err_result metric (out, retries, some (exit_error e)) = (refl, refl)

    kept-rcv_err_rounds :
        (cs : List (PerfQueryCounters F)) (metric : DeviceMetrics F)
        → ((rcv_err_rounds fl flags fabric device cs metric).1.error ≡ metric.error)
          × ((rcv_err_rounds fl flags fabric device cs metric).1.timeout ≡ metric.timeout)
    unfolding rcv_err_rounds
    kept-rcv_err_rounds [] metric = (refl, refl)
    kept-rcv_err_rounds (c ∷ cs) metric =
        let timed = record metric {
          rcv_err_duration = fabric.elapsed device.guid c.port_select rcv_err_args;
        } in
        let r = query fl flags fabric device.guid c.port_select rcv_err_args in
        let (e, t) = kept-rcv_err_result timed r in
        let (e', t') = kept-rcv_err_rounds cs (rcv_err_result fl flags fabric device timed r).1 in
        (e' ∙ e, t' ∙ t)

    IsClean-rcv_err_result :
        (metric : DeviceMetrics F) (r : Retried)
        → All (IsClean fl) (rcv_err_result fl flags fabric device metric r).0
    unfolding rcv_err_result
    IsClean-rcv_err_result metric (out, retries, none) = (tt, (tt, (tt, tt)))
    IsClean-rcv_err_result metric (out, retries, some deadline_exceeded) = (tt, (tt, tt))
    IsClean-rcv_err_result metric (out, retries, some (exit_error e)) = (tt, (tt, tt))

    IsClean-rcv_err_rounds :
        (cs : List (PerfQueryCounters F)) (metric : DeviceMetrics F)
        → All (IsClean fl) (rcv_err_rounds fl flags fabric device cs metric).0
    unfolding rcv_err_rounds
    IsClean-rcv_err_rounds [] metric = tt
    IsClean-rcv_err_rounds (c ∷ cs) metric =
        All-append (IsClean fl) _ _ (IsClean-rcv_err_result _ _) (IsClean-rcv_err_rounds cs _)

    rcv_err_part_lem :
        (on : Bool) (cs : List (PerfQueryCounters F)) (metric : DeviceMetrics F)
        → let part = rcv_err_part fl flags fabric device on cs metric in
          (written part.0 ≡ [])
          × All (IsClean fl) part.0
          × (part.1.error ≡ metric.error)
          × (part.1.timeout ≡ metric.timeout)
    rcv_err_part_lem true cs metric =
        let (e, t) = kept-rcv_err_rounds cs metric in
        (written-rcv_err_rounds cs metric, IsClean-rcv_err_rounds cs metric, e, t)
    rcv_err_part_lem false cs metric = (refl, tt, refl, refl)

    base_part_lem :
        (on : Bool) (cs : List (PerfQueryCounters F))
        → (written (base_part fl flags fabric device on cs) ≡ [])
          × All (IsClean fl) (base_part fl flags fabric device on cs)
    base_part_lem true cs = (refl, (tt, tt))
    base_part_lem false cs = (refl, tt)

    details_lem :
        (cs : List (PerfQueryCounters F)) (metric : DeviceMetrics F)
        → IsZero fl metric
        → (written (collect_details fl flags fabric device cs metric) ≡ device.guid ∷ [])
          × All (IsClean fl) (collect_details fl flags fabric device cs metric)
    unfolding collect_details
    details_lem cs metric (e, t) =
        let (no_base, base_clean) = base_part_lem flags.base cs in
        let (no_part, part_clean, e', t') = rcv_err_part_lem flags.rcv_err cs metric in
        (
          rw (written-append, written-append, no_base, no_part),
          All-append (IsClean fl) _ _ base_clean
              (All-append (IsClean fl) _ _ part_clean ((e' ∙ e, t' ∙ t), tt)),
        )

    result_lem :
        (metric : DeviceMetrics F) (r : Retried)
        → IsZero fl metric
        → ((written (collect_result fl flags fabric device metric r) ≡ [])
            ⊎ (written (collect_result fl flags fabric device metric r) ≡ device.guid ∷ []))
          × All (IsClean fl) (collect_result fl flags fabric device metric r)
    unfolding collect_result
    result_lem metric (out, retries, some deadline_exceeded) z = (inl refl, (tt, (tt, tt)))
    result_lem metric (out, retries, some (exit_error e)) z = (inl refl, (tt, (tt, tt)))
    result_lem metric (out, retries, none) z =
        let (w, clean) = details_lem (parsed fl flags fabric device out).0 metric z in
        (inr w, (tt, (tt, clean)))

    -- A goroutine writes the metrics of its own device or none.
    written-collect_device :
        (written (collect_device fl flags fabric device) ≡ [])
        ⊎ (written (collect_device fl flags fabric device) ≡ device.guid ∷ [])
    unfolding collect_device
    written-collect_device = (result_lem _ _ (refl, refl)).0

    IsClean-collect_device : All (IsClean fl) (collect_device fl flags fabric device)
    unfolding collect_device
    IsClean-collect_device = (result_lem _ _ (refl, refl)).1

  pub IsClean-tasks :
      (ds : List (InfinibandDevice F)) → All (IsClean fl) (flatten (tasks fl flags fabric ds))
  unfolding tasks flatten
  IsClean-tasks [] = tt
  IsClean-tasks (d ∷ ds) = All-append (IsClean fl) _ _ (IsClean-collect_device d) (IsClean-tasks ds)

  All-written {κ} :
      (P : Text → Type κ) (ds : List (InfinibandDevice F))
      → All P (guids ds)
      → All P (written (flatten (tasks fl flags fabric ds)))
  unfolding tasks flatten
  All-written P [] h = tt
  All-written P (d ∷ ds) (hd, h) = elim (written-collect_device d) [
    | inl e ↦ rw (written-append, e) (All-written P ds h)
    | inr e ↦ rw (written-append, e) (hd, All-written P ds h)
  ]

  -- No two goroutines write the same metrics.
  pub tasks-Distinct :
      (ds : List (InfinibandDevice F))
      → Distinct (guids ds)
      → Distinct (written (flatten (tasks fl flags fabric ds)))
  unfolding tasks flatten
  tasks-Distinct [] h = tt
  tasks-Distinct (d ∷ ds) (hd, h) = elim (written-collect_device d) [
    | inl e ↦ rw (written-append, e) (tasks-Distinct ds h)
    | inr e ↦
        rw (written-append, e)
          (All-written (λ j. equal d.guid j ≡ false) ds hd, tasks-Distinct ds h)
  ]
