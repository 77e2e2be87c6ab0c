-- ===== src/Tests/Pools.antt =====
-- Examples of the pool: two goroutines with room for one.
use infiniband_exporter.Prelude.{ℕ, ◌+◌, ◌≤◌, refl, ◌⊎◌, List, [], ◌∷◌, arith, length, sum_of}
use mathlib.Core.List.{flatten, Permᴰ}
use infiniband_exporter.Pool.{Pool, start, Step, Steps, IsDone}
use infiniband_exporter.Pool.Laws.{running_bounded, trace-perm}
use infiniband_exporter.Pool.Progress.{steps_taken, pool_ends, pool_blocks}

abbrev jobs : List (List ℕ)
jobs = (1 ∷ []) ∷ (2 ∷ []) ∷ []

abbrev first_at_work : Pool ℕ
first_at_work = record { waiting = (2 ∷ []) ∷ []; running = (1 ∷ []) ∷ []; trace = [] }

abbrev second_at_work : Pool ℕ
second_at_work = record { waiting = []; running = (2 ∷ []) ∷ []; trace = 1 ∷ [] }

abbrev ended : Pool ℕ
ended = record { waiting = []; running = []; trace = 1 ∷ 2 ∷ [] }

abbrev to_second : Steps 1 (start jobs) second_at_work
to_second =
    Steps.next
      (Steps.next
        (Steps.next (Steps.next Steps.here (Step.spawn (omega arith)))
          (Step.act [] 1 [] [] refl refl refl))
        (Step.finish [] [] refl refl))
      (Step.spawn (omega arith))

abbrev to_end : Steps 1 (start jobs) ended
to_end =
    Steps.next (Steps.next to_second (Step.act [] 2 [] [] refl refl refl))
      (Step.finish [] [] refl refl)

running_bounded_example : length second_at_work.running ≤ 1
running_bounded_example = running_bounded 1 jobs to_second

trace-perm_example : Permᴰ ended.trace (flatten jobs)
trace-perm_example = trace-perm 1 jobs to_end (refl, refl)

pool_ends_example :
    (IsDone second_at_work ⊎ ((q : Pool ℕ) × Step 1 second_at_work q))
    × (steps_taken 1 to_second ≤ sum_of (λ (t : List ℕ). length t + 2) jobs)
    × ((q : Pool ℕ) × Steps 1 second_at_work q × IsDone q)
pool_ends_example = pool_ends 1 jobs (omega arith) to_second

pool_blocks_example : ¬ Step 0 (start jobs) first_at_work
pool_blocks_example = pool_blocks (1 ∷ []) ((2 ∷ []) ∷ [])
