-- ===== src/Pool.antt =====
-- The worker pool of the collectors: `limit := make(chan int, n)` and a wait group around one
-- goroutine for each device. The main loop starts a goroutine when the channel has room, the running
-- ones take their steps in any order, and each frees its place when it has ended.
-- A task is the list of its visible steps: its additions to the shared counters, and its writes
-- under the lock, each of which is one step.
pub mod Laws
pub mod Progress
pub mod Interchange
use infiniband_exporter.Prelude.{ℕ, ◌<◌, ◌≡◌, List, [], ◌∷◌, ◌++◌, length}

pub record Pool (E : Type 0) : Type 0 where
  -- devices that the loop has not come to
  pub waiting : List (List E)
  -- what each running goroutine has still to do
  pub running : List (List E)
  -- the steps taken so far
  pub trace : List E

module _ {E : Type 0} where
  abbrev pub start : List (List E) → Pool E
  start tasks = record { waiting = tasks; running = []; trace = [] }

  pub data Step (limit : ℕ) : Pool E → Pool E → Type 0 where
    -- `limit <- 1; wg.Add(1); go …`
    spawn :
        {task : List E} {waiting running : List (List E)} {trace : List E}
        → length running < limit
        → Step limit
            (record { waiting = task ∷ waiting; running = running; trace = trace })
            (record { waiting = waiting; running = running ++ task ∷ []; trace = trace })
    -- one of the goroutines takes its next step
    act :
        (before : List (List E)) (e : E) (task : List E) (after : List (List E))
        {waiting running running' : List (List E)} {trace trace' : List E}
        → running ≡ before ++ (e ∷ task) ∷ after
        → running' ≡ before ++ task ∷ after
        → trace' ≡ trace ++ e ∷ []
        → Step limit
            (record { waiting = waiting; running = running; trace = trace })
            (record { waiting = waiting; running = running'; trace = trace' })
    -- `<-limit; wg.Done()`
    finish :
        (before after : List (List E)) {waiting running running' : List (List E)} {trace : List E}
        → running ≡ before ++ [] ∷ after
        → running' ≡ before ++ after
        → Step limit
            (record { waiting = waiting; running = running; trace = trace })
            (record { waiting = waiting; running = running'; trace = trace })

  pub data Steps (limit : ℕ) (p : Pool E) : Pool E → Type 0 where
    here : Steps limit p p
    next : {q r : Pool E} → Steps limit p q → Step limit q r → Steps limit p r

  -- `wg.Wait()` returns.
  abbrev pub IsDone : Pool E → Type 0
  IsDone p = (p.waiting ≡ []) × (p.running ≡ [])
