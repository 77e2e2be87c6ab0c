-- ===== src/Pool/Progress.antt =====
-- The pool comes to its end, if the limit is not 0.
use infiniband_exporter.Prelude.{
  ℕ, zero, suc, ◌+◌, ◌≤◌, ◌<◌, ◌≡◌, refl, ap, ◌⊎◌, inl, inr, List, [], ◌∷◌, length, length-append,
  sum_of, sum_of-append, arith,
}
use infiniband_exporter.Pool.{Pool, start, Step, spawn, act, finish, Steps, here, next, IsDone}

module _ {E : Type 0} (limit : ℕ) where
  -- What is still to be done: each task's steps, its start and its end.
  abbrev weight : Pool E → ℕ
  weight p =
      sum_of (λ (t : List E). length t + 2) p.waiting
      + sum_of (λ (t : List E). length t + 1) p.running

  Step-weight : {p q : Pool E} → Step limit p q → weight q < weight p
  Step-weight (spawn {task = task} {running = running} room) =
      omega (arith, sum_of-append (λ (t : List E). length t + 1) running (task ∷ []))
  Step-weight (act before e task after r r' t) =
      let size = λ (t : List E). length t + 1 in
      omega (
        arith,
        ap (sum_of size) r,
        ap (sum_of size) r',
        sum_of-append size before ((e ∷ task) ∷ after),
        sum_of-append size before (task ∷ after),
      )
  Step-weight (finish before after r r') =
      let size = λ (t : List E). length t + 1 in
      omega (
        arith,
        ap (sum_of size) r,
        ap (sum_of size) r',
        sum_of-append size before ([] ∷ after),
        sum_of-append size before after,
      )

  step_of :
      (waiting running : List (List E)) (trace : List E)
      → 0 < limit
      → IsDone (record { waiting = waiting; running = running; trace = trace })
        ⊎ ((q : Pool E) × Step limit
              (record { waiting = waiting; running = running; trace = trace })
              q)
  step_of [] [] trace h = inl (refl, refl)
  step_of (task ∷ waiting) [] trace h = inr (_, spawn h)
  step_of waiting ((e ∷ task) ∷ after) trace h = inr (_, act [] e task after refl refl refl)
  step_of waiting ([] ∷ after) trace h = inr (_, finish [] after refl refl)

  Steps-cons : {p q r : Pool E} → Step limit p q → Steps limit q r → Steps limit p r
  Steps-cons s here = next here s
  Steps-cons s (next ss s') = next (Steps-cons s ss) s'

  finish_all :
      (fuel : ℕ) (p : Pool E)
      → 0 < limit
      → weight p < fuel
      → (q : Pool E) × Steps limit p q × IsDone q
  finish_all zero p h w = absurd (omega arith)
  finish_all (suc fuel) p h w = elim (step_of p.waiting p.running p.trace h) [
    | inl done ↦ (p, here, done)
    | inr (q, s) ↦
        let (r, ss, done) = finish_all fuel q h (omega (arith, Step-weight s)) in
        (r, Steps-cons s ss, done)
  ]

  -- From wherever a run has come, it can be carried on until all goroutines have ended.
  can_finish : (p : Pool E) → 0 < limit → (q : Pool E) × Steps limit p q × IsDone q
  can_finish p h = finish_all (suc (weight p)) p h (omega arith)

  pub steps_taken : {p q : Pool E} → Steps limit p q → ℕ
  steps_taken here = 0
  steps_taken (next ss s) = suc (steps_taken ss)

  steps_taken-weight : {p q : Pool E} (ss : Steps limit p q) → steps_taken ss + weight q ≤ weight p
  unfolding steps_taken
  steps_taken-weight here = omega arith
  steps_taken-weight (next ss s) = omega (arith, steps_taken-weight ss, Step-weight s)

  -- A pool with room for a goroutine never blocks: a state that is not the end has a next step, every
  -- run is bounded by the number of visible steps and twice the tasks, and it can be carried on to
  -- the end.
  pub pool_ends :
      (tasks : List (List E)) {p : Pool E}
      → 0 < limit
      → (ss : Steps limit (start tasks) p)
      → (IsDone p ⊎ ((q : Pool E) × Step limit p q))
        × (steps_taken ss ≤ sum_of (λ (t : List E). length t + 2) tasks)
        × ((q : Pool E) × Steps limit p q × IsDone q)
  pool_ends tasks {p} h ss =
      (step_of p.waiting p.running p.trace h, omega (arith, steps_taken-weight ss), can_finish p h)

no_step_of_zero : {E : Type 0} {p q : Pool E} → Step 0 p q → p.running ≡ [] → ⊥
no_step_of_zero (spawn room) e = absurd (omega arith)
no_step_of_zero (act before e task after r r' t) empty =
    omega (arith, ap length r, ap length empty, length-append before ((e ∷ task) ∷ after))
no_step_of_zero (finish before after r r') empty =
    omega (arith, ap length r, ap length empty, length-append before ([] ∷ after))

-- With a limit of 0 the main loop waits for ever at its first device.
pub pool_blocks :
    {E : Type 0} (task : List E) (tasks : List (List E)) {q : Pool E}
    → ¬ Step 0 (start (task ∷ tasks)) q
pool_blocks task tasks s = no_step_of_zero s refl
