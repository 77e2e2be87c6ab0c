-- ===== src/Pool/Laws.antt =====
-- What every run of the pool keeps.
use infiniband_exporter.Prelude.{
  ℕ, ◌≤◌, ◌≡◌, refl, ap, List, [], ◌∷◌, ◌++◌, append_assoc, append-nil, length, length-append,
  arith,
}
use mathlib.Core.List.{flatten, Permᴰ}
use mathlib.Core.List.Permᴰ
use infiniband_exporter.Pool.{Pool, start, Step, spawn, act, finish, Steps, here, next, IsDone}

module _ {E : Type 0} (limit : ℕ) where
  abbrev pub IsBounded : Pool E → Type 0
  IsBounded p = length p.running ≤ limit

  Step-IsBounded : {p q : Pool E} → Step limit p q → IsBounded p → IsBounded q
  Step-IsBounded (spawn {task = task} {running = running} room) h =
      omega (arith, length-append running (task ∷ []))
  Step-IsBounded (act before e task after {running = running} {running' = running'} r r' t) h =
      omega (
        arith,
        ap length r,
        ap length r',
        length-append before ((e ∷ task) ∷ after),
        length-append before (task ∷ after),
      )
  Step-IsBounded (finish before after r r') h = omega (
    arith,
    ap length r,
    ap length r',
    length-append before ([] ∷ after),
    length-append before after,
  )

  Steps-IsBounded : {p q : Pool E} → Steps limit p q → IsBounded p → IsBounded q
  Steps-IsBounded here h = h
  Steps-IsBounded (next ss s) h = Step-IsBounded s (Steps-IsBounded ss h)

  -- At no time are more goroutines at work than the limit allows.
  pub running_bounded :
      (tasks : List (List E)) {p : Pool E} → Steps limit (start tasks) p → length p.running ≤ limit
  running_bounded tasks ss = Steps-IsBounded ss (omega arith)

  -- All steps of a pool: those taken, those of the running goroutines and those of the rest.
  abbrev all_steps : Pool E → List E
  all_steps p = p.trace ++ (flatten p.running ++ flatten p.waiting)

  flatten-append : (xs ys : List (List E)) → flatten (xs ++ ys) ≡ flatten xs ++ flatten ys
  unfolding flatten
  flatten-append [] ys = refl
  flatten-append (x ∷ xs) ys = simp (flatten-append xs ys, append_assoc)

  -- A step that is taken goes from its goroutine to the end of the trace.
  take_step :
      (trace before : List E) (e : E) (after rest : List E)
      → Permᴰ
          (trace ++ ((before ++ e ∷ after) ++ rest))
          ((trace ++ e ∷ []) ++ ((before ++ after) ++ rest))
  take_step trace before e after rest =
      simp append_assoc (Permᴰ.append_left trace (Permᴰ.middle e before (after ++ rest)))

  Step-perm : {p q : Pool E} → Step limit p q → Permᴰ (all_steps p) (all_steps q)
  unfolding flatten
  Step-perm (spawn {task = task} {waiting = waiting} {running = running} {trace = trace} room) =
      rw (flatten-append running (task ∷ []), append-nil, append_assoc) (Permᴰ.refl _)
  Step-perm
        (act before e task after {waiting = waiting} {running = running} {running' = running'}
          {trace = trace} {trace' = trace'} r r' t) =
      rw
        (r, r', t, flatten-append before ((e ∷ task) ∷ after), flatten-append before (task ∷ after))
        (take_step trace (flatten before) e (task ++ flatten after) (flatten waiting))
  Step-perm (finish before after {waiting = waiting} {trace = trace} r r') =
      rw (r, r', flatten-append before ([] ∷ after), flatten-append before after) (Permᴰ.refl _)

  Steps-perm : {p q : Pool E} → Steps limit p q → Permᴰ (all_steps p) (all_steps q)
  Steps-perm {p} here = Permᴰ.refl (all_steps p)
  Steps-perm (next ss s) = Permᴰ.trans (Steps-perm ss) (Step-perm s)

  -- When all goroutines have ended, the steps taken are those of all the tasks, each as often.
  pub trace-perm :
      (tasks : List (List E)) {p : Pool E}
      → Steps limit (start tasks) p
      → IsDone p
      → Permᴰ p.trace (flatten tasks)
  unfolding flatten
  trace-perm tasks {p} ss (waiting_empty, running_empty) =
      Permᴰ.symm (rw (running_empty, waiting_empty, append-nil) at (Steps-perm ss))
