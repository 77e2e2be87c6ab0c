-- ===== src/Exporter/Run/Laws.antt =====
-- What a run of the exporter with `--exporter.runonce` leaves.
use infiniband_exporter.Prelude.{
  ◌≡◌, ◌≢◌, refl, ◌⊎◌, inl, inr, Bool, true, false, Option, none, some, [], ◌∷◌, arith,
}
use infiniband_exporter.Prelude.Int.{ℤ}
use infiniband_exporter.Text.{Text}
use infiniband_exporter.Dict.{RangeOrder}
use infiniband_exporter.Float.{Float64}
use infiniband_exporter.Discover.Cache.{Shared}
use infiniband_exporter.Exporter.Setup.{SetupFlags, Gatherer, setup_gathers}
use infiniband_exporter.Exporter.Web.{Promhttp}
use infiniband_exporter.Exporter.Textfile.{
  Files, IsLawful, Written, complete, failed_with, panicked, write_metrics,
}
use infiniband_exporter.Exporter.Textfile.Laws.{
  IsSameBut, IsReplaced, IsLeft, IsWritten, write_metrics_lem,
}
use infiniband_exporter.Exporter.Run.{
  World, Exit, exit_status, exit_of, run_locked, run_into, run_by, run,
}

module _ {F : Type 0} (fs : Files F) (law : IsLawful fs) (http : Promhttp F) (fl : Float64 F)
    (ord : RangeOrder) (port_state : Bool) (flags : SetupFlags) (ttl : ℤ) (world : World F) where
  -- The lock was obtained.
  abbrev pub IsLocked : Bool × Option Text → Type 0
  IsLocked answer = answer ≡ (true, none)

  -- How a run ends that comes to `TryLock`, from what that leaves of the files.
  abbrev pub IsWrittenRun :
      Text → Shared F → fs.State → Bool × Option Text → Exit → fs.State → Type 0
  IsWrittenRun output shared locked answer exit s' =
      ((exit_status exit ≡ 0)
        × IsLocked answer
        × ((g : Gatherer F) × ((setup_gathers fl ord port_state flags ttl true world.scrape
                shared).0
              ≡ some g)
            × IsReplaced fs law output g locked s'))
      ⊎ ((exit_status exit ≢ 0) × ((s' ≡ locked) ⊎ IsLeft fs law output locked s'))

  -- Without an output path nothing is done. With one, `TryLock` may make the lock file and changes no
  -- other, and the rest is as `IsWrittenRun` says.
  abbrev pub IsRun : Text → Text → fs.State → Shared F → Exit → fs.State → Type 0
  IsRun lock_file output s shared exit s' =
      ((output ≡ []) × (exit_status exit ≢ 0) × (s' ≡ s))
      ⊎ ((output ≢ [])
          × IsSameBut fs law output lock_file s (fs.try_lock s lock_file).0
          × IsWrittenRun output shared (fs.try_lock s lock_file).0 (fs.try_lock s lock_file).1 exit
              s')

  module _ (shared : Shared F) (output : Text) where
    exit_of-IsWrittenRun :
        (s : fs.State) (w : Written) (s' : fs.State) (answer : Bool × Option Text)
        → IsLocked answer
        → IsWritten fs law output
            (setup_gathers fl ord port_state flags ttl true world.scrape shared).0
            s
            w
            s'
        → IsWrittenRun output shared s answer (exit_of w) s'
    unfolding exit_status
    exit_of-IsWrittenRun s complete s' answer locked (inl (_, found)) = inl (refl, locked, found)
    exit_of-IsWrittenRun s complete s' answer locked (inr (c, _)) = absurd (c refl)
    exit_of-IsWrittenRun s (failed_with e) s' answer locked (inl (c, _)) = absurd cc
    exit_of-IsWrittenRun s (failed_with e) s' answer locked (inr (_, left)) =
        inr (λ h. omega (arith, h), left)
    exit_of-IsWrittenRun s panicked s' answer locked (inl (c, _)) = absurd cc
    exit_of-IsWrittenRun s panicked s' answer locked (inr (_, left)) =
        inr (λ h. omega (arith, h), left)

    run_locked-IsWrittenRun :
        (s : fs.State) (answer : Bool × Option Text)
        → let (exit, (s', _)) =
            run_locked fs http fl ord port_state flags ttl world output (s, answer) shared in
          IsWrittenRun output shared s answer exit s'
    unfolding run_locked exit_status
    run_locked-IsWrittenRun s (locked, some e) = inr (λ k. omega (arith, k), inl refl)
    run_locked-IsWrittenRun s (false, none) = inr (λ k. omega (arith, k), inl refl)
    run_locked-IsWrittenRun s (true, none) =
        let (w, (s', _)) =
          write_metrics fs output fl ord port_state flags ttl world.scrape s shared in
        exit_of-IsWrittenRun s w s' (true, none) refl
          (write_metrics_lem fs law output fl ord port_state flags ttl world.scrape s shared)

  -- A run with `--exporter.runonce` has the status 0 only if it had an output path and the lock, and
  -- then the output is the metrics of the collectors that it has set up, and every other path but
  -- the lock file is as it was. Without an output path it fails and nothing has changed. Otherwise it
  -- fails too, and every path that was there is as it was, but for the lock file, which may have been
  -- made; the temporary file was not there when the lock was asked for, is not the output, and is
  -- there no more if its removal has succeeded.
  pub run_once_lem :
      (s : fs.State) (shared : Shared F) (lock_file output : Text)
      → let result =
          run fs http fl ord port_state flags ttl world
            (record { run_once = true; output = output; lock_file = lock_file })
            s
            shared in
        IsRun lock_file output s shared result.0 result.1.0
  unfolding run run_by run_into exit_status
  run_once_lem s shared lock_file [] = inl (refl, λ k. omega (arith, k), refl)
  run_once_lem s shared lock_file (c ∷ output) = inr (
    λ k. cc,
    λ q ne. law.try_lock-others s lock_file q ne,
    run_locked-IsWrittenRun shared (c ∷ output) (fs.try_lock s lock_file).0
        (fs.try_lock s lock_file).1,
  )
