-- ===== src/Exporter/Run.antt =====
-- `run` and `main`: one scrape into the output file under a lock, or the HTTP server.
pub mod Laws
use infiniband_exporter.Prelude.{ℕ, Bool, true, false, Option, none, some, List, [], ◌∷◌}
use infiniband_exporter.Prelude.Int.{ℤ}
use infiniband_exporter.Text.{Text}
use infiniband_exporter.Dict.{RangeOrder}
use infiniband_exporter.Float.{Float64}
use infiniband_exporter.Discover.Cache.{Shared, Scrape}
use infiniband_exporter.Exporter.Setup.{SetupFlags}
use infiniband_exporter.Exporter.Textfile.{
  Files, Written, complete, failed_with, panicked, write_metrics,
}
use infiniband_exporter.Exporter.Web.{Request, Promhttp, serve_requests}

pub record RunFlags : Type 0 where
  pub run_once : Bool
  pub output : Text
  pub lock_file : Text

-- What a run meets: the scrape of `--exporter.runonce`; or the requests that the server answers
-- before `ListenAndServe` returns, and its error.
pub record World (F : Type 0) : Type 0 where
  pub scrape : Scrape F
  pub requests : List (Request F)
  pub served : Option Text

pub data RunError : Type 0 where
  no_output : RunError
  lock_failed : Text → RunError
  is_locked : RunError
  not_written : Text → RunError
  not_served : Text → RunError

-- `run` returns an error or `nil`, or it panics.
pub data Exit : Type 0 where
  returned : Option RunError → Exit
  crash : Exit

-- The status of the process, which `main` makes 1 on an error; that of a panic is 2.
unfoldable pub exit_status : Exit → ℕ
exit_status (returned none) = 0
exit_status (returned (some e)) = 1
exit_status crash = 2

abbrev pub exit_of : Written → Exit
exit_of complete = returned none
exit_of (failed_with e) = returned (some (not_written e))
exit_of panicked = crash

abbrev pub exit_served : Option Text → Exit
exit_served none = returned none
exit_served (some e) = returned (some (not_served e))

module _ {F : Type 0} (fs : Files F) (http : Promhttp F) (fl : Float64 F) (ord : RangeOrder)
    (port_state : Bool) (flags : SetupFlags) (ttl : ℤ) (world : World F) where
  -- Behind `TryLock`.
  unfoldable pub run_locked :
      Text → fs.State × (Bool × Option Text) → Shared F → Exit × (fs.State × Shared F)
  unfolding write_metrics
  run_locked output (s, (locked, some e)) shared = (returned (some (lock_failed e)), (s, shared))
  run_locked output (s, (false, none)) shared = (returned (some is_locked), (s, shared))
  run_locked output (s, (true, none)) shared =
      let (w, after) = write_metrics fs output fl ord port_state flags ttl world.scrape s shared in
      (exit_of w, after)

  -- `if *runOnce`
  unfoldable pub run_into : Text → Text → fs.State → Shared F → Exit × (fs.State × Shared F)
  unfolding run_locked
  run_into lock_file [] s shared = (returned (some no_output), (s, shared))
  run_into lock_file (c ∷ output) s shared =
      run_locked (c ∷ output) (fs.try_lock s lock_file) shared

  -- What the other collectors keep ends with the process.
  unfoldable pub run_by : Bool → RunFlags → fs.State → Shared F → Exit × (fs.State × Shared F)
  unfolding run_into serve_requests
  run_by true f s shared = run_into f.lock_file f.output s shared
  run_by false f s shared = (
    exit_served world.served,
    (s, (serve_requests http fl ord port_state flags ttl world.requests (shared, http.initial)).0),
  )

  unfoldable pub run : RunFlags → fs.State → Shared F → Exit × (fs.State × Shared F)
  unfolding run_by
  run f s shared = run_by f.run_once f s shared
