-- ===== src/Perfquery/Command.antt =====
-- `perfqueryArgs` and `perfquery`.
use infiniband_exporter.Prelude.{Bool, List, [], ◌∷◌, ◌++◌}
use infiniband_exporter.Text.{Text, codes}
use infiniband_exporter.Exec.{Outcome, Run, with_stderr, command_line}

-- The two flags of the command line.
unfoldable pub perfquery_args : Bool → Text → Text → Text → List Text → Text × List Text
perfquery_args use_sudo path guid port extra_args =
    command_line use_sudo path (extra_args ++ ((codes "-G" ∷ guid ∷ []) ++ port ∷ []))

unfoldable pub perfquery : Run → Outcome
perfquery = with_stderr
