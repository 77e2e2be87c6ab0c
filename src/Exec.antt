-- ===== src/Exec.antt =====
-- What the exporter sees of the external tools: the end of a process, and the `(string, error)`
-- that the wrappers in collectors/*.go make of it.
use infiniband_exporter.Prelude.{Bool, true, false, Option, none, some, List, [], ◌∷◌, ◌++◌}
use infiniband_exporter.Text.{Text, codes, trim_space}

-- `context.DeadlineExceeded` itself, or any other error with its message.
pub data ExecError : Type 0 where
  deadline_exceeded : ExecError
  exit_error : Text → ExecError

-- A Go result `(string, error)`.
abbrev pub Outcome : Type 0
Outcome = Text × Option ExecError

-- A process that `runWithProcessGroup` has run, which is the operating system's: whether the
-- context's deadline has passed, the error of `cmd.Run`, and the two output buffers.
pub record Run : Type 0 where
  pub deadline : Bool
  pub error : Option Text
  pub stdout : Text
  pub stderr : Text

-- The end of `ibnetdiscover` and of `perfquery`: the deadline comes first, and the standard error
-- is added to the message.
abbrev pub with_stderr : Run → Outcome
with_stderr r = elim r.deadline [
  | true ↦ ([], some deadline_exceeded)
  | false ↦ elim r.error [
    | none ↦ (r.stdout, none)
    | some e ↦ ([], some (exit_error (e ++ (codes ": " ++ trim_space r.stderr))))
  ]
]

-- A command line under `--sudo`: the command and its arguments.
abbrev pub command_line : Bool → Text → List Text → Text × List Text
command_line true path args = (codes "sudo", path ∷ args)
command_line false path args = (path, args)
