-- ===== src/Perfquery/Retry.antt =====
-- `perfqueryWithRetry`. What `PerfqueryExec` answers on each attempt is a function of the attempt.
pub mod Laws
use infiniband_exporter.Prelude.{ℕ, zero, suc, ◌+◌, Option, none, some, [], if◌then◌else◌}
use infiniband_exporter.Prelude.Int.{ℤ, pos_part, at_least}
use infiniband_exporter.Text.{Text}
use infiniband_exporter.Exec.{ExecError, deadline_exceeded, exit_error, Outcome}

-- The output, the retries consumed and the error.
abbrev pub Retried : Type 0
Retried = Text × ℕ × Option ExecError

-- The body of the loop behind the call; `rest` is the next round.
unfoldable pub settle : ℤ → ℕ → Outcome → Option Retried → Option Retried
settle max_retries attempts (out, none) rest = some (out, attempts, none)
settle max_retries attempts (out, some deadline_exceeded) rest =
    some (out, attempts, some deadline_exceeded)
settle max_retries attempts (out, some (exit_error e)) rest =
    if at_least attempts max_retries then some (out, attempts, some (exit_error e)) else rest

-- The loop on fuel; `none` means that the fuel ran out.
unfoldable pub retry_loop : (ℕ → Outcome) → ℤ → ℕ → ℕ → Option Retried
unfolding settle
retry_loop exec max_retries zero attempts = none
retry_loop exec max_retries (suc fuel) attempts =
    let rest = retry_loop exec max_retries fuel (suc attempts) in
    settle max_retries attempts (exec attempts) rest

-- The loop's answer; the default is never met.
unfoldable pub settled : Option Retried → Retried
settled none = ([], 0, none)
settled (some r) = r

-- One round for the first call and one for each retry: the loop needs no more.
unfoldable pub perfquery_with_retry : (ℕ → Outcome) → ℤ → Retried
unfolding retry_loop settled
perfquery_with_retry exec max_retries =
    settled (retry_loop exec max_retries (suc (pos_part max_retries)) 0)
