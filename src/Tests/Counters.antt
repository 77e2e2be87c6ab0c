-- ===== src/Tests/Counters.antt =====
-- Examples of the counters: the parser of `perfquery`, the retries and the metrics of a port.
use infiniband_exporter.Prelude.{
  ℕ, ◌≡◌, ◌≢◌, refl, ◌<◌, inl, inr, Option, some, List, [], ◌∷◌, arith, Perm, map, All, zero, suc,
}
use infiniband_exporter.Prelude.Int.{pos}
use infiniband_exporter.Text.{Text, codes, split, equal}
use infiniband_exporter.Dict.Laws.{Distinct}
use infiniband_exporter.Exec.{deadline_exceeded, exit_error, Outcome}
use infiniband_exporter.Perfquery.Counters.{
  Counter, port_xmit_data, port_rcv_data, symbol_error_counter, PerfQueryCounters,
  initialize_counters, set_value,
}
use infiniband_exporter.Perfquery.Retry.{Retried, perfquery_with_retry}
use infiniband_exporter.Perfquery.Retry.Laws.{Settles, perfquery_with_retry_lem}
use infiniband_exporter.Perfquery.Parse.{perfquery_parse}
use infiniband_exporter.Perfquery.Parse.Report.{
  reading, noise, Block, print_report, IsPlain, IsNoise, IsBlock, block_counters, bad_report,
}
use infiniband_exporter.Perfquery.Parse.RoundTrip.{perfquery_parse-print_report}
use infiniband_exporter.Text.Cut.{lacks_sound}
use mathlib.Core.List.{flat_map}
use infiniband_exporter.Metrics.PortCounters.{
  emit_port_counters, build_port_counter_descs, port_counter_defs,
}
use infiniband_exporter.Metrics.PortCounters.Laws.{
  counter_metric, definitions, names, emit_port_counters_lem,
}
use infiniband_exporter.Tests.{numbers, in_order, device}

-- The first attempt fails, the second meets the deadline.
abbrev exec : ℕ → Outcome
exec zero = ([], some (exit_error (codes "mad_rpc failed")))
exec (suc n) = ([], some deadline_exceeded)

perfquery_with_retry_run : perfquery_with_retry exec (pos 3) ≡ ([], 1, some deadline_exceeded)
unfolding perfquery_with_retry infiniband_exporter.Perfquery.Retry.retry_loop
perfquery_with_retry_run = refl

perfquery_with_retry_lem_example : Settles exec (pos 3) 0 (perfquery_with_retry exec (pos 3))
perfquery_with_retry_lem_example = perfquery_with_retry_lem exec (pos 3)

second_Settles : Settles exec (pos 3) 0 ([], 1, some deadline_exceeded)
second_Settles = record {
  begins = omega arith;
  within = omega arith;
  before = λ k lo hi. first_only k hi;
  out_is = refl;
  error_is = refl;
  stops = inr (inl refl);
}
  where
    first_only : (k : ℕ) → k < 1 → (e : Text) × ((exec k).1 ≡ some (exit_error e))
    first_only zero h = (codes "mad_rpc failed", refl)
    first_only (suc k) h = absurd (omega arith)

abbrev comment : Text
comment = codes "# Port counters"

-- Two ports; a comment, a counter that is no number, and a field that the struct has not.
abbrev report : List Block
report =
    record {
      port = codes "1";
      dots = 3;
      lines =
          noise (comment)
          ∷ reading port_xmit_data 2 (codes "10")
          ∷ reading symbol_error_counter 1 (codes "x")
          ∷ [];
    }
    ∷ record { port = codes "2"; dots = 1; lines = reading port_rcv_data 4 (codes "5") ∷ [] }
    ∷ []

comment-IsNoise : IsNoise (comment)
unfolding split infiniband_exporter.Text.push_front
comment-IsNoise = (omega arith, inl (omega arith))

digit : (c : ℕ) → 46 < c × (c ≢ b':') → IsPlain (c ∷ [])
digit c (h, k) = record {
  no_colon = (k, tt);
  no_dot = (omega arith, tt);
  no_newline = (omega arith, tt);
}

two_digits : IsPlain (codes "10")
two_digits = record { no_colon = omega arith; no_dot = omega arith; no_newline = omega arith }

report-IsBlock : All IsBlock report
report-IsBlock = (
  (digit 49 (omega arith), (comment-IsNoise, (two_digits, (digit 120 (omega arith), tt)))),
  ((digit 50 (omega arith), (digit 53 (omega arith), tt)), tt),
)

-- The comment that the tool prints before the first port.
abbrev head : List Text
head =
    codes "# Port extended counters: Lid 2052 port 1 (CapMask: 0x5300 CapMask2: 0x0000002)"
    ∷ codes "# PortRcvErrorDetails counters: Lid 2052 port 1"
    ∷ []

head-IsNoise : All IsNoise head
unfolding split equal infiniband_exporter.Perfquery.Counters.field_by_name
head-IsNoise = (
  (
    lacks_sound b'\n'
        (codes "# Port extended counters: Lid 2052 port 1 (CapMask: 0x5300 CapMask2: 0x0000002)")
        refl,
    inl (λ h. omega (arith, h)),
  ),
  (
    (
      lacks_sound b'\n' (codes "# PortRcvErrorDetails counters: Lid 2052 port 1") refl,
      inr (
        codes "# PortRcvErrorDetails counters",
        codes " Lid 2052 port 1",
        refl,
        lacks_sound b':' (codes "# PortRcvErrorDetails counters") refl,
        lacks_sound b':' (codes " Lid 2052 port 1") refl,
        refl,
      ),
    ),
    tt,
  ),
)

perfquery_parse-print_report_example :
    Perm
      (perfquery_parse numbers in_order device (print_report head report)).0
      (map (block_counters numbers device) report)
    × ((perfquery_parse numbers in_order device (print_report head report)).1
        ≡ bad_report numbers report)
perfquery_parse-print_report_example =
    perfquery_parse-print_report numbers device in_order head report head-IsNoise report-IsBlock
      (unfold equal in ((refl, tt), (tt, tt)))

-- One counter is known.
abbrev counters : PerfQueryCounters (Option ℕ)
unfolding set_value initialize_counters
counters = set_value port_xmit_data (some 40) (initialize_counters numbers device)

emit_port_counters_lem_example :
    (emit_port_counters numbers
        (build_port_counter_descs (codes "switch") (codes "guid" ∷ []))
        counters
        (codes "0x7cfe" ∷ [])
      ≡ flat_map
          (counter_metric numbers
            (codes "switch")
            (codes "guid" ∷ [])
            counters
            (codes "0x7cfe" ∷ []))
          port_counter_defs)
    × ((counter : Counter) → definitions counter port_counter_defs ≡ 1)
    × Distinct (names port_counter_defs)
emit_port_counters_lem_example =
    emit_port_counters_lem numbers (codes "switch") (codes "guid" ∷ []) counters
      (codes "0x7cfe" ∷ [])
