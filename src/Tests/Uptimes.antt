-- ===== src/Tests/Uptimes.antt =====
-- Examples of the uptime that `ibswinfo` prints.
use infiniband_exporter.Prelude.{◌+◌, ◌*◌, ◌≡◌, false, some, arith}
use infiniband_exporter.Text.{codes}
use infiniband_exporter.Discover.Names.{◌>>=◌}
use infiniband_exporter.Ibswinfo.Uptime.{parse_uptime}
use infiniband_exporter.Ibswinfo.Uptime.Laws.{
  print_time, print_uptime, in_seconds, parse_uptime-print_uptime,
}
use infiniband_exporter.Tests.{numbers}

-- `160d-10:38:53`
parse_uptime-print_uptime_example :
    let time = print_time false 10 38 53 in
    let seconds = 10 * 3600 + 38 * 60 + 53 in
    (parse_uptime numbers (print_uptime (codes "160") time)
      ≡ (do d ← numbers.parse_float (codes "160"); some (in_seconds numbers d seconds)))
    × (parse_uptime numbers time ≡ some (in_seconds numbers (numbers.decimal 0 0) seconds))
parse_uptime-print_uptime_example =
    parse_uptime-print_uptime numbers false (codes "160") 10 38 53
      ((λ e. omega (arith, e)), ((λ e. omega (arith, e)), ((λ e. omega (arith, e)), tt)))
      ((λ e. omega (arith, e)), ((λ e. omega (arith, e)), ((λ e. omega (arith, e)), tt)))
      (omega arith) (omega arith) (omega arith)
