-- ===== src/Tests/Fulls.antt =====
-- An example of an output of `ibswinfo` that is read as what it says: the one of the repository's
-- collectors/testdata/ibswinfo/test1.out, less some of its fans, and with one that has no speed;
-- the second power supply has no line for its power, as in test3.out.
use infiniband_exporter.Prelude.{none, ℕ, ◌≡◌, refl, true, Option, some, List, [], ◌∷◌, Perm}
use infiniband_exporter.Text.{
  Text, codes, is_digit, is_space, has_prefix, trim_by, trim_space, drop_while, equal,
}
use infiniband_exporter.Dict.Laws.{Distinct, is_distinct, is_distinct_sound, is_absent}
use infiniband_exporter.Ibswinfo.{SwitchPowerSupply}
use infiniband_exporter.Ibswinfo.Uptime.{parse_uptime}
use infiniband_exporter.Ibswinfo.Full.{parse_ibswinfo}
use infiniband_exporter.Ibswinfo.Full.Report.{PsuLines, Report, print_report, IsValue, IsReport}
use infiniband_exporter.Text.Cut.{lacks, lacks_sound}
use infiniband_exporter.Ibswinfo.Full.RoundTrip.{
  psu_ids, psus_said, said, parse_ibswinfo-print_report,
}
use infiniband_exporter.Tests.{numbers, in_order}
use infiniband_exporter.Tests.Swinfos.{empty_swinfo}

abbrev supply : ℕ → Text → Option Text → PsuLines
supply d serial power = record {
  digit = d;
  status_first = b'O';
  status_rest = codes "K";
  part = codes "MTEF-PSF-AC-A";
  serial = serial;
  dc_power = codes "OK";
  fan_status = codes "OK";
  power = power;
}

abbrev report : Report
report = record {
  title = codes "SwitchIB Mellanox Technologies";
  part_number = codes "MSB7790-ES2F";
  serial_number = codes "MT1943X00498";
  product_name = codes "Scorpion IB EDR Unmanaged";
  revision = codes "AN";
  ports = codes "36";
  psid = codes "MT_1880110032";
  guid = codes "0x1c34da0300010540";
  firmware_version = codes "11.2008.2102";
  uptime = codes "160d-10:38:53";
  psus =
      supply b'0' (codes "MT1944X10558") (some (codes "72"))
      ∷ supply b'1' (codes "MT1944X10555") none
      ∷ [];
  temp = codes "45";
  max_temp = codes "57";
  fan_status = codes "ERROR";
  fans =
      record { first = b'1'; digits = []; rpm = codes "8493" }
      ∷ record { first = b'1'; digits = codes "0"; rpm = [] }
      ∷ [];
}

-- A test of a value, to be evaluated.
value : (v : Text) → lacks b'\n' v ≡ true → lacks b'|' v ≡ true → trim_space v ≡ v → IsValue v
value v no_newline no_bar trimmed =
    (lacks_sound b'\n' v no_newline, lacks_sound b'|' v no_bar, trimmed)

report-IsReport : IsReport numbers report
unfolding trim_space trim_by drop_while is_space is_digit has_prefix parse_uptime
report-IsReport = (
  (lacks_sound b'\n' report.title refl, lacks_sound b'|' report.title refl, refl),
  value (codes "MSB7790-ES2F") refl refl refl,
  value (codes "MT1943X00498") refl refl refl,
  value (codes "Scorpion IB EDR Unmanaged") refl refl refl,
  value (codes "AN") refl refl refl,
  value (codes "36") refl refl refl,
  value (codes "MT_1880110032") refl refl refl,
  value (codes "0x1c34da0300010540") refl refl refl,
  value (codes "11.2008.2102") refl refl refl,
  (value (codes "160d-10:38:53") refl refl refl, (_, refl)),
  (
    (
      refl,
      value (codes "OK") refl refl refl,
      value (codes "MTEF-PSF-AC-A") refl refl refl,
      value (codes "MT1944X10558") refl refl refl,
      value (codes "OK") refl refl refl,
      value (codes "OK") refl refl refl,
      (value (codes "72") refl refl refl, (_, refl)),
    ),
    (
      (
        refl,
        value (codes "OK") refl refl refl,
        value (codes "MTEF-PSF-AC-A") refl refl refl,
        value (codes "MT1944X10555") refl refl refl,
        value (codes "OK") refl refl refl,
        value (codes "OK") refl refl refl,
        tt,
      ),
      tt,
    ),
  ),
  (value (codes "45") refl refl refl, (_, refl)),
  value (codes "57") refl refl refl,
  value (codes "ERROR") refl refl refl,
  (((refl, tt), (value (codes "8493") refl refl refl, (_, refl))), (((refl, (refl, tt)), tt), tt)),
)

report-Distinct : Distinct (psu_ids numbers report.psus)
report-Distinct =
    is_distinct_sound (psu_ids numbers report.psus) (unfold is_distinct is_absent equal in refl)

parse_ibswinfo-print_report_example :
    (psus : List (SwitchPowerSupply (Option ℕ))) × (parse_ibswinfo numbers in_order
        (print_report (λ key. 3) report)
        empty_swinfo
      ≡ some (said numbers empty_swinfo report psus))
    × Perm psus (psus_said numbers report.psus)
parse_ibswinfo-print_report_example =
    parse_ibswinfo-print_report numbers in_order (λ key. 3) empty_swinfo report report-IsReport
      report-Distinct
