-- ===== src/Tests/Vitals.antt =====
-- An example of a vitals output that is read as what it says.
use infiniband_exporter.Prelude.{ℕ, ◌≡◌, ◌≢◌, false, refl, List, [], ◌∷◌, ◌++◌, Perm, All, arith}
use infiniband_exporter.Text.{
  Text, codes, equal, is_digit, is_space, has_prefix, trim_by, trim_space, drop_while,
}
use infiniband_exporter.Text.Equal.{equal_refl}
use infiniband_exporter.Ibswinfo.Vitals.{parse_ibswinfo_vitals}
use infiniband_exporter.Ibswinfo.Vitals.Report.{
  Line, uptime, temp, psu, fan, other, IsOther, print_vitals, IsPrinted, uptimes, temps,
  last_number, psus_of, fans_of,
}
use infiniband_exporter.Ibswinfo.Vitals.Laws.{parse_ibswinfo_vitals-print_vitals}
use infiniband_exporter.Tests.{numbers, in_order}
use infiniband_exporter.Tests.Swinfos.{empty_swinfo}

-- `uptime (sec)       : 16982312` and so on; the second fan has no speed.
abbrev lines : List (ℕ × Line)
lines =
    (7, uptime (codes "16982312"))
    ∷ (3, psu b'0' [] (codes "92"))
    ∷ (7, temp (codes "73"))
    ∷ (7, other (codes "max.temp (C)") (codes "80"))
    ∷ (0, fan b'1' [] (codes "6355"))
    ∷ (0, fan b'2' [] [])
    ∷ []

differ : (s t : Text) → equal s t ≡ false → s ≢ t
differ s t h = λ e. absurd (cc (equal_refl t, e, h))

max_temp-IsOther : IsOther (codes "max.temp (C)")
unfolding is_space has_prefix equal
max_temp-IsOther = record {
  first = b'm';
  inner = codes "ax.temp (C";
  last = b')';
  is = refl;
  first_plain = refl;
  last_plain = refl;
  no_colon = omega arith;
  no_newline = omega arith;
  no_uptime = differ (codes "max.temp (C)") (codes "uptime (sec)") refl;
  no_temp = differ (codes "max.temp (C)") (codes "cur.temp (C)") refl;
  no_psu = refl;
  no_fan = refl;
}

lines-IsPrinted : All IsPrinted lines
unfolding trim_space trim_by drop_while is_space is_digit
lines-IsPrinted = (
  (omega arith, refl, tt),
  (
    (omega arith, refl, (refl, tt)),
    (
      (omega arith, refl, tt),
      (
        (omega arith, refl, max_temp-IsOther),
        ((omega arith, refl, (refl, tt)), ((tt, refl, (refl, tt)), tt)),
      ),
    ),
  ),
)

parse_ibswinfo_vitals-print_vitals_example :
    let r = parse_ibswinfo_vitals numbers in_order (print_vitals lines) empty_swinfo in
    (r.uptime ≡ last_number numbers empty_swinfo.uptime (uptimes lines))
    × (r.temp ≡ last_number numbers numbers.nan (temps lines))
    × (r.fans ≡ fans_of numbers lines)
    × Perm r.power_supplies (empty_swinfo.power_supplies ++ psus_of numbers lines)
parse_ibswinfo_vitals-print_vitals_example =
    parse_ibswinfo_vitals-print_vitals numbers in_order lines empty_swinfo lines-IsPrinted (tt, tt)
