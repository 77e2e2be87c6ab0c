-- ===== src/Ibswinfo/Vitals.antt =====
-- `parseIbswinfoVitals`
pub mod Report
pub mod Lines
pub mod Fields
pub mod Laws
use infiniband_exporter.Prelude.{
  Bool, true, false, Option, none, some, List, [], ◌∷◌, ◌++◌, if◌then◌else◌,
}
use infiniband_exporter.Text.{Text, codes, equal, strip_prefix, is_digit, split, trim_space}
use infiniband_exporter.Dict.{Dict, RangeOrder, put, range}
use infiniband_exporter.Float.{Float64}
use infiniband_exporter.Discover.Names.{cut_at}
use infiniband_exporter.Ibswinfo.{SwitchPowerSupply, SwitchFan, Ibswinfo}

-- The leading digits, and what follows them.
unfoldable pub span_digits : Text → Text × Text
unfolding is_digit
span_digits [] = ([], [])
span_digits (c ∷ s) =
    let (digits, rest) = span_digits s in if is_digit c then (c ∷ digits, rest) else ([], c ∷ s)

unfoldable pub closed : Text → Text × Text → Option Text
unfolding equal
closed suffix ([], rest) = none
closed suffix (c ∷ digits, rest) = if equal rest suffix then some (c ∷ digits) else none

-- The group of `^prefix([0-9]+)suffix$`, for a suffix that begins with no digit.
unfoldable pub numbered : Text → Text → Text → Option Text
unfolding strip_prefix span_digits closed
numbered prefix suffix key = elim (strip_prefix key prefix) [
  | none ↦ none
  | some rest ↦ closed suffix (span_digits rest)
]

unfoldable pub psu_of : Text → Option Text
unfolding numbered
psu_of = numbered (codes "psu") (codes ".power (W)")

unfoldable pub fan_of : Text → Option Text
unfolding numbered
fan_of = numbered (codes "fan#") (codes ".speed (rpm)")

pub record VitalsState (F : Type 0) : Type 0 where
  pub swinfo : Ibswinfo F
  pub psus : Dict (SwitchPowerSupply F)
  pub fans : List (SwitchFan F)

module _ {F : Type 0} (fl : Float64 F) where
  abbrev pub or_nan : Option F → F
  or_nan none = fl.nan
  or_nan (some v) = v

  -- NaN for no value and for one that is no number.
  unfoldable pub reading : Text → F
  reading [] = fl.nan
  reading (c ∷ value) = or_nan (fl.parse_float (c ∷ value))

  abbrev pub set_uptime : VitalsState F → Option F → VitalsState F
  set_uptime st none = st
  set_uptime st (some sec) = record st { swinfo = record st.swinfo { uptime = sec } }

  abbrev pub set_temp : VitalsState F → Option F → VitalsState F
  set_temp st none = st
  set_temp st (some temp) = record st { swinfo = record st.swinfo { temp = temp } }

  abbrev pub new_psu : Text → F → SwitchPowerSupply F
  new_psu id power_w = record {
    id = id;
    status = [];
    dc_power = [];
    fan_status = [];
    power_w = power_w;
  }

  -- The two regular expressions, in this order.
  unfoldable pub set_psu_or_fan : VitalsState F → Text → Option Text → Option Text → VitalsState F
  unfolding put reading
  set_psu_or_fan st value (some id) fan = record st {
    psus = put id (new_psu id (reading value)) st.psus;
  }
  set_psu_or_fan st value none (some id) = record st {
    fans = st.fans ++ record { id = id; rpm = reading value } ∷ [];
  }
  set_psu_or_fan st value none none = st

  unfoldable pub set_key : VitalsState F → Text → Text → VitalsState F
  unfolding equal set_psu_or_fan psu_of fan_of
  set_key st key value =
      if equal key (codes "uptime (sec)")
      then set_uptime st (fl.parse_float value)
      else if equal key (codes "cur.temp (C)")
      then set_temp st (fl.parse_float value)
      else set_psu_or_fan st value (psu_of key) (fan_of key)

  -- `strings.SplitN(line, ":", 2)`
  unfoldable pub vitals_parts : VitalsState F → Option (Text × Text) → VitalsState F
  unfolding set_key trim_space
  vitals_parts st none = st
  vitals_parts st (some (key, value)) = set_key st (trim_space key) (trim_space value)

  unfoldable pub vitals_lines : VitalsState F → List Text → VitalsState F
  unfolding vitals_parts cut_at
  vitals_lines st [] = st
  vitals_lines st (line ∷ lines) = vitals_lines (vitals_parts st (cut_at b':' line)) lines

  abbrev pub with_ids : List (Text × SwitchPowerSupply F) → List (SwitchPowerSupply F)
  with_ids [] = []
  with_ids ((id, psu) ∷ psus) = record psu { id = id } ∷ with_ids psus

  abbrev pub vitals_start : Ibswinfo F → VitalsState F
  vitals_start swinfo = record { swinfo = record swinfo { temp = fl.nan }; psus = []; fans = [] }

  abbrev pub vitals_end : RangeOrder → VitalsState F → Ibswinfo F
  vitals_end ord st = record st.swinfo {
    power_supplies = st.swinfo.power_supplies ++ with_ids (range ord st.psus);
    fans = st.fans;
  }

  -- It returns no error.
  unfoldable pub parse_ibswinfo_vitals : RangeOrder → Text → Ibswinfo F → Ibswinfo F
  unfolding vitals_lines range split
  parse_ibswinfo_vitals ord out swinfo =
      vitals_end ord (vitals_lines (vitals_start swinfo) (split out b'\n'))
