-- ===== src/Ibswinfo/Full.antt =====
-- `parse_ibswinfo`
pub mod Report
pub mod Lines
pub mod Keys
pub mod Psus
pub mod Sections
pub mod Head
pub mod Newlines
pub mod RoundTrip
use infiniband_exporter.Prelude.{
  ℕ, suc, Bool, true, false, not, ◌&&◌, Option, none, some, List, [], ◌∷◌, ◌++◌, ltb, if◌then◌else◌,
}
use infiniband_exporter.Text.{
  Text, codes, equal, is_digit, has_prefix, strip_prefix, split, trim_space,
}
use infiniband_exporter.Dict.{Dict, RangeOrder, get, put, range}
use infiniband_exporter.Float.{Float64}
use infiniband_exporter.Discover.Names.{◌>>=◌}
use infiniband_exporter.Discover.Rate.{digit_run}
use infiniband_exporter.Ibswinfo.{SwitchPowerSupply, SwitchFan, Ibswinfo}
use infiniband_exporter.Ibswinfo.Vitals.{with_ids}
use infiniband_exporter.Ibswinfo.Uptime.{parse_uptime}

-- `PSU([0-9]) status` at the start of a text: the group.
unfoldable pub psu_digit : Text → Option Text
unfolding is_digit strip_prefix
psu_digit [] = none
psu_digit (c ∷ s) =
    if is_digit c then (do rest ← strip_prefix s (codes " status"); some (c ∷ [])) else none

unfoldable pub psu_at : Text → Option Text
unfolding strip_prefix psu_digit
psu_at s = do rest ← strip_prefix s (codes "PSU"); psu_digit rest

-- `fan#([0-9]+)` at the start of a text: the group.
abbrev pub some_digits : Text → Option Text
some_digits [] = none
some_digits (c ∷ digits) = some (c ∷ digits)

unfoldable pub fan_at : Text → Option Text
unfolding strip_prefix digit_run
fan_at s = do rest ← strip_prefix s (codes "fan#"); some_digits (digit_run rest)

abbrev pub or_later : Option Text → Option Text → Option Text
or_later none later = later
or_later (some found) later = some found

-- `FindStringSubmatch`: the leftmost match.
unfoldable pub find_at : (Text → Option Text) → Text → Option Text
find_at at [] = at []
find_at at (c ∷ s) = or_later (at (c ∷ s)) (find_at at s)

pub record FullState (F : Type 0) : Type 0 where
  pub swinfo : Ibswinfo F
  pub psus : Dict (SwitchPowerSupply F)
  pub fans : List (SwitchFan F)
  pub psu_id : Text
  pub divider_count : ℕ

abbrev pub is_empty : Text → Bool
is_empty [] = true
is_empty (c ∷ s) = false

module _ {F : Type 0} (fl : Float64 F) where
  -- The `switch` on the key.
  unfoldable pub set_static : Text → Text → Ibswinfo F → Ibswinfo F
  unfolding equal
  set_static key value swinfo =
      if equal key (codes "part number")
      then record swinfo { part_number = value }
      else if equal key (codes "serial number")
      then record swinfo { serial_number = value }
      else if equal key (codes "PSID")
      then record swinfo { psid = value }
      else if equal key (codes "firmware version")
      then record swinfo { firmware_version = value }
      else swinfo

  -- Whether the line belongs to the power supplies.
  abbrev pub in_psu : FullState F → Bool
  in_psu st = not (is_empty st.psu_id) && ltb st.divider_count 4

  abbrev pub or_psu : Option (SwitchPowerSupply F) → SwitchPowerSupply F → SwitchPowerSupply F
  or_psu none psu = psu
  or_psu (some p) psu = p

  -- `psu` with the status of a line that `rePSU` matches.
  abbrev pub fresh_psu : Option Text → Text → SwitchPowerSupply F
  fresh_psu none value = record {
    id = [];
    status = [];
    dc_power = [];
    fan_status = [];
    power_w = fl.nan;
  }
  fresh_psu (some id) value = record {
    id = [];
    status = value;
    dc_power = [];
    fan_status = [];
    power_w = fl.nan;
  }

  abbrev pub set_psu_id : FullState F → Option Text → FullState F
  set_psu_id st none = st
  set_psu_id st (some id) = record st { psu_id = id }

  -- `psu` as the line begins with it: a fresh one, or the power supply that is being read.
  unfoldable pub start_psu : FullState F → SwitchPowerSupply F → SwitchPowerSupply F
  unfolding get
  start_psu st fresh =
      if is_empty fresh.status && in_psu st then or_psu (get st.psu_id st.psus) fresh else fresh

  unfoldable pub set_psu_texts :
      FullState F → Text → Text → SwitchPowerSupply F → SwitchPowerSupply F
  unfolding equal
  set_psu_texts st key value psu =
      let powered = if equal key (codes "DC power") then record psu { dc_power = value } else psu in
      if equal key (codes "fan status") && ltb st.divider_count 4
      then record powered { fan_status = value }
      else powered

  -- A test that fails leaves its value; a number that is none ends the function with an error.
  unfoldable pub set_number : {S : Type 0} → Bool → Text → (F → S → S) → S → Option S
  set_number false value set s = some s
  set_number true value set s = do v ← fl.parse_float value; some (set v s)

  unfoldable pub store_psu : FullState F → SwitchPowerSupply F → FullState F
  unfolding put
  store_psu st psu = if in_psu st then record st { psus = put st.psu_id psu st.psus } else st

  unfoldable pub set_fan_status : Text → Text → FullState F → FullState F
  unfolding equal
  set_fan_status key value st =
      if equal key (codes "fan status") && not (ltb st.divider_count 4)
      then record st { swinfo = record st.swinfo { fan_status = value } }
      else st

  unfoldable pub add_fan : FullState F → Option Text → Text → Option (FullState F)
  add_fan st none value = some st
  add_fan st (some id) [] =
      some (record st { fans = st.fans ++ record { id = id; rpm = fl.nan } ∷ [] })
  add_fan st (some id) (c ∷ value) = do
    rpm ← fl.parse_float (c ∷ value)
    some (record st { fans = st.fans ++ record { id = id; rpm = rpm } ∷ [] })

  -- From `var psu SwitchPowerSupply` to the end of the loop's body; `none` is an error.
  unfoldable pub hardware_line : FullState F → Text → Text → Option (FullState F)
  unfolding start_psu find_at psu_at set_psu_texts set_number store_psu set_fan_status add_fan
      fan_at equal
  hardware_line st key value =
      let st1 = set_psu_id st (find_at psu_at key) in
      let psu = start_psu st1 (fresh_psu (find_at psu_at key) value) in
      do
        psu' ←
            set_number (equal key (codes "power (W)")) value
              (λ v (p : SwitchPowerSupply F). record p { power_w = v })
              (set_psu_texts st1 key value psu)
        st2 ←
            set_number (equal key (codes "temperature (C)")) value
              (λ v (s : FullState F). record s { swinfo = record s.swinfo { temp = v } })
              (store_psu st1 psu')
        add_fan (set_fan_status key value st2) (find_at fan_at key) value

  -- An uptime that is none ends the line, not the function.
  unfoldable pub uptime_line : FullState F → Text → Text → Option F → Option (FullState F)
  unfolding hardware_line
  uptime_line st key value none = some st
  uptime_line st key value (some uptime) =
      hardware_line (record st { swinfo = record st.swinfo { uptime = uptime } }) key value

  unfoldable pub key_line : FullState F → Text → Text → Option (FullState F)
  unfolding set_static has_prefix uptime_line hardware_line parse_uptime
  key_line st key value =
      let st' = record st { swinfo = set_static key value st.swinfo } in
      if has_prefix key (codes "uptime")
      then uptime_line st' key value (parse_uptime fl value)
      else hardware_line st' key value

  -- The parts of a line between bars.
  unfoldable pub full_parts : FullState F → List Text → Option (FullState F)
  unfolding key_line trim_space
  full_parts st (key ∷ (value ∷ [])) = key_line st (trim_space key) (trim_space value)
  full_parts st _ = some st

  unfoldable pub count_divider : FullState F → Text → FullState F
  unfolding has_prefix
  count_divider st line =
      if has_prefix line (codes "-----")
      then record st { divider_count = suc st.divider_count }
      else st

  unfoldable pub full_lines : FullState F → List Text → Option (FullState F)
  unfolding full_parts count_divider split
  full_lines st [] = some st
  full_lines st (line ∷ lines) =
      full_parts (count_divider st line) (split line b'|') >>= (λ st'. full_lines st' lines)

  abbrev pub full_start : Ibswinfo F → FullState F
  full_start swinfo = record {
    swinfo = record swinfo { temp = fl.nan };
    psus = [];
    fans = [];
    psu_id = [];
    divider_count = 0;
  }

  abbrev pub full_end : RangeOrder → FullState F → Ibswinfo F
  full_end ord st = record st.swinfo {
    power_supplies = with_ids fl (range ord st.psus);
    fans = st.fans;
  }

  -- `none` is an error, at which the caller drops the data.
  unfoldable pub parse_ibswinfo : RangeOrder → Text → Ibswinfo F → Option (Ibswinfo F)
  unfolding full_lines range split
  parse_ibswinfo ord out swinfo = do
    st ← full_lines (full_start swinfo) (split out b'\n')
    some (full_end ord st)
