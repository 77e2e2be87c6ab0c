-- ===== src/Ibswinfo/Full/Report.antt =====
-- What `ibswinfo` prints without `-o vitals`.
use infiniband_exporter.Prelude.{Option, none, ℕ, ◌≡◌, true, false, some, List, [], ◌∷◌, ◌++◌, All}
use infiniband_exporter.Text.{Text, codes, is_digit, has_prefix, trim_space}
use infiniband_exporter.Text.Cut.{Lacks, unlines}
use infiniband_exporter.Text.Trim.{spaces}
use infiniband_exporter.Float.{Float64}
use infiniband_exporter.Ibswinfo.Uptime.{parse_uptime}

-- The lines of a power supply; its digit, and its status, which is not empty. One that has no power
-- may lack the last line.
pub record PsuLines : Type 0 where
  pub digit : ℕ
  pub status_first : ℕ
  pub status_rest : Text
  pub part : Text
  pub serial : Text
  pub dc_power : Text
  pub fan_status : Text
  pub power : Option Text

-- The line of a fan, with the first digit of its id.
pub record FanLine : Type 0 where
  pub first : ℕ
  pub digits : Text
  pub rpm : Text

pub record Report : Type 0 where
  pub title : Text
  pub part_number : Text
  pub serial_number : Text
  pub product_name : Text
  pub revision : Text
  pub ports : Text
  pub psid : Text
  pub guid : Text
  pub firmware_version : Text
  pub uptime : Text
  pub psus : List PsuLines
  pub temp : Text
  pub max_temp : Text
  pub fan_status : Text
  pub fans : List FanLine

abbrev pub double_divider : Text
double_divider = codes "================================================="

abbrev pub divider : Text
divider = codes "-------------------------------------------------"

abbrev pub psu_key : ℕ → Text
psu_key d = codes "PSU" ++ d ∷ codes " status"

abbrev pub fan_key : ℕ → Text → Text
fan_key c digits = codes "fan#" ++ ((c ∷ digits) ++ codes " (rpm)")

-- Behind a key stand some spaces, which depend on it, and a bar.
module _ (pad : Text → ℕ) where
  abbrev pub line : ℕ → Text → Text → Text
  line indent key value = spaces indent ++ (key ++ (spaces (pad key) ++ b'|' ∷ b' ' ∷ value))

  abbrev pub power_lines : Option Text → List Text
  power_lines none = []
  power_lines (some power) = line 5 (codes "power (W)") power ∷ []

  abbrev pub psu_lines : PsuLines → List Text
  psu_lines p =
      line 0 (psu_key p.digit) (p.status_first ∷ p.status_rest)
      ∷ line 5 (codes "P/N") p.part
      ∷ line 5 (codes "S/N") p.serial
      ∷ line 5 (codes "DC power") p.dc_power
      ∷ line 5 (codes "fan status") p.fan_status
      ∷ power_lines p.power

  abbrev pub all_psu_lines : List PsuLines → List Text
  all_psu_lines [] = []
  all_psu_lines (p ∷ ps) = psu_lines p ++ all_psu_lines ps

  abbrev pub fan_lines : List FanLine → List Text
  fan_lines [] = []
  fan_lines (f ∷ fs) = line 0 (fan_key f.first f.digits) f.rpm ∷ fan_lines fs

  abbrev pub head_lines : Report → List Text
  head_lines r =
      double_divider
      ∷ r.title
      ∷ double_divider
      ∷ line 0 (codes "part number") r.part_number
      ∷ line 0 (codes "serial number") r.serial_number
      ∷ line 0 (codes "product name") r.product_name
      ∷ line 0 (codes "revision") r.revision
      ∷ line 0 (codes "ports") r.ports
      ∷ line 0 (codes "PSID") r.psid
      ∷ line 0 (codes "GUID") r.guid
      ∷ line 0 (codes "firmware version") r.firmware_version
      ∷ divider
      ∷ line 0 (codes "uptime (d-h:m:s)") r.uptime
      ∷ divider
      ∷ []

  abbrev pub temp_lines : Report → List Text
  temp_lines r =
      divider
      ∷ line 0 (codes "temperature (C)") r.temp
      ∷ line 0 (codes "max temp (C)") r.max_temp
      ∷ divider
      ∷ line 0 (codes "fan status") r.fan_status
      ∷ []

  abbrev pub report_lines : Report → List Text
  report_lines r =
      head_lines r ++ (all_psu_lines r.psus ++ (temp_lines r ++ (fan_lines r.fans ++ divider ∷ [])))

  abbrev pub print_report : Report → Text
  print_report r = unlines (report_lines r)

-- A value is on one line, with no bar and no space around it.
abbrev pub IsValue : Text → Type 0
IsValue v = Lacks b'\n' v × Lacks b'|' v × (trim_space v ≡ v)

module _ {F : Type 0} (fl : Float64 F) where
  abbrev pub IsNumber : Text → Type 0
  IsNumber v = IsValue v × ((x : F) × (fl.parse_float v ≡ some x))

  abbrev pub IsPower : Option Text → Type 0
  IsPower none = Unit
  IsPower (some power) = IsNumber power

  abbrev pub IsPsu : PsuLines → Type 0
  IsPsu p =
      (is_digit p.digit ≡ true)
      × IsValue (p.status_first ∷ p.status_rest)
      × IsValue p.part
      × IsValue p.serial
      × IsValue p.dc_power
      × IsValue p.fan_status
      × IsPower p.power

  -- The speed is a number or nothing.
  abbrev pub IsSpeed : Text → Type 0
  IsSpeed [] = Unit
  IsSpeed (c ∷ rpm) = IsNumber (c ∷ rpm)

  abbrev pub IsFan : FanLine → Type 0
  IsFan f = All (λ d. is_digit d ≡ true) (f.first ∷ f.digits) × IsSpeed f.rpm

  abbrev pub IsReport : Report → Type 0
  IsReport r =
      (Lacks b'\n' r.title × Lacks b'|' r.title × (has_prefix r.title (codes "-----") ≡ false))
      × IsValue r.part_number
      × IsValue r.serial_number
      × IsValue r.product_name
      × IsValue r.revision
      × IsValue r.ports
      × IsValue r.psid
      × IsValue r.guid
      × IsValue r.firmware_version
      × (IsValue r.uptime × ((x : F) × (parse_uptime fl r.uptime ≡ some x)))
      × All IsPsu r.psus
      × IsNumber r.temp
      × IsValue r.max_temp
      × IsValue r.fan_status
      × All IsFan r.fans
