-- ===== src/Ibswinfo/Vitals/Report.antt =====
-- What `ibswinfo -o vitals` prints, and what its lines say.
use infiniband_exporter.Prelude.{
  ℕ, ◌≡◌, ◌≢◌, true, false, Option, none, some, List, [], ◌∷◌, ◌++◌, All,
}
use infiniband_exporter.Text.{Text, codes, is_digit, is_space, has_prefix, trim_space}
use infiniband_exporter.Text.Cut.{Lacks, unlines}
use infiniband_exporter.Text.Trim.{spaces}
use infiniband_exporter.Float.{Float64}
use infiniband_exporter.Ibswinfo.{SwitchPowerSupply, SwitchFan}

-- A line with its value; those of the power supplies and the fans have an id, of which the first
-- digit is written apart. `max.temp (C)` is the key of another line.
pub data Line : Type 0 where
  uptime : Text → Line
  temp : Text → Line
  psu : ℕ → Text → Text → Line
  fan : ℕ → Text → Text → Line
  other : Text → Text → Line

abbrev pub key_of : Line → Text
key_of (uptime value) = codes "uptime (sec)"
key_of (temp value) = codes "cur.temp (C)"
key_of (psu c id value) = codes "psu" ++ (c ∷ id) ++ codes ".power (W)"
key_of (fan c id value) = codes "fan#" ++ (c ∷ id) ++ codes ".speed (rpm)"
key_of (other key value) = key

abbrev pub value_of : Line → Text
value_of (uptime value) = value
value_of (temp value) = value
value_of (psu c id value) = value
value_of (fan c id value) = value
value_of (other key value) = value

-- The key in a column of some width, a colon, and the value.
abbrev pub print_line : ℕ × Line → Text
print_line (n, l) = key_of l ++ (spaces n ++ b':' ∷ b' ' ∷ value_of l)

abbrev pub print_lines : List (ℕ × Line) → List Text
print_lines [] = []
print_lines (l ∷ ls) = print_line l ∷ print_lines ls

abbrev pub print_vitals : List (ℕ × Line) → Text
print_vitals ls = unlines (print_lines ls)

-- A key that says nothing of the four kinds, on one line with no colon and no space around it.
pub record IsOther (key : Text) : Type 0 where
  pub first : ℕ
  pub inner : Text
  pub last : ℕ
  pub is : key ≡ first ∷ (inner ++ last ∷ [])
  pub first_plain : is_space first ≡ false
  pub last_plain : is_space last ≡ false
  pub no_colon : Lacks b':' key
  pub no_newline : Lacks b'\n' key
  pub no_uptime : key ≢ codes "uptime (sec)"
  pub no_temp : key ≢ codes "cur.temp (C)"
  pub no_psu : has_prefix key (codes "psu") ≡ false
  pub no_fan : has_prefix key (codes "fan#") ≡ false

-- An id has digits only.
abbrev pub HasDigits : Line → Type 0
HasDigits (psu c id value) = All (λ d. is_digit d ≡ true) (c ∷ id)
HasDigits (fan c id value) = All (λ d. is_digit d ≡ true) (c ∷ id)
HasDigits (other key value) = IsOther key
HasDigits _ = Unit

-- A value is on one line with no space around it.
abbrev pub IsPrinted : ℕ × Line → Type 0
IsPrinted (n, l) = Lacks b'\n' (value_of l) × (trim_space (value_of l) ≡ value_of l) × HasDigits l

-- The values of a kind, in the order of the lines.
abbrev pub uptimes : List (ℕ × Line) → List Text
uptimes [] = []
uptimes ((n, uptime value) ∷ ls) = value ∷ uptimes ls
uptimes ((n, temp value) ∷ ls) = uptimes ls
uptimes ((n, psu c id value) ∷ ls) = uptimes ls
uptimes ((n, fan c id value) ∷ ls) = uptimes ls
uptimes ((n, other key value) ∷ ls) = uptimes ls

abbrev pub temps : List (ℕ × Line) → List Text
temps [] = []
temps ((n, temp value) ∷ ls) = value ∷ temps ls
temps ((n, uptime value) ∷ ls) = temps ls
temps ((n, psu c id value) ∷ ls) = temps ls
temps ((n, fan c id value) ∷ ls) = temps ls
temps ((n, other key value) ∷ ls) = temps ls

abbrev pub psu_ids : List (ℕ × Line) → List Text
psu_ids [] = []
psu_ids ((n, psu c id value) ∷ ls) = (c ∷ id) ∷ psu_ids ls
psu_ids ((n, uptime value) ∷ ls) = psu_ids ls
psu_ids ((n, temp value) ∷ ls) = psu_ids ls
psu_ids ((n, fan c id value) ∷ ls) = psu_ids ls
psu_ids ((n, other key value) ∷ ls) = psu_ids ls

module _ {F : Type 0} (fl : Float64 F) where
  -- The last of the values that is a number.
  abbrev pub number_or : F → Option F → F
  number_or before none = before
  number_or before (some v) = v

  abbrev pub last_number : F → List Text → F
  last_number before [] = before
  last_number before (v ∷ vs) = last_number (number_or before (fl.parse_float v)) vs

  -- NaN for no value and for one that is no number.
  abbrev pub number_of : Text → F
  number_of [] = fl.nan
  number_of (c ∷ value) = number_or fl.nan (fl.parse_float (c ∷ value))

  abbrev pub psus_of : List (ℕ × Line) → List (SwitchPowerSupply F)
  psus_of [] = []
  psus_of ((n, psu c id value) ∷ ls) =
      record { id = c ∷ id; status = []; dc_power = []; fan_status = []; power_w = number_of value }
      ∷ psus_of ls
  psus_of ((n, uptime value) ∷ ls) = psus_of ls
  psus_of ((n, temp value) ∷ ls) = psus_of ls
  psus_of ((n, fan c id value) ∷ ls) = psus_of ls
  psus_of ((n, other key value) ∷ ls) = psus_of ls

  abbrev pub fans_of : List (ℕ × Line) → List (SwitchFan F)
  fans_of [] = []
  fans_of ((n, fan c id value) ∷ ls) = record { id = c ∷ id; rpm = number_of value } ∷ fans_of ls
  fans_of ((n, uptime value) ∷ ls) = fans_of ls
  fans_of ((n, temp value) ∷ ls) = fans_of ls
  fans_of ((n, psu c id value) ∷ ls) = fans_of ls
  fans_of ((n, other key value) ∷ ls) = fans_of ls
