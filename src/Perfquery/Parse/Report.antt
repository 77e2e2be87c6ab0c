-- ===== src/Perfquery/Parse/Report.antt =====
-- The output of `perfquery` as some lines, which are comments, and a list of blocks, one for each
-- port; and what it says.
use infiniband_exporter.Prelude.{
  ℕ, zero, suc, ◌+◌, ◌≡◌, ◌≢◌, ◌⊎◌, Option, none, some, List, [], ◌∷◌, ◌++◌, All, length,
  if◌then◌else◌,
}
use infiniband_exporter.Text.{Text, codes, split}
use infiniband_exporter.Text.Cut.{Lacks, unlines}
use infiniband_exporter.Float.{Float64}
use infiniband_exporter.Device.{InfinibandDevice}
use infiniband_exporter.Perfquery.Counters.{
  Counter, port_xmit_data, port_rcv_data, counter_name, same, field_by_name, PerfQueryCounters,
}

-- A line of a counter, with its dots and its value, or any other line.
pub data Line : Type 0 where
  reading : Counter → ℕ → Text → Line
  noise : Text → Line

-- A `PortSelect` line with its dots, and the lines below it.
pub record Block : Type 0 where
  pub port : Text
  pub dots : ℕ
  pub lines : List Line

abbrev pub padded : ℕ → Text → Text
padded zero value = value
padded (suc n) value = b'.' ∷ padded n value

abbrev pub print_field : Text → ℕ → Text → Text
print_field name dots value = name ++ b':' ∷ padded dots value

abbrev pub print_line : Line → Text
print_line (reading c dots value) = print_field (counter_name c) dots value
print_line (noise text) = text

abbrev pub print_lines : List Line → List Text
print_lines [] = []
print_lines (l ∷ ls) = print_line l ∷ print_lines ls

abbrev pub print_blocks : List Block → List Text
print_blocks [] = []
print_blocks (b ∷ bs) =
    print_field (codes "PortSelect") b.dots b.port ∷ (print_lines b.lines ++ print_blocks bs)

abbrev pub print_report : List Text → List Block → Text
print_report head bs = unlines (head ++ print_blocks bs)

-- A value holds no separator.
pub record IsPlain (t : Text) : Type 0 where
  pub no_colon : Lacks b':' t
  pub no_dot : Lacks b'.' t
  pub no_newline : Lacks b'\n' t

-- A line with no field of the struct: it has not two parts, or its name is unknown.
abbrev pub IsNoise : Text → Type 0
IsNoise t =
    Lacks b'\n' t
    × ((length (split t b':') ≢ 2)
        ⊎ ((name value : Text) × (t ≡ name ++ b':' ∷ value)
            × Lacks b':' name
            × Lacks b':' value
            × (field_by_name name ≡ none)))

abbrev pub IsLine : Line → Type 0
IsLine (reading c dots value) = IsPlain value
IsLine (noise text) = IsNoise text

abbrev pub IsBlock : Block → Type 0
IsBlock b = IsPlain b.port × All IsLine b.lines

abbrev pub ports : List Block → List Text
ports [] = []
ports (b ∷ bs) = b.port ∷ ports bs

module _ {F : Type 0} (fl : Float64 F) where
  -- The two data counters count words of four bytes.
  abbrev pub in_bytes : Counter → F → F
  in_bytes port_xmit_data v = fl.mul v (fl.decimal 4 0)
  in_bytes port_rcv_data v = fl.mul v (fl.decimal 4 0)
  in_bytes _ v = v

  -- A value that is no number is passed over.
  abbrev pub or_before : Option F → Counter → F → F
  or_before none c before = before
  or_before (some v) c before = in_bytes c v

  -- The last number that the lines give for a counter.
  abbrev pub latest : Counter → List Line → F → F
  latest c [] before = before
  latest c (reading d dots value ∷ ls) before =
      latest c ls (if same d c then or_before (fl.parse_float value) d before else before)
  latest c (noise text ∷ ls) before = latest c ls before

  abbrev pub bad_number : Option F → ℕ
  bad_number none = 1
  bad_number (some v) = 0

  -- The readings that are no numbers.
  abbrev pub bad_readings : List Line → ℕ
  bad_readings [] = 0
  bad_readings (reading c dots value ∷ ls) = bad_number (fl.parse_float value) + bad_readings ls
  bad_readings (noise text ∷ ls) = bad_readings ls

  abbrev pub bad_report : List Block → ℕ
  bad_report [] = 0
  bad_report (b ∷ bs) = bad_readings b.lines + bad_report bs

  -- The counters that a block stands for.
  abbrev pub block_counters : InfinibandDevice F → Block → PerfQueryCounters F
  block_counters device b = record {
    device = device;
    port_select = b.port;
    value = λ c. latest c b.lines fl.nan;
  }
