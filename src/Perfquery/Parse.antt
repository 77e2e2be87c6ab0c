-- ===== src/Perfquery/Parse.antt =====
-- `perfqueryParse`. The error count, a `float64` in the source that is turned into a `uint64`, is a ℕ.
pub mod Report
pub mod Printing
pub mod Lines
pub mod RoundTrip
use infiniband_exporter.Prelude.{ℕ, ◌+◌, Option, none, some, List, [], ◌∷◌, map, if◌then◌else◌}
use infiniband_exporter.Text.{Text, codes, equal, has_suffix, split, remove_all}
use infiniband_exporter.Dict.{Dict, RangeOrder, get, put, range}
use infiniband_exporter.Float.{Float64}
use infiniband_exporter.Device.{InfinibandDevice}
use infiniband_exporter.Perfquery.Counters.{
  Counter, Field, device_field, port_select_field, counter_field, field_by_name, PerfQueryCounters,
  set_value, initialize_counters,
}

-- The variables of the loop.
pub record ParseState (F : Type 0) : Type 0 where
  pub port : Text
  pub errors : ℕ
  pub port_counters : Dict (PerfQueryCounters F)

module _ {F : Type 0} (fl : Float64 F) (device : InfinibandDevice F) where
  abbrev or_fresh : Option (PerfQueryCounters F) → PerfQueryCounters F
  unfolding initialize_counters
  or_fresh none = initialize_counters fl device
  or_fresh (some counter) = counter

  -- `portCounters[port]`, or a fresh entry
  unfoldable pub current : Text → Dict (PerfQueryCounters F) → PerfQueryCounters F
  unfolding get initialize_counters
  current port m = or_fresh (get port m)

  abbrev pub store : ParseState F → PerfQueryCounters F → ParseState F
  store st counter = record st { port_counters = put st.port counter st.port_counters }

  -- The words of InfiniBand are four bytes.
  unfoldable pub scaled : Text → F → F
  unfolding has_suffix
  scaled name v = if has_suffix name (codes "Data") then fl.mul v (fl.decimal 4 0) else v

  unfoldable pub set_float :
      ParseState F → Text → Counter → PerfQueryCounters F → Option F → ParseState F
  unfolding scaled set_value put
  set_float st name c counter none = record st { errors = st.errors + 1 }
  set_float st name c counter (some v) = store st (set_value c (scaled name v) counter)

  -- The switch on the kind of the field.
  unfoldable pub set_field :
      ParseState F → Text → Text → PerfQueryCounters F → Option Field → ParseState F
  unfolding set_float
  set_field st name value counter none = st
  set_field st name value counter (some device_field) = store st counter
  set_field st name value counter (some port_select_field) =
      store st (record counter { port_select = value })
  set_field st name value counter (some (counter_field c)) =
      set_float st name c counter (fl.parse_float value)

  -- A line of two parts.
  unfoldable pub set_line : ParseState F → Text → Text → ParseState F
  unfolding current set_field equal field_by_name
  set_line st name value =
      let st' = record st { port = if equal name (codes "PortSelect") then value else st.port } in
      set_field st' name value (current st'.port st.port_counters) (field_by_name name)

  unfoldable pub parse_items : ParseState F → List Text → ParseState F
  unfolding set_line remove_all
  parse_items st [] = st
  parse_items st (name ∷ []) = st
  parse_items st (name ∷ (value ∷ [])) = set_line st name (remove_all b'.' value)
  parse_items st (name ∷ (value ∷ (more ∷ rest))) = st

  unfoldable pub parse_line : ParseState F → Text → ParseState F
  unfolding parse_items split
  parse_line st line = parse_items st (split line b':')

  unfoldable pub parse_lines : ParseState F → List Text → ParseState F
  unfolding parse_line
  parse_lines st [] = st
  parse_lines st (line ∷ lines) = parse_lines (parse_line st line) lines

abbrev pub initial : {F : Type 0} → ParseState F
initial = record { port = []; errors = 0; port_counters = [] }

-- `for _, counter := range portCounters` comes last, in whatever order.
unfoldable pub perfquery_parse :
    {F : Type 0}
    → Float64 F
    → RangeOrder
    → InfinibandDevice F
    → Text
    → List (PerfQueryCounters F) × ℕ
unfolding parse_lines range split
perfquery_parse {F} fl ord device out =
    let st = parse_lines fl device initial (split out b'\n') in
    (map (λ (e : Text × PerfQueryCounters F). e.1) (range ord st.port_counters), st.errors)
