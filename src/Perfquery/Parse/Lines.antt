-- ===== src/Perfquery/Parse/Lines.antt =====
-- What one line does to the state of the parser.
use infiniband_exporter.Prelude.{
  ℕ, zero, suc, ◌+◌, ◌≡◌, refl, ◌≢◌, inl, inr, Option, none, some, List, [], ◌∷◌, arith, length,
  Bool-cases, true, false, Bool, if◌then◌else◌,
}
use infiniband_exporter.Text.{Text, codes, equal, has_suffix, split, remove_all}
use infiniband_exporter.Text.Cut.{Lacks, split-Lacks, split-append, remove_all-Lacks}
use infiniband_exporter.Text.Equal.{equal_sound}
use infiniband_exporter.Dict.{Dict, get, put}
use infiniband_exporter.Dict.Laws.{put-get}
use native.Mathlib.Nat.{add-zero}
use infiniband_exporter.Float.{Float64}
use infiniband_exporter.Device.{InfinibandDevice}
use infiniband_exporter.Perfquery.Counters.{
  Counter, port_xmit_data, counter_name, port_select_field, field_by_name,
  field_by_name-counter_name, PerfQueryCounters, set_value, same,
}
use infiniband_exporter.Perfquery.Parse.{
  ParseState, current, scaled, set_float, set_field, set_line, parse_items, parse_line,
}
use infiniband_exporter.Perfquery.Parse.Report.{
  padded, print_field, IsPlain, IsNoise, in_bytes, or_before, bad_number,
}

padded-Lacks : (n : ℕ) (t : Text) → Lacks b':' t → Lacks b':' (padded n t)
padded-Lacks zero t h = h
padded-Lacks (suc n) t h = (omega arith, padded-Lacks n t h)

remove_all-padded : (n : ℕ) (t : Text) → Lacks b'.' t → remove_all b'.' (padded n t) ≡ t
unfolding remove_all
remove_all-padded zero t h = remove_all-Lacks b'.' t h
remove_all-padded (suc n) t h = remove_all-padded n t h

pub counter_name-Lacks : (c : Counter) → Lacks b':' (counter_name c)
unfolding counter_name
counter_name-Lacks port_xmit_data = omega arith
counter_name-Lacks _ = omega arith

counter_name-ne-port_select : (c : Counter) → equal (counter_name c) (codes "PortSelect") ≡ false
unfolding counter_name equal
counter_name-ne-port_select port_xmit_data = refl
counter_name-ne-port_select _ = refl

if-same {ℓ} : {A : Type ℓ} (b : Bool) (a : A) → (if b then a else a) ≡ a
if-same true a = refl
if-same false a = refl

port_select-found : field_by_name (codes "PortSelect") ≡ some port_select_field
unfolding field_by_name equal
port_select-found = refl

unknown-ne-port_select :
    (name : Text) → field_by_name name ≡ none → equal name (codes "PortSelect") ≡ false
unknown-ne-port_select name h = elim (Bool-cases (equal name (codes "PortSelect"))) [
  | inl e ↦ cc (equal_sound name (codes "PortSelect") e, port_select-found)
  | inr e ↦ e
]

module _ {F : Type 0} (fl : Float64 F) (device : InfinibandDevice F) where
  parse_items-wrong_number :
      (st : ParseState F) (items : List Text)
      → length items ≢ 2
      → parse_items fl device st items ≡ st
  unfolding parse_items
  parse_items-wrong_number st [] h = refl
  parse_items-wrong_number st (a ∷ []) h = refl
  parse_items-wrong_number st (a ∷ (b ∷ [])) h = absurd (h refl)
  parse_items-wrong_number st (a ∷ (b ∷ (c ∷ rest))) h = refl

  set_line-unknown :
      (st : ParseState F) (name value : Text)
      → field_by_name name ≡ none
      → set_line fl device st name value ≡ st
  unfolding set_line
  set_line-unknown st name value h =
      rw (unknown-ne-port_select name h, h) (unfold set_field in refl)

  scaled-counter_name :
      (c : Counter) (v : F) → scaled fl device (counter_name c) v ≡ in_bytes fl c v
  unfolding scaled counter_name infiniband_exporter.Text.has_prefix
  scaled-counter_name port_xmit_data v = refl
  scaled-counter_name _ v = refl

  pub parse_line-print_field :
      (st : ParseState F) (name : Text) (dots : ℕ) (value : Text)
      → Lacks b':' name
      → IsPlain value
      → parse_line fl device st (print_field name dots value) ≡ set_line fl device st name value
  unfolding parse_line
  parse_line-print_field st name dots value hn hv =
      rw
        (
          split-append name (padded dots value) b':' hn,
          split-Lacks (padded dots value) b':' (padded-Lacks dots value hv.no_colon),
        )
        (unfold parse_items in rw (remove_all-padded dots value hv.no_dot))

  current-port :
      (p : Text) (m : Dict (PerfQueryCounters F)) {counters : PerfQueryCounters F}
      → get p m ≡ some counters
      → current fl device p m ≡ counters
  unfolding current
  current-port p m h = rw h

  -- What a reading does to the counters of its port.
  unfoldable pub read_into : Counter → Option F → PerfQueryCounters F → PerfQueryCounters F
  read_into c v counters = record counters {
    value = λ d. if same c d then or_before fl v c (counters.value d) else counters.value d;
  }

  read_into-none :
      (c : Counter) (counters : PerfQueryCounters F) → read_into c none counters ≡ counters
  unfolding read_into
  read_into-none c counters =
      λ i. record counters { value = λ d. if-same (same c d) (counters.value d) i }

  set_float-read_into :
      (st : ParseState F) (c : Counter) {counters : PerfQueryCounters F} (v : Option F)
      → get st.port st.port_counters ≡ some counters
      → set_float fl device st (counter_name c) c counters v ≡ record st {
        errors = st.errors + bad_number fl v;
        port_counters = put st.port (read_into c v counters) st.port_counters;
      }
  unfolding set_float
  set_float-read_into st c {counters} none h =
      rw (read_into-none c counters, put-get st.port counters st.port_counters h)
  set_float-read_into st c {counters} (some v) h =
      rw (scaled-counter_name c v, add-zero) (unfold read_into set_value in refl)

  pub set_line-reading :
      (st : ParseState F) (c : Counter) (value : Text) {counters : PerfQueryCounters F}
      → get st.port st.port_counters ≡ some counters
      → set_line fl device st (counter_name c) value ≡ record st {
        errors = st.errors + bad_number fl (fl.parse_float value);
        port_counters = put st.port (read_into c (fl.parse_float value) counters) st.port_counters;
      }
  unfolding set_line
  set_line-reading st c value {counters} h =
      rw
        (
          counter_name-ne-port_select c,
          field_by_name-counter_name c,
          current-port st.port st.port_counters h,
        )
        (unfold set_field in set_float-read_into st c (fl.parse_float value) h)

  -- A `PortSelect` line begins a fresh entry for a port that is not yet known.
  pub set_line-port_select :
      (st : ParseState F) (p : Text)
      → get p st.port_counters ≡ none
      → set_line fl device st (codes "PortSelect") p ≡ record st {
        port = p;
        port_counters =
            put p
              (record { device = device; port_select = p; value = λ _. fl.nan })
              st.port_counters;
      }
  unfolding set_line
  set_line-port_select st p h = rw h

  pub parse_line-noise : (st : ParseState F) (t : Text) → IsNoise t → parse_line fl device st t ≡ st
  unfolding parse_line
  parse_line-noise st t (_, inl n) = parse_items-wrong_number st (split t b':') n
  parse_line-noise st t (_, inr (name, value, e, hn, hv, unknown)) =
      rw (e, split-append name value b':' hn, split-Lacks value b':' hv)
        (set_line-unknown st name (remove_all b'.' value) unknown)
