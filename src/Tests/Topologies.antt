-- ===== src/Tests/Topologies.antt =====
-- Examples of the parser of `ibnetdiscover`, on lines of its output.
use infiniband_exporter.Prelude.{ℕ, ◌≡◌, refl, true, false, Option, none, some, [], ◌∷◌, ◌++◌, map}
use mathlib.Core.List.{reverse, reverse_perm}
use infiniband_exporter.Text.{Text, codes, fields, split}
use infiniband_exporter.Dict.{Dict, RangeOrder, get}
use infiniband_exporter.Device.{InfinibandDevice}
use infiniband_exporter.Discover.Parse.{
  Parsed, ok, error, panic, Topology, parse_lines, ibnetdiscover_parse,
}
use infiniband_exporter.Discover.Parse.Panic.{parse_lines-five}
use infiniband_exporter.Discover.Parse.Listed.{
  IsListed, ibnetdiscover_parse-IsListed, ibnetdiscover_parse-order,
}
use infiniband_exporter.Discover.Parse.Filed.{IsFiled, ibnetdiscover_parse-IsFiled}
use infiniband_exporter.Tests.{numbers, in_order, device}

abbrev switch_line : Text
switch_line = codes "SW  1719 10 0x7cfe 4x EDR - CA 134 1 0x7cfd ( 'ib-i4l1s01' - 'p0001 HCA-1' )"

abbrev hca_line : Text
hca_line = codes "CA   134  1 0x7cfd 4x EDR - SW  1719 10 0x7cfe ( 'p0001 HCA-1' - 'ib-i4l1s01' )"

abbrev down_line : Text
down_line = codes "SW  1719 37 0x7cfe 4x ??? 'ib-i4l1s01'"

abbrev pub output : Text
output = switch_line ++ b'\n' ∷ (down_line ++ b'\n' ∷ (hca_line ++ b'\n' ∷ []))

-- A line of five words.
abbrev short_line : Text
short_line = codes "SW 1719 10 0x7cfe 4x"

parse_lines-five_example :
    parse_lines numbers false [] ([] ++ short_line ∷ switch_line ∷ []) ≡ panic
parse_lines-five_example =
    parse_lines-five numbers false [] [] [] (switch_line ∷ []) short_line
      (unfold parse_lines in refl)
      (unfold fields infiniband_exporter.Text.fields_from infiniband_exporter.Text.is_space in refl)

-- What the two functions make of the output, for the examples.
abbrev or_default : {A : Type 0} → A → Parsed A → A
or_default a (ok b) = b
or_default a (error e) = a
or_default a panic = a

abbrev pub found : Topology (Option ℕ)
unfolding ibnetdiscover_parse
found =
    or_default (record { switches = []; hcas = [] })
      (ibnetdiscover_parse numbers in_order true output)

abbrev reached : Dict (InfinibandDevice (Option ℕ))
unfolding parse_lines split
reached = or_default [] (parse_lines numbers true [] (split output b'\n'))

pub output-found : ibnetdiscover_parse numbers in_order true output ≡ ok found
unfolding found
output-found = refl

down_ports_found :
    map (λ (d : InfinibandDevice (Option ℕ)). d.down_ports) found.switches ≡ (codes "37" ∷ []) ∷ []
unfolding found
down_ports_found = refl

ibnetdiscover_parse-IsListed_example : IsListed found
ibnetdiscover_parse-IsListed_example =
    ibnetdiscover_parse-IsListed numbers in_order true output found output-found

abbrev hca : InfinibandDevice (Option ℕ)
unfolding get
hca = or_device (get (codes "0x7cfd") reached)
  where
    or_device : Option (InfinibandDevice (Option ℕ)) → InfinibandDevice (Option ℕ)
    or_device none = device
    or_device (some d) = d

ibnetdiscover_parse-IsFiled_example :
    (t : Topology (Option ℕ)) × ((ibnetdiscover_parse numbers in_order true output ≡ ok t)
      × IsFiled t hca)
ibnetdiscover_parse-IsFiled_example =
    ibnetdiscover_parse-IsFiled numbers in_order true output reached (codes "0x7cfd") hca
      (unfold reached in refl) (unfold reached hca in refl)

-- `range` in the reverse order.
abbrev reversed : RangeOrder
reversed = record { arrange = reverse; arrange-perm = λ ks. reverse_perm ks }

ibnetdiscover_parse-order_example :
    ibnetdiscover_parse numbers in_order true output
    ≡ ibnetdiscover_parse numbers reversed true output
ibnetdiscover_parse-order_example = ibnetdiscover_parse-order numbers in_order reversed true output
