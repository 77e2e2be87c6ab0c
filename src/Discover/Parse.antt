-- ===== src/Discover/Parse.antt =====
-- `ibnetdiscoverParse`.
pub mod Panic
pub mod Devices
pub mod Listed
pub mod Filed
use infiniband_exporter.Prelude.{
  ℕ, Bool, true, false, ◌&&◌, Option, none, some, List, [], ◌∷◌, ◌++◌, length, get_elem?, ltb, ◌==◌,
  if◌then◌else◌,
}
use infiniband_exporter.Text.{Text, codes, equal, fields, split}
use infiniband_exporter.Dict.{Dict, RangeOrder, get, put, keys}
use infiniband_exporter.Float.{Float64}
use infiniband_exporter.Device.{InfinibandDevice, InfinibandUplink}
use infiniband_exporter.Discover.Names.{parse_names}
use infiniband_exporter.Discover.Rate.{RateError, Rate, rates, rate_error, parse_rate}
use infiniband_exporter.Discover.Items.{word, merge_name}
use infiniband_exporter.Discover.Sort.{sort_strings}

pub data ParseError : Type 0 where
  bad_rate : RateError → ParseError
  bad_names : ParseError

-- The function returns a value or an error, or panics on an index out of range.
pub data Parsed (A : Type 0) : Type 0 where
  ok : A → Parsed A
  error : ParseError → Parsed A
  panic : Parsed A

-- An error or a panic ends the function.
abbrev pub and_then : {A B : Type 0} → Parsed A → (A → Parsed B) → Parsed B
and_then (ok a) f = f a
and_then (error e) f = error e
and_then panic f = panic

module _ {F : Type 0} (fl : Float64 F) (port_state : Bool) where
  -- The zero value with its map made.
  abbrev pub new_device : InfinibandDevice F
  new_device = record {
    type = [];
    lid = [];
    guid = [];
    rate = fl.decimal 0 0;
    raw_rate = fl.decimal 0 0;
    name = [];
    uplinks = [];
    switch = [];
    down_ports = [];
  }

  abbrev pub or_new : Option (InfinibandDevice F) → InfinibandDevice F
  or_new none = new_device
  or_new (some device) = device

  -- The device of a line, with its type, LID and GUID.
  abbrev pub identified : Dict (InfinibandDevice F) → List Text → InfinibandDevice F
  identified devices items = record (or_new (get (word items 3) devices)) {
    type = word items 0;
    lid = word items 1;
    guid = word items 3;
  }

  abbrev pub named : Option (Text × Text) → InfinibandDevice F → InfinibandDevice F
  named none device = device
  named (some (name, link)) device = record device { name = name }

  -- A line with `???`
  unfoldable pub down_line :
      Dict (InfinibandDevice F) → Text → List Text → Dict (InfinibandDevice F)
  unfolding get put parse_names
  down_line devices line items =
      if port_state
      then (let device = named (parse_names line) (identified devices items) in
          put device.guid (record device { down_ports = device.down_ports ++ word items 2 ∷ [] })
            devices)
      else devices

  -- The rates go to the device of an HCA.
  abbrev pub rated : F → F → InfinibandDevice F → InfinibandDevice F
  rated raw effective device =
      if equal device.type (codes "CA")
      then record device { rate = effective; raw_rate = raw }
      else device

  -- `items[7]` to `items[10]`; a missing word is an index out of range.
  unfoldable pub read_uplink : List Text → Text → F → F → Option (InfinibandUplink F)
  read_uplink items name raw effective = elim (get_elem? items 10) [
    | none ↦ none
    | some guid ↦ some (record {
      type = word items 7;
      lid = word items 8;
      port_number = word items 9;
      guid = guid;
      name = name;
      rate = effective;
      raw_rate = raw;
    })
  ]

  unfoldable pub store_linked :
      Dict (InfinibandDevice F)
      → Text
      → Text
      → InfinibandDevice F
      → Option (InfinibandUplink F)
      → Parsed (Dict (InfinibandDevice F))
  unfolding put
  store_linked devices port name device none = panic
  store_linked devices port name device (some uplink) = ok (
      put device.guid
        (record device {
          uplinks = put port uplink device.uplinks;
          switch = uplink.name;
          name = name;
        })
        devices)

  -- Behind `parseNames`: a link only if it has a name.
  unfoldable pub store_device :
      Dict (InfinibandDevice F)
      → List Text
      → F
      → F
      → InfinibandDevice F
      → Text
      → Text
      → Parsed (Dict (InfinibandDevice F))
  unfolding read_uplink store_linked put
  store_device devices items raw effective device name [] =
      ok (put device.guid (record device { name = name }) devices)
  store_device devices items raw effective device name (c ∷ link) =
      store_linked devices (word items 2) name device (read_uplink items (c ∷ link) raw effective)

  unfoldable pub with_names :
      Dict (InfinibandDevice F)
      → List Text
      → Rate fl
      → Option (Text × Text)
      → Parsed (Dict (InfinibandDevice F))
  unfolding store_device get equal
  with_names devices items (rate_error e) names = error (bad_rate e)
  with_names devices items (rates raw effective) none = error bad_names
  with_names devices items (rates raw effective) (some (name, link)) =
      store_device devices items raw effective (rated raw effective (identified devices items)) name
        link

  -- A line of a port that is connected.
  unfoldable pub up_line :
      Dict (InfinibandDevice F) → Text → List Text → Parsed (Dict (InfinibandDevice F))
  unfolding with_names parse_rate parse_names equal
  up_line devices line items =
      if equal (word items 5) (codes "SDR") && length items == 7
      then ok devices
      else with_names devices items (parse_rate fl (word items 4) (word items 5)) (parse_names line)

  -- The tests on the words; the test asks for five, and the next line reads the sixth.
  unfoldable pub items_line :
      Dict (InfinibandDevice F)
      → Text
      → List Text
      → Option Text
      → Parsed (Dict (InfinibandDevice F))
  unfolding down_line up_line merge_name equal
  items_line devices line items none = panic
  items_line devices line items (some sixth) =
      if equal sixth (codes "???")
      then ok (down_line devices line items)
      else up_line devices line (merge_name items)

  unfoldable pub parse_line : Dict (InfinibandDevice F) → Text → Parsed (Dict (InfinibandDevice F))
  unfolding items_line fields
  parse_line devices line =
      let items = fields line in
      if ltb (length items) 5 then ok devices else items_line devices line items (get_elem? items 5)

  unfoldable pub parse_lines :
      Dict (InfinibandDevice F) → List Text → Parsed (Dict (InfinibandDevice F))
  unfolding parse_line
  parse_lines devices [] = ok devices
  parse_lines devices (line ∷ lines) =
      and_then (parse_line devices line) (λ devices'. parse_lines devices' lines)

-- The switches and the HCAs.
pub record Topology (F : Type 0) : Type 0 where
  pub switches : List (InfinibandDevice F)
  pub hcas : List (InfinibandDevice F)

module _ {F : Type 0} where
  abbrev pub add_device : Option (InfinibandDevice F) → Topology F → Topology F
  add_device none t = t
  add_device (some d) t =
      if equal d.type (codes "CA")
      then record t { hcas = d ∷ t.hcas }
      else if equal d.type (codes "SW")
      then record t { switches = d ∷ t.switches }
      else t

  -- The loop over the sorted GUIDs.
  unfoldable pub by_type : Dict (InfinibandDevice F) → List Text → Topology F
  unfolding get equal
  by_type devices [] = record { switches = []; hcas = [] }
  by_type devices (guid ∷ guids) = add_device (get guid devices) (by_type devices guids)

  unfoldable pub get_device_guids : RangeOrder → Dict (InfinibandDevice F) → List Text
  unfolding keys
  get_device_guids ord devices = ord.arrange (keys devices)

  unfoldable pub topology : RangeOrder → Dict (InfinibandDevice F) → Topology F
  unfolding by_type get_device_guids sort_strings
  topology ord devices = by_type devices (sort_strings (get_device_guids ord devices))

  unfoldable pub finish : RangeOrder → Parsed (Dict (InfinibandDevice F)) → Parsed (Topology F)
  unfolding topology
  finish ord (ok devices) = ok (topology ord devices)
  finish ord (error e) = error e
  finish ord panic = panic

  -- The flag is `--collector.switch.port-state`.
  unfoldable pub ibnetdiscover_parse : Float64 F → RangeOrder → Bool → Text → Parsed (Topology F)
  unfolding parse_lines finish split
  ibnetdiscover_parse fl ord port_state out =
      finish ord (parse_lines fl port_state [] (split out b'\n'))
