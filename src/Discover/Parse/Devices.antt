-- ===== src/Discover/Parse/Devices.antt =====
-- The devices that `ibnetdiscoverParse` returns: each under its own GUID, in the order of the GUIDs.
use infiniband_exporter.Prelude.{
  ◌≡◌, refl, sym, Bool, Option, none, some, List, [], ◌∷◌, ◌++◌, All, Bool-cases, ◌&&◌, ◌==◌,
  length, get_elem?, ltb, if_holds, inl, inr,
}
use infiniband_exporter.Text.{Text, codes, equal, fields}
use infiniband_exporter.Text.Equal.{equal_iff}
use infiniband_exporter.Dict.{Dict, put, keys}
use infiniband_exporter.Dict.Laws.{Distinct, put-Distinct}
use infiniband_exporter.Float.{Float64}
use infiniband_exporter.Device.{InfinibandDevice, InfinibandUplink}
use infiniband_exporter.Discover.Names.{parse_names}
use infiniband_exporter.Discover.Items.{word, merge_name}
use infiniband_exporter.Discover.Rate.{Rate, rates, rate_error, parse_rate}
use infiniband_exporter.Discover.Parse.{
  Parsed, ok, error, panic, and_then, identified, named, rated, read_uplink, store_linked,
  store_device, with_names, up_line, down_line, items_line, parse_line, parse_lines,
}

module _ {F : Type 0} where
  -- The device stands under its GUID.
  abbrev pub IsOwn : Text × InfinibandDevice F → Type 0
  IsOwn (guid, device) = device.guid ≡ guid

  -- Each device stands under its GUID, and no GUID twice.
  abbrev pub IsKeyed : Dict (InfinibandDevice F) → Type 0
  IsKeyed devices = All IsOwn devices × Distinct (keys devices)

  put-IsOwn :
      (device : InfinibandDevice F) (m : Dict (InfinibandDevice F))
      → All IsOwn m
      → All IsOwn (put device.guid device m)
  unfolding put
  put-IsOwn device [] h = (refl, tt)
  put-IsOwn device ((j, d) ∷ m) (hj, h) = elim (Bool-cases (equal j device.guid)) [
    | inl e ↦ rw e (sym ((equal_iff j device.guid).0 e), h)
    | inr e ↦ rw e (hj, put-IsOwn device m h)
  ]

  put-IsKeyed :
      (device : InfinibandDevice F) (m : Dict (InfinibandDevice F))
      → IsKeyed m
      → IsKeyed (put device.guid device m)
  put-IsKeyed device m (own, distinct) =
      (put-IsOwn device m own, put-Distinct device.guid device m distinct)

  -- A result that has devices has keyed ones.
  abbrev pub HasKeyed : Parsed (Dict (InfinibandDevice F)) → Type 0
  HasKeyed (ok devices) = IsKeyed devices
  HasKeyed (error e) = Unit
  HasKeyed panic = Unit

  and_then-HasKeyed :
      (r : Parsed (Dict (InfinibandDevice F)))
      (f : Dict (InfinibandDevice F) → Parsed (Dict (InfinibandDevice F)))
      → HasKeyed r
      → ((devices : Dict (InfinibandDevice F)) → IsKeyed devices → HasKeyed (f devices))
      → HasKeyed (and_then r f)
  and_then-HasKeyed (ok devices) f hr hf = hf devices hr
  and_then-HasKeyed (error e) f hr hf = tt
  and_then-HasKeyed panic f hr hf = tt

module _ {F : Type 0} (fl : Float64 F) (port_state : Bool) where
  down_line-IsKeyed :
      (devices : Dict (InfinibandDevice F)) (line : Text) (items : List Text)
      → IsKeyed devices
      → IsKeyed (down_line fl port_state devices line items)
  unfolding down_line
  down_line-IsKeyed devices line items h =
      if_holds IsKeyed port_state _ devices
        (put-IsKeyed
          (record (named fl port_state (parse_names line)
            (identified fl port_state devices items)) {
              down_ports =
                  (named fl port_state (parse_names line)
                    (identified fl port_state devices items)).down_ports
                  ++ word items 2 ∷ [];
            })
          devices h)
        h

  store_linked-IsKeyed :
      (devices : Dict (InfinibandDevice F)) (port name : Text) (device : InfinibandDevice F)
      (uplink : Option (InfinibandUplink F))
      → IsKeyed devices
      → HasKeyed (store_linked fl port_state devices port name device uplink)
  unfolding store_linked
  store_linked-IsKeyed devices port name device none h = tt
  store_linked-IsKeyed devices port name device (some uplink) h =
      put-IsKeyed
        (record device {
          uplinks = put port uplink device.uplinks;
          switch = uplink.name;
          name = name;
        })
        devices h

  with_names-IsKeyed :
      (devices : Dict (InfinibandDevice F)) (items : List Text) (rate : Rate fl)
      (names : Option (Text × Text))
      → IsKeyed devices
      → HasKeyed (with_names fl port_state devices items rate names)
  unfolding with_names store_device
  with_names-IsKeyed devices items (rate_error e) names h = tt
  with_names-IsKeyed devices items (rates raw effective) none h = tt
  with_names-IsKeyed devices items (rates raw effective) (some (name, [])) h =
      put-IsKeyed
        (record (rated fl port_state raw effective (identified fl port_state devices items)) {
          name = name;
        })
        devices h
  with_names-IsKeyed devices items (rates raw effective) (some (name, c ∷ link)) h =
      store_linked-IsKeyed devices (word items 2) name
        (rated fl port_state raw effective (identified fl port_state devices items))
        (read_uplink fl port_state items (c ∷ link) raw effective) h

  items_line-IsKeyed :
      (devices : Dict (InfinibandDevice F)) (line : Text) (items : List Text) (sixth : Option Text)
      → IsKeyed devices
      → HasKeyed (items_line fl port_state devices line items sixth)
  unfolding items_line up_line
  items_line-IsKeyed devices line items none h = tt
  items_line-IsKeyed devices line items (some sixth) h =
      if_holds HasKeyed (equal sixth (codes "???")) _ _ (down_line-IsKeyed devices line items h) (
        if_holds HasKeyed
          (equal (word (merge_name items) 5) (codes "SDR") && length (merge_name items) == 7) _ _ h
          (with_names-IsKeyed devices (merge_name items)
            (parse_rate fl (word (merge_name items) 4) (word (merge_name items) 5))
            (parse_names line) h))

  pub parse_lines-IsKeyed :
      (devices : Dict (InfinibandDevice F)) (lines : List Text)
      → IsKeyed devices
      → HasKeyed (parse_lines fl port_state devices lines)
  unfolding parse_lines parse_line
  parse_lines-IsKeyed devices [] h = h
  parse_lines-IsKeyed devices (line ∷ lines) h =
      and_then-HasKeyed (parse_line fl port_state devices line) _
        (if_holds HasKeyed (ltb (length (fields line)) 5) _ _ h
          (items_line-IsKeyed devices line (fields line) (get_elem? (fields line) 5) h))
        (λ reached keyed. parse_lines-IsKeyed reached lines keyed)
