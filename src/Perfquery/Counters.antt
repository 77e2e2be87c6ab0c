-- ===== src/Perfquery/Counters.antt =====
-- The `PerfQueryCounters` struct of collectors/perfquery.go. Its 28 float fields, which the parser
-- sets by reflection, are a function of the field.
use infiniband_exporter.Prelude.{
  ℕ, ◌≡◌, refl, Bool, true, List, [], ◌∷◌, Option, none, some, ap, sym, ◌∙◌, arith, ==_iff,
  get_elem?, ◌==◌, if◌then◌else◌,
}
use infiniband_exporter.Text.{Text, codes}
use infiniband_exporter.Dict.{Dict, get}
use infiniband_exporter.Float.{Float64}
use infiniband_exporter.Device.{InfinibandDevice}

-- The float fields, in the order of the struct.
pub data Counter : Type 0 where
  port_xmit_data port_rcv_data port_xmit_pkts port_rcv_pkts : Counter
  port_unicast_xmit_pkts port_unicast_rcv_pkts : Counter
  port_multicast_xmit_pkts port_multicast_rcv_pkts : Counter
  symbol_error_counter link_error_recovery_counter link_downed_counter : Counter
  port_rcv_errors port_rcv_remote_physical_errors port_rcv_switch_relay_errors : Counter
  port_xmit_discards port_xmit_constraint_errors port_rcv_constraint_errors : Counter
  local_link_integrity_errors excessive_buffer_overrun_errors vl15_dropped : Counter
  port_xmit_wait qp1_dropped : Counter
  port_local_physical_errors port_malformed_pkt_errors port_buffer_overrun_errors : Counter
  port_dlid_mapping_errors port_vl_mapping_errors port_looping_errors : Counter

abbrev pub all_counters : List Counter
all_counters =
    port_xmit_data ∷ port_rcv_data ∷ port_xmit_pkts ∷ port_rcv_pkts ∷ port_unicast_xmit_pkts
    ∷ port_unicast_rcv_pkts ∷ port_multicast_xmit_pkts ∷ port_multicast_rcv_pkts
    ∷ symbol_error_counter ∷ link_error_recovery_counter ∷ link_downed_counter ∷ port_rcv_errors
    ∷ port_rcv_remote_physical_errors ∷ port_rcv_switch_relay_errors ∷ port_xmit_discards
    ∷ port_xmit_constraint_errors ∷ port_rcv_constraint_errors ∷ local_link_integrity_errors
    ∷ excessive_buffer_overrun_errors ∷ vl15_dropped ∷ port_xmit_wait ∷ qp1_dropped
    ∷ port_local_physical_errors ∷ port_malformed_pkt_errors ∷ port_buffer_overrun_errors
    ∷ port_dlid_mapping_errors ∷ port_vl_mapping_errors ∷ port_looping_errors ∷ []

-- The Go name of the field.
unfoldable pub counter_name : Counter → Text
counter_name port_xmit_data = codes "PortXmitData"
counter_name port_rcv_data = codes "PortRcvData"
counter_name port_xmit_pkts = codes "PortXmitPkts"
counter_name port_rcv_pkts = codes "PortRcvPkts"
counter_name port_unicast_xmit_pkts = codes "PortUnicastXmitPkts"
counter_name port_unicast_rcv_pkts = codes "PortUnicastRcvPkts"
counter_name port_multicast_xmit_pkts = codes "PortMulticastXmitPkts"
counter_name port_multicast_rcv_pkts = codes "PortMulticastRcvPkts"
counter_name symbol_error_counter = codes "SymbolErrorCounter"
counter_name link_error_recovery_counter = codes "LinkErrorRecoveryCounter"
counter_name link_downed_counter = codes "LinkDownedCounter"
counter_name port_rcv_errors = codes "PortRcvErrors"
counter_name port_rcv_remote_physical_errors = codes "PortRcvRemotePhysicalErrors"
counter_name port_rcv_switch_relay_errors = codes "PortRcvSwitchRelayErrors"
counter_name port_xmit_discards = codes "PortXmitDiscards"
counter_name port_xmit_constraint_errors = codes "PortXmitConstraintErrors"
counter_name port_rcv_constraint_errors = codes "PortRcvConstraintErrors"
counter_name local_link_integrity_errors = codes "LocalLinkIntegrityErrors"
counter_name excessive_buffer_overrun_errors = codes "ExcessiveBufferOverrunErrors"
counter_name vl15_dropped = codes "VL15Dropped"
counter_name port_xmit_wait = codes "PortXmitWait"
counter_name qp1_dropped = codes "QP1Dropped"
counter_name port_local_physical_errors = codes "PortLocalPhysicalErrors"
counter_name port_malformed_pkt_errors = codes "PortMalformedPktErrors"
counter_name port_buffer_overrun_errors = codes "PortBufferOverrunErrors"
counter_name port_dlid_mapping_errors = codes "PortDLIDMappingErrors"
counter_name port_vl_mapping_errors = codes "PortVLMappingErrors"
counter_name port_looping_errors = codes "PortLoopingErrors"

-- The place of the field in the struct, behind `device` and `PortSelect`.
unfoldable pub index : Counter → ℕ
index port_xmit_data = 0
index port_rcv_data = 1
index port_xmit_pkts = 2
index port_rcv_pkts = 3
index port_unicast_xmit_pkts = 4
index port_unicast_rcv_pkts = 5
index port_multicast_xmit_pkts = 6
index port_multicast_rcv_pkts = 7
index symbol_error_counter = 8
index link_error_recovery_counter = 9
index link_downed_counter = 10
index port_rcv_errors = 11
index port_rcv_remote_physical_errors = 12
index port_rcv_switch_relay_errors = 13
index port_xmit_discards = 14
index port_xmit_constraint_errors = 15
index port_rcv_constraint_errors = 16
index local_link_integrity_errors = 17
index excessive_buffer_overrun_errors = 18
index vl15_dropped = 19
index port_xmit_wait = 20
index qp1_dropped = 21
index port_local_physical_errors = 22
index port_malformed_pkt_errors = 23
index port_buffer_overrun_errors = 24
index port_dlid_mapping_errors = 25
index port_vl_mapping_errors = 26
index port_looping_errors = 27

index-get_elem? : (c : Counter) → get_elem? all_counters (index c) ≡ some c
unfolding index
index-get_elem? port_xmit_data = refl
index-get_elem? _ = refl

get_or_first : Option Counter → Counter
get_or_first none = port_xmit_data
get_or_first (some c) = c

pub index_inj : (c d : Counter) → index c ≡ index d → c ≡ d
unfolding get_or_first
index_inj c d h =
    ap get_or_first
      (sym (index-get_elem? c) ∙ ap (λ i. get_elem? all_counters i) h ∙ index-get_elem? d)

unfoldable pub same : Counter → Counter → Bool
same c d = index c == index d

pub same_refl : (c : Counter) → same c c ≡ true
unfolding same
same_refl c = ground arith

pub same_sound : (c d : Counter) → same c d ≡ true → c ≡ d
unfolding same
same_sound c d h = index_inj c d ((==_iff _ _).0 h)

-- What `FieldByName` finds: the kind of a field decides what the parser does with it.
pub data Field : Type 0 where
  device_field : Field
  port_select_field : Field
  counter_field : Counter → Field

counter_fields : List Counter → Dict Field
counter_fields [] = []
counter_fields (c ∷ cs) = (counter_name c, counter_field c) ∷ counter_fields cs

-- The fields of the struct with their names, in its order.
unfoldable pub struct_fields : Dict Field
unfolding counter_fields counter_name
struct_fields =
    (codes "device", device_field)
    ∷ (codes "PortSelect", port_select_field)
    ∷ counter_fields all_counters

-- `s.FieldByName(name)`; `none` is the invalid value.
unfoldable pub field_by_name : Text → Option Field
unfolding struct_fields get
field_by_name name = get name struct_fields

-- Every field is found by its name.
pub field_by_name-counter_name :
    (c : Counter) → field_by_name (counter_name c) ≡ some (counter_field c)
unfolding field_by_name counter_name infiniband_exporter.Text.equal
field_by_name-counter_name port_xmit_data = refl
field_by_name-counter_name _ = refl

pub record PerfQueryCounters (F : Type 0) : Type 0 where
  pub device : InfinibandDevice F
  pub port_select : Text
  pub value : Counter → F

module _ {F : Type 0} where
  -- `f.SetFloat(v)` on the field of `c`
  unfoldable pub set_value : Counter → F → PerfQueryCounters F → PerfQueryCounters F
  unfolding same
  set_value c v counters = record counters { value = λ d. if same c d then v else counters.value d }

-- A fresh entry of `perfqueryParse`: the zero value, then `initializeCounters`, then the device.
unfoldable pub initialize_counters :
    {F : Type 0} → Float64 F → InfinibandDevice F → PerfQueryCounters F
initialize_counters fl device = record { device = device; port_select = []; value = λ _. fl.nan }
