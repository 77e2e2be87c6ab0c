-- ===== src/Metrics/PortCounters.antt =====
-- collectors/port_counters.go: the metric of each port counter. The help texts are left out.
pub mod Laws
use Prim.Native.String.{String}
use infiniband_exporter.Prelude.{
  Bool, true, false, List, [], ◌∷◌, ◌++◌, Option, none, some, if◌then◌else◌,
}
use infiniband_exporter.Text.{Text, codes}
use infiniband_exporter.Dict.{Dict, get, put}
use infiniband_exporter.Float.{Float64}
use infiniband_exporter.Metrics.{Desc, Metric, counter_value, new_const_metric}
use infiniband_exporter.Perfquery.Counters.{
  Counter, port_xmit_data, port_rcv_data, port_xmit_pkts, port_rcv_pkts, port_unicast_xmit_pkts,
  port_unicast_rcv_pkts, port_multicast_xmit_pkts, port_multicast_rcv_pkts, symbol_error_counter,
  link_error_recovery_counter, link_downed_counter, port_rcv_errors,
  port_rcv_remote_physical_errors, port_rcv_switch_relay_errors, port_xmit_discards,
  port_xmit_constraint_errors, port_rcv_constraint_errors, local_link_integrity_errors,
  excessive_buffer_overrun_errors, vl15_dropped, port_xmit_wait, qp1_dropped,
  port_local_physical_errors, port_malformed_pkt_errors, port_buffer_overrun_errors,
  port_dlid_mapping_errors, port_vl_mapping_errors, port_looping_errors, PerfQueryCounters,
}

pub record PortCounterDef : Type 0 where
  pub name : Text
  -- the field that `Get` reads
  pub counter : Counter

abbrev port_counter_def : String → Counter → PortCounterDef
port_counter_def name counter = record { name = codes name; counter = counter }

abbrev pub port_counter_defs : List PortCounterDef
port_counter_defs =
    port_counter_def "port_transmit_data_bytes_total" port_xmit_data
    ∷ port_counter_def "port_receive_data_bytes_total" port_rcv_data
    ∷ port_counter_def "port_transmit_packets_total" port_xmit_pkts
    ∷ port_counter_def "port_receive_packets_total" port_rcv_pkts
    ∷ port_counter_def "port_unicast_transmit_packets_total" port_unicast_xmit_pkts
    ∷ port_counter_def "port_unicast_receive_packets_total" port_unicast_rcv_pkts
    ∷ port_counter_def "port_multicast_transmit_packets_total" port_multicast_xmit_pkts
    ∷ port_counter_def "port_multicast_receive_packets_total" port_multicast_rcv_pkts
    ∷ port_counter_def "port_symbol_error_total" symbol_error_counter
    ∷ port_counter_def "port_link_error_recovery_total" link_error_recovery_counter
    ∷ port_counter_def "port_link_downed_total" link_downed_counter
    ∷ port_counter_def "port_receive_errors_total" port_rcv_errors
    ∷ port_counter_def "port_receive_remote_physical_errors_total" port_rcv_remote_physical_errors
    ∷ port_counter_def "port_receive_switch_relay_errors_total" port_rcv_switch_relay_errors
    ∷ port_counter_def "port_transmit_discards_total" port_xmit_discards
    ∷ port_counter_def "port_transmit_constraint_errors_total" port_xmit_constraint_errors
    ∷ port_counter_def "port_receive_constraint_errors_total" port_rcv_constraint_errors
    ∷ port_counter_def "port_local_link_integrity_errors_total" local_link_integrity_errors
    ∷ port_counter_def "port_excessive_buffer_overrun_errors_total" excessive_buffer_overrun_errors
    ∷ port_counter_def "port_vl15_dropped_total" vl15_dropped
    ∷ port_counter_def "port_transmit_wait_total" port_xmit_wait
    ∷ port_counter_def "port_qp1_dropped_total" qp1_dropped
    ∷ port_counter_def "port_local_physical_errors_total" port_local_physical_errors
    ∷ port_counter_def "port_malformed_packet_errors_total" port_malformed_pkt_errors
    ∷ port_counter_def "port_buffer_overrun_errors_total" port_buffer_overrun_errors
    ∷ port_counter_def "port_dlid_mapping_errors_total" port_dlid_mapping_errors
    ∷ port_counter_def "port_vl_mapping_errors_total" port_vl_mapping_errors
    ∷ port_counter_def "port_looping_errors_total" port_looping_errors
    ∷ []

unfoldable pub build_descs : Text → List Text → List PortCounterDef → Dict Desc → Dict Desc
unfolding put
build_descs subsystem labels [] descs = descs
build_descs subsystem labels (def ∷ defs) descs = build_descs subsystem labels defs (
    put def.name (record { subsystem = subsystem; name = def.name; variable_labels = labels })
      descs)

unfoldable pub build_port_counter_descs : Text → List Text → Dict Desc
unfolding build_descs
build_port_counter_descs subsystem labels = build_descs subsystem labels port_counter_defs []

module _ {F : Type 0} (fl : Float64 F) where
  abbrev pub emit_value : Option Desc → F → List Text → List (Metric F)
  emit_value none value labels = []
  emit_value (some desc) value labels = new_const_metric desc counter_value value labels ∷ []

  unfoldable pub emit_defs :
      List PortCounterDef → Dict Desc → PerfQueryCounters F → List Text → List (Metric F)
  unfolding get
  emit_defs [] descs c labels = []
  emit_defs (def ∷ defs) descs c labels =
      (if fl.is_nan (c.value def.counter)
        then []
        else emit_value (get def.name descs) (c.value def.counter) labels)
      ++ emit_defs defs descs c labels

  unfoldable pub emit_port_counters : Dict Desc → PerfQueryCounters F → List Text → List (Metric F)
  unfolding emit_defs
  emit_port_counters = emit_defs port_counter_defs
