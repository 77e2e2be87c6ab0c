-- ===== src/Tests/Swinfos.antt =====
-- Examples of the ibswinfo collector.
use infiniband_exporter.Prelude.{
  ℕ, ◌-◌, ◌<◌, ◌≡◌, ◌⊎◌, map, refl, true, Option, none, some, [], ◌∷◌, All, arith,
}
use infiniband_exporter.Prelude.Int.{pos, pos_part}
use infiniband_exporter.Text.{Text, codes, equal}
use infiniband_exporter.Dict.{get}
use infiniband_exporter.Metrics.{Clock, IsConsistent}
use infiniband_exporter.Ibswinfo.{SwitchPowerSupply, SwitchFan, Ibswinfo}
use infiniband_exporter.Ibswinfo.Vitals.{parse_ibswinfo_vitals}
use infiniband_exporter.Ibswinfo.Full.{parse_ibswinfo}
use infiniband_exporter.Ibswinfo.Cache.{StaticCache, use_vitals_for_guid, entry_of, restore, evict}
use infiniband_exporter.Ibswinfo.Cache.Laws.{
  psu_ids, use_vitals_for_guid_lem, Has, HasNot, evict_lem, given, last_with, restore-entry_of,
}
use infiniband_exporter.Ibswinfo.Collector.{new_ibswinfo_collector, swinfos_series}
use infiniband_exporter.Ibswinfo.Collector.Series.{IsFit, ibswinfo_series-IsFit}
use infiniband_exporter.Ibswinfo.Worker.{SwitchFabric, Swinfos, CollectsSwinfos}
use infiniband_exporter.Dict.Laws.{Distinct}
use infiniband_exporter.Ibswinfo.Worker.FullFlags.{parse_ibswinfo_lem}
use infiniband_exporter.Ibswinfo.Worker.Up.{IsUp, swinfos-IsUp, collect_swinfos_returns}
use infiniband_exporter.Tests.{numbers, in_order, device}

abbrev pub empty_swinfo : Ibswinfo (Option ℕ)
empty_swinfo = record {
  device = device;
  part_number = [];
  serial_number = [];
  psid = [];
  firmware_version = [];
  uptime = some 0;
  power_supplies = [];
  temp = some 0;
  fan_status = [];
  fans = [];
  duration = some 1;
  error = some 0;
  timeout = some 0;
}

abbrev full_output : Text
full_output =
    codes
      "part number        | MSB7790-ES2F\n-------------------------------------------------\nuptime (d-h:m:s)   | 160d-10:38:53\n-------------------------------------------------\nPSU0 status        | OK\n     DC power      | OK\n     fan status    | OK\n     power (W)     | 72\nPSU1 status        | ERROR\n     power (W)     | 71\n-------------------------------------------------\ntemperature (C)    | 45\n-------------------------------------------------\nfan status         | ERROR\nfan#1 (rpm)        | 8493\n"

abbrev vitals_output : Text
vitals_output =
    codes
      "uptime (sec)       : 16982312\npsu0.power (W)     : 92\ncur.temp (C)       : 73\nfan#1.speed (rpm)  : 6355\nfan#2.speed (rpm)  : \n"

abbrev full_psu : SwitchPowerSupply (Option ℕ)
full_psu = record {
  id = codes "0";
  status = codes "OK";
  dc_power = codes "OK";
  fan_status = codes "OK";
  power_w = some 72;
}

abbrev second_psu : SwitchPowerSupply (Option ℕ)
second_psu = record {
  id = codes "1";
  status = codes "ERROR";
  dc_power = [];
  fan_status = [];
  power_w = some 71;
}

-- An uptime of 160 days, 10 hours, 38 minutes and 53 seconds.
abbrev full_data : Ibswinfo (Option ℕ)
full_data = record empty_swinfo {
  part_number = codes "MSB7790-ES2F";
  uptime = some 13862333;
  power_supplies = full_psu ∷ second_psu ∷ [];
  temp = some 45;
  fan_status = codes "ERROR";
  fans = record { id = codes "1"; rpm = some 8493 } ∷ [];
}

full_output_parsed : parse_ibswinfo numbers in_order full_output empty_swinfo ≡ some full_data
unfolding parse_ibswinfo
full_output_parsed = refl

abbrev vitals_psu : SwitchPowerSupply (Option ℕ)
vitals_psu = record {
  id = codes "0";
  status = [];
  dc_power = [];
  fan_status = [];
  power_w = some 92;
}

abbrev vitals_data : Ibswinfo (Option ℕ)
vitals_data = record empty_swinfo {
  uptime = some 16982312;
  power_supplies = vitals_psu ∷ [];
  temp = some 73;
  fans = record { id = codes "1"; rpm = some 6355 } ∷ record { id = codes "2"; rpm = none } ∷ [];
}

vitals_output_parsed :
    parse_ibswinfo_vitals numbers in_order vitals_output empty_swinfo ≡ vitals_data
unfolding parse_ibswinfo_vitals
vitals_output_parsed = refl

restore-entry_of_example : restore (entry_of full_data 10) vitals_data ≡ record vitals_data {
  part_number = full_data.part_number;
  serial_number = full_data.serial_number;
  psid = full_data.psid;
  firmware_version = full_data.firmware_version;
  fan_status = full_data.fan_status;
  power_supplies =
      map
        (λ (q : SwitchPowerSupply (Option ℕ)).
          given (last_with q.id full_data.power_supplies none) q)
        vitals_data.power_supplies;
}
restore-entry_of_example = restore-entry_of full_data vitals_data 10

abbrev cache : StaticCache
cache = (codes "0x7cfe", entry_of full_data 10) ∷ (codes "0x0001", entry_of full_data 10) ∷ []

use_vitals_for_guid_lem_example :
    (get (codes "0x7cfe") cache ≡ some (entry_of full_data 10))
    × (50 - (entry_of full_data 10).last_refresh < 100)
use_vitals_for_guid_lem_example =
    use_vitals_for_guid_lem (pos 100) 50 cache (codes "0x7cfe") (entry_of full_data 10)
      (unfold use_vitals_for_guid equal entry_of in refl)

evict_lem_example :
    ((0 < pos_part (pos 100))
      × HasNot (device ∷ []) (codes "0x0001")
      × (get (codes "0x0001") (evict (pos 100) (device ∷ []) cache) ≡ none))
    ⊎ (((pos_part (pos 100) ≡ 0) ⊎ Has (device ∷ []) (codes "0x0001"))
        × (get (codes "0x0001") (evict (pos 100) (device ∷ []) cache) ≡ get (codes "0x0001") cache))
evict_lem_example = evict_lem (pos 100) (device ∷ []) cache (codes "0x0001")

abbrev clock : Clock (Option ℕ)
clock = record { seconds = some 2; now = some 1700000000 }

ibswinfo_series-IsFit_example :
    All
      (IsFit numbers (device ∷ []) true)
      (swinfos_series numbers (new_ibswinfo_collector (device ∷ []) true) (full_data ∷ []))
    × All IsConsistent (
        infiniband_exporter.Ibswinfo.Collector.collect_series numbers
          (new_ibswinfo_collector (device ∷ []) true)
          clock
          (full_data ∷ [])
          3
          1)
ibswinfo_series-IsFit_example =
    ibswinfo_series-IsFit numbers (device ∷ []) true clock (full_data ∷ []) 3 1

-- The switch answers a full run.
abbrev pub fabric : SwitchFabric (Option ℕ)
fabric = record {
  exec = λ lid vitals. (full_output, none);
  elapsed = λ lid vitals. some 2;
  checked = λ guid. 50;
  stored = λ guid. 60;
  order = in_order;
}

abbrev pub before : Swinfos (Option ℕ)
before = record { swinfos = []; cache = []; errors_total = 0; timeouts_total = 0 }

abbrev pub returned :
    (result : Swinfos (Option ℕ)) × CollectsSwinfos numbers
      (pos 100)
      fabric
      4
      (device ∷ [])
      before
      result
returned = collect_swinfos_returns numbers (pos 100) fabric 4 (device ∷ []) before (omega arith)

swinfos-IsUp_example : All (IsUp numbers (device ∷ [])) returned.0.swinfos
swinfos-IsUp_example =
    swinfos-IsUp numbers (pos 100) fabric 4 (device ∷ []) before returned.0 returned.1

parse_ibswinfo_lem_example :
    Distinct (psu_ids full_data.power_supplies)
    × (full_data.error ≡ empty_swinfo.error)
    × (full_data.timeout ≡ empty_swinfo.timeout)
parse_ibswinfo_lem_example =
    parse_ibswinfo_lem numbers in_order full_output empty_swinfo full_data full_output_parsed
