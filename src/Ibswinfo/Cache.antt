-- ===== src/Ibswinfo/Cache.antt =====
-- The cache of the fields that `-o vitals` leaves out, by GUID.
pub mod Laws
use infiniband_exporter.Prelude.{
  ℕ, ◌-◌, Bool, true, false, not, Option, none, some, List, [], ◌∷◌, ltb, if◌then◌else◌,
}
use infiniband_exporter.Prelude.Int.{ℤ, pos_part}
use infiniband_exporter.Text.{Text, equal}
use infiniband_exporter.Dict.{Dict, get, put}
use infiniband_exporter.Device.{InfinibandDevice}
use infiniband_exporter.Ibswinfo.{SwitchPowerSupply, Ibswinfo}

pub record PsuStatus : Type 0 where
  pub id : Text
  pub status : Text
  pub dc_power : Text
  pub fan_status : Text

pub record IbswinfoCacheEntry : Type 0 where
  pub part_number : Text
  pub serial_number : Text
  pub psid : Text
  pub firmware_version : Text
  pub psu_statuses : List PsuStatus
  pub fan_status : Text
  -- a reading of the monotonic clock in nanoseconds
  pub last_refresh : ℕ

-- `sync.Map`
abbrev pub StaticCache : Type 0
StaticCache = Dict IbswinfoCacheEntry

abbrev pub fresh_entry : ℤ → ℕ → Option IbswinfoCacheEntry → Option IbswinfoCacheEntry
fresh_entry ttl now none = none
fresh_entry ttl now (some entry) =
    if ltb (now - entry.last_refresh) (pos_part ttl) then some entry else none

-- `useVitalsForGUID`: the entry if it is to be used.
unfoldable pub use_vitals_for_guid : ℤ → ℕ → StaticCache → Text → Option IbswinfoCacheEntry
unfolding get
use_vitals_for_guid ttl now cache guid =
    if ltb 0 (pos_part ttl) then fresh_entry ttl now (get guid cache) else none

-- `statusByID`
unfoldable pub status_by_id : List PsuStatus → Dict PsuStatus → Dict PsuStatus
unfolding put
status_by_id [] m = m
status_by_id (p ∷ ps) m = status_by_id ps (put p.id p m)

module _ {F : Type 0} where
  abbrev pub psu_statuses : List (SwitchPowerSupply F) → List PsuStatus
  psu_statuses [] = []
  psu_statuses (p ∷ ps) =
      record { id = p.id; status = p.status; dc_power = p.dc_power; fan_status = p.fan_status }
      ∷ psu_statuses ps

  -- What a full output stores.
  unfoldable pub entry_of : Ibswinfo F → ℕ → IbswinfoCacheEntry
  entry_of swinfo now = record {
    part_number = swinfo.part_number;
    serial_number = swinfo.serial_number;
    psid = swinfo.psid;
    firmware_version = swinfo.firmware_version;
    psu_statuses = psu_statuses swinfo.power_supplies;
    fan_status = swinfo.fan_status;
    last_refresh = now;
  }

  abbrev pub with_status : Option PsuStatus → SwitchPowerSupply F → SwitchPowerSupply F
  with_status none psu = psu
  with_status (some cps) psu = record psu {
    status = cps.status;
    dc_power = cps.dc_power;
    fan_status = cps.fan_status;
  }

  unfoldable pub restore_psus :
      Dict PsuStatus → List (SwitchPowerSupply F) → List (SwitchPowerSupply F)
  unfolding get
  restore_psus m [] = []
  restore_psus m (psu ∷ psus) = with_status (get psu.id m) psu ∷ restore_psus m psus

  -- The cached fields come back to the swinfo of a vitals output.
  unfoldable pub restore : IbswinfoCacheEntry → Ibswinfo F → Ibswinfo F
  unfolding restore_psus status_by_id
  restore cached swinfo = record swinfo {
    part_number = cached.part_number;
    serial_number = cached.serial_number;
    psid = cached.psid;
    firmware_version = cached.firmware_version;
    fan_status = cached.fan_status;
    power_supplies = restore_psus (status_by_id cached.psu_statuses []) swinfo.power_supplies;
  }

-- `_, ok := seen[k]`
unfoldable pub seen : {F : Type 0} → List (InfinibandDevice F) → Text → Bool
unfolding equal
seen [] guid = false
seen (d ∷ ds) guid = let later = seen ds guid in if equal d.guid guid then true else later

unfoldable pub delete_unseen : {F : Type 0} → List (InfinibandDevice F) → StaticCache → StaticCache
unfolding seen
delete_unseen ds [] = []
delete_unseen ds ((guid, entry) ∷ cache) =
    let rest = delete_unseen ds cache in if seen ds guid then (guid, entry) ∷ rest else rest

-- The end of `collect`.
unfoldable pub evict : {F : Type 0} → ℤ → List (InfinibandDevice F) → StaticCache → StaticCache
unfolding delete_unseen
evict ttl ds cache = if ltb 0 (pos_part ttl) then delete_unseen ds cache else cache
