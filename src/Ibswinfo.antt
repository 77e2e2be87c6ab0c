-- ===== src/Ibswinfo.antt =====
-- collectors/ibswinfo.go: what `ibswinfo` reads of a switch.
pub mod Vitals
pub mod Uptime
pub mod Full
pub mod Cache
pub mod Worker
pub mod Collector
use infiniband_exporter.Prelude.{List, []}
use infiniband_exporter.Text.{Text}
use infiniband_exporter.Float.{Float64}
use infiniband_exporter.Device.{InfinibandDevice}

pub record SwitchPowerSupply (F : Type 0) : Type 0 where
  pub id : Text
  pub status : Text
  pub dc_power : Text
  pub fan_status : Text
  pub power_w : F

pub record SwitchFan (F : Type 0) : Type 0 where
  pub id : Text
  pub rpm : F

pub record Ibswinfo (F : Type 0) : Type 0 where
  pub device : InfinibandDevice F
  pub part_number : Text
  pub serial_number : Text
  pub psid : Text
  pub firmware_version : Text
  pub uptime : F
  pub power_supplies : List (SwitchPowerSupply F)
  pub temp : F
  pub fan_status : Text
  pub fans : List (SwitchFan F)
  pub duration : F
  pub error : F
  pub timeout : F
