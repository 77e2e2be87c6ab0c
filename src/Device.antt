-- ===== src/Device.antt =====
-- collectors/ibnetdiscover.go: the devices of the fabric and their links.
use infiniband_exporter.Prelude.{List}
use infiniband_exporter.Text.{Text}
use infiniband_exporter.Dict.{Dict}

pub record InfinibandUplink (F : Type 0) : Type 0 where
  pub type : Text
  pub lid : Text
  pub port_number : Text
  pub guid : Text
  pub name : Text
  pub rate : F
  pub raw_rate : F

pub record InfinibandDevice (F : Type 0) : Type 0 where
  pub type : Text
  pub lid : Text
  pub guid : Text
  pub rate : F
  pub raw_rate : F
  pub name : Text
  pub uplinks : Dict (InfinibandUplink F)
  pub switch : Text
  pub down_ports : List Text
