-- ===== src/Ibswinfo/Full/Head.antt =====
-- What the first lines of the output do to what has been read.
use infiniband_exporter.Prelude.{ℕ, ◌≡◌, refl, ◌∙◌, some, List, [], ◌++◌}
use infiniband_exporter.Text.{Text, codes, equal, is_space, has_prefix}
use infiniband_exporter.Float.{Float64}
use infiniband_exporter.Ibswinfo.{Ibswinfo}
use infiniband_exporter.Ibswinfo.Uptime.{parse_uptime}
use infiniband_exporter.Ibswinfo.Vitals.{or_nan}
use infiniband_exporter.Ibswinfo.Full.{
  FullState, key_line, full_lines, set_static, hardware_line, uptime_line, start_psu, find_at,
  psu_at, fan_at, set_psu_texts, set_number, store_psu, set_fan_status, add_fan,
}
use infiniband_exporter.Ibswinfo.Full.Report.{Report, head_lines, IsReport}
use infiniband_exporter.Ibswinfo.Full.Psus.{next}
use infiniband_exporter.Ibswinfo.Full.Sections.{
  behind, full_lines-divider, full_lines-title, full_lines-double,
}

module _ {F : Type 0} (fl : Float64 F) where
  -- Before the power supplies.
  abbrev pub before : Ibswinfo F → ℕ → FullState F
  before sw n = behind fl sw [] [] [] n

  module _ (sw : Ibswinfo F) (n : ℕ) (v : Text) where
    key_line-part_number :
        key_line fl (before sw n) (codes "part number") v
        ≡ some (before (record sw { part_number = v }) n)
    unfolding key_line set_static has_prefix equal hardware_line start_psu set_psu_texts set_number
        store_psu set_fan_status add_fan find_at psu_at fan_at
    key_line-part_number = refl

    key_line-serial_number :
        key_line fl (before sw n) (codes "serial number") v
        ≡ some (before (record sw { serial_number = v }) n)
    unfolding key_line set_static has_prefix equal hardware_line start_psu set_psu_texts set_number
        store_psu set_fan_status add_fan find_at psu_at fan_at
    key_line-serial_number = refl

    key_line-product_name : key_line fl (before sw n) (codes "product name") v ≡ some (before sw n)
    unfolding key_line set_static has_prefix equal hardware_line start_psu set_psu_texts set_number
        store_psu set_fan_status add_fan find_at psu_at fan_at
    key_line-product_name = refl

    key_line-revision : key_line fl (before sw n) (codes "revision") v ≡ some (before sw n)
    unfolding key_line set_static has_prefix equal hardware_line start_psu set_psu_texts set_number
        store_psu set_fan_status add_fan find_at psu_at fan_at
    key_line-revision = refl

    key_line-ports : key_line fl (before sw n) (codes "ports") v ≡ some (before sw n)
    unfolding key_line set_static has_prefix equal hardware_line start_psu set_psu_texts set_number
        store_psu set_fan_status add_fan find_at psu_at fan_at
    key_line-ports = refl

    key_line-psid :
        key_line fl (before sw n) (codes "PSID") v ≡ some (before (record sw { psid = v }) n)
    unfolding key_line set_static has_prefix equal hardware_line start_psu set_psu_texts set_number
        store_psu set_fan_status add_fan find_at psu_at fan_at
    key_line-psid = refl

    key_line-guid : key_line fl (before sw n) (codes "GUID") v ≡ some (before sw n)
    unfolding key_line set_static has_prefix equal hardware_line start_psu set_psu_texts set_number
        store_psu set_fan_status add_fan find_at psu_at fan_at
    key_line-guid = refl

    key_line-firmware :
        key_line fl (before sw n) (codes "firmware version") v
        ≡ some (before (record sw { firmware_version = v }) n)
    unfolding key_line set_static has_prefix equal hardware_line start_psu set_psu_texts set_number
        store_psu set_fan_status add_fan find_at psu_at fan_at
    key_line-firmware = refl

    key_line-uptime :
        (x : F)
        → parse_uptime fl v ≡ some x
        → key_line fl (before sw n) (codes "uptime (d-h:m:s)") v
          ≡ some (before (record sw { uptime = or_nan fl (parse_uptime fl v) }) n)
    unfolding uptime_line key_line set_static has_prefix equal hardware_line start_psu set_psu_texts
        set_number store_psu set_fan_status add_fan find_at psu_at fan_at
    key_line-uptime x e = rw e refl

  abbrev pub head_said : Ibswinfo F → Report → Ibswinfo F
  head_said sw r = record sw {
    part_number = r.part_number;
    serial_number = r.serial_number;
    psid = r.psid;
    firmware_version = r.firmware_version;
    uptime = or_nan fl (parse_uptime fl r.uptime);
  }

  module _ (pad : Text → ℕ) where
    pub full_lines-head :
        (sw : Ibswinfo F) (r : Report) (ls : List Text)
        → IsReport fl r
        → full_lines fl (before sw 0) (head_lines pad r ++ ls)
          ≡ full_lines fl (before (head_said sw r) 2) ls
    unfolding is_space
    full_lines-head sw r ls
          (
            (_, no_bar, no_divider),
            hpart,
            hserial,
            hname,
            hrev,
            hports,
            hpsid,
            hguid,
            hfw,
            (hup, (x, e)),
            _,
            _,
            _,
            _,
            _,
          ) =
        let sw1 = record sw { part_number = r.part_number } in
        let sw2 = record sw1 { serial_number = r.serial_number } in
        let sw3 = record sw2 { psid = r.psid } in
        let sw4 = record sw3 { firmware_version = r.firmware_version } in
        full_lines-double fl _ _
        ∙ full_lines-title fl _ r.title _ no_bar no_divider
        ∙ full_lines-double fl _ _
        ∙ next fl pad 0 b'p' (codes "art numbe") b'r' refl r.part_number _ _ _ hpart
            (key_line-part_number sw 0 r.part_number)
        ∙ next fl pad 0 b's' (codes "erial numbe") b'r' refl r.serial_number _ _ _ hserial
            (key_line-serial_number sw1 0 r.serial_number)
        ∙ next fl pad 0 b'p' (codes "roduct nam") b'e' refl r.product_name _ _ _ hname
            (key_line-product_name sw2 0 r.product_name)
        ∙ next fl pad 0 b'r' (codes "evisio") b'n' refl r.revision _ _ _ hrev
            (key_line-revision sw2 0 r.revision)
        ∙ next fl pad 0 b'p' (codes "ort") b's' refl r.ports _ _ _ hports
            (key_line-ports sw2 0 r.ports)
        ∙ next fl pad 0 b'P' (codes "SI") b'D' refl r.psid _ _ _ hpsid (key_line-psid sw2 0 r.psid)
        ∙ next fl pad 0 b'G' (codes "UI") b'D' refl r.guid _ _ _ hguid (key_line-guid sw3 0 r.guid)
        ∙ next fl pad 0 b'f' (codes "irmware versio") b'n' refl r.firmware_version _ _ _ hfw
            (key_line-firmware sw3 0 r.firmware_version)
        ∙ full_lines-divider fl sw4 [] [] [] 0 _
        ∙ next fl pad 0 b'u' (codes "ptime (d-h:m:s") b')' refl r.uptime _ _ _ hup
            (key_line-uptime sw4 1 r.uptime x e)
        ∙ full_lines-divider fl (head_said sw r) [] [] [] 1 _
