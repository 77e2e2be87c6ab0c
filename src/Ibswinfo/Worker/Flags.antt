-- ===== src/Ibswinfo/Worker/Flags.antt =====
-- The parsers leave the error and the timeout of the data as they are.
use infiniband_exporter.Prelude.{◌≡◌, Option, none, some, List, [], ◌∷◌, if_holds}
use infiniband_exporter.Text.{Text, codes, equal, split, trim_space}
use infiniband_exporter.Dict.{RangeOrder}
use infiniband_exporter.Float.{Float64}
use infiniband_exporter.Discover.Names.{cut_at}
use infiniband_exporter.Ibswinfo.{Ibswinfo}
use infiniband_exporter.Ibswinfo.Vitals.{
  VitalsState, set_uptime, set_temp, set_psu_or_fan, set_key, psu_of, fan_of, vitals_parts,
  vitals_lines, vitals_start, parse_ibswinfo_vitals,
}

module _ {F : Type 0} (error timeout : F) where
  abbrev pub HasFlags : Ibswinfo F → Type 0
  HasFlags swinfo = (swinfo.error ≡ error) × (swinfo.timeout ≡ timeout)

  module _ (fl : Float64 F) where
    set_uptime-HasFlags :
        (st : VitalsState F) (o : Option F)
        → HasFlags st.swinfo
        → HasFlags (set_uptime fl st o).swinfo
    set_uptime-HasFlags st none h = h
    set_uptime-HasFlags st (some sec) h = h

    set_temp-HasFlags :
        (st : VitalsState F) (o : Option F)
        → HasFlags st.swinfo
        → HasFlags (set_temp fl st o).swinfo
    set_temp-HasFlags st none h = h
    set_temp-HasFlags st (some temp) h = h

    set_psu_or_fan-HasFlags :
        (st : VitalsState F) (value : Text) (psu fan : Option Text)
        → HasFlags st.swinfo
        → HasFlags (set_psu_or_fan fl st value psu fan).swinfo
    unfolding set_psu_or_fan
    set_psu_or_fan-HasFlags st value (some id) fan h = h
    set_psu_or_fan-HasFlags st value none (some id) h = h
    set_psu_or_fan-HasFlags st value none none h = h

    set_key-HasFlags :
        (st : VitalsState F) (key value : Text)
        → HasFlags st.swinfo
        → HasFlags (set_key fl st key value).swinfo
    unfolding set_key
    set_key-HasFlags st key value h =
        if_holds (λ (s : VitalsState F). HasFlags s.swinfo) (equal key (codes "uptime (sec)")) _ _
          (set_uptime-HasFlags st (fl.parse_float value) h)
          (if_holds (λ (s : VitalsState F). HasFlags s.swinfo) (equal key (codes "cur.temp (C)")) _
            _ (set_temp-HasFlags st (fl.parse_float value) h)
            (set_psu_or_fan-HasFlags st value (psu_of key) (fan_of key) h))

    vitals_parts-HasFlags :
        (st : VitalsState F) (parts : Option (Text × Text))
        → HasFlags st.swinfo
        → HasFlags (vitals_parts fl st parts).swinfo
    unfolding vitals_parts
    vitals_parts-HasFlags st none h = h
    vitals_parts-HasFlags st (some (key, value)) h =
        set_key-HasFlags st (trim_space key) (trim_space value) h

    vitals_lines-HasFlags :
        (st : VitalsState F) (lines : List Text)
        → HasFlags st.swinfo
        → HasFlags (vitals_lines fl st lines).swinfo
    unfolding vitals_lines
    vitals_lines-HasFlags st [] h = h
    vitals_lines-HasFlags st (line ∷ lines) h =
        vitals_lines-HasFlags (vitals_parts fl st (cut_at b':' line)) lines
          (vitals_parts-HasFlags st (cut_at b':' line) h)

    pub parse_ibswinfo_vitals-HasFlags :
        (ord : RangeOrder) (out : Text) (swinfo : Ibswinfo F)
        → HasFlags swinfo
        → HasFlags (parse_ibswinfo_vitals fl ord out swinfo)
    unfolding parse_ibswinfo_vitals
    parse_ibswinfo_vitals-HasFlags ord out swinfo h =
        vitals_lines-HasFlags (vitals_start fl swinfo) (split out b'\n') h
