-- ===== src/Ibswinfo/Worker/FullFlags.antt =====
-- The parser of the full output: it leaves the error and the timeout, and gives each power supply once.
use infiniband_exporter.Prelude.{
  ◌≡◌, refl, ap, Bool, true, false, ◌&&◌, Option, none, some, List, [], ◌∷◌, ltb, not, if_holds,
}
use infiniband_exporter.Text.{Text, codes, equal, has_prefix, split, trim_space}
use infiniband_exporter.Dict.{RangeOrder}
use infiniband_exporter.Float.{Float64}
use infiniband_exporter.Discover.Names.{◌>>=◌}
use infiniband_exporter.Ibswinfo.{SwitchPowerSupply, Ibswinfo}
use infiniband_exporter.Ibswinfo.Uptime.{parse_uptime}
use infiniband_exporter.Ibswinfo.Full.{
  FullState, set_static, set_psu_id, in_psu, set_number, store_psu, set_fan_status, add_fan,
  find_at, psu_at, fan_at, hardware_line, uptime_line, key_line, full_parts, count_divider,
  full_lines, full_start, full_end, parse_ibswinfo,
}
use infiniband_exporter.Ibswinfo.Vitals.{with_ids}
use infiniband_exporter.Ibswinfo.Cache.Laws.{psu_ids}
use infiniband_exporter.Dict.{range, keys}
use infiniband_exporter.Dict.Laws.{Distinct, put-Distinct, range-Distinct}
use mathlib.Core.Path.{subst}
use infiniband_exporter.Ibswinfo.Worker.Flags.{HasFlags as HasBoth}

module _ {F : Type 0} (error timeout : F) where
  abbrev HasFlags : Ibswinfo F → Type 0
  HasFlags = HasBoth error timeout

  module _ (fl : Float64 F) where
    -- The flags are kept, and each power supply is stored once.
    abbrev IsGood : FullState F → Type 0
    IsGood st = HasFlags st.swinfo × Distinct (keys st.psus)

    abbrev AllHave : Option (FullState F) → Type 0
    AllHave none = Unit
    AllHave (some st) = IsGood st

    bind-AllHave :
        {A : Type 0} (o : Option A) (f : A → Option (FullState F))
        → ((a : A) → AllHave (f a))
        → AllHave (o >>= f)
    bind-AllHave none f h = tt
    bind-AllHave (some a) f h = h a

    then-AllHave :
        (o : Option (FullState F)) (f : FullState F → Option (FullState F))
        → AllHave o
        → ((st : FullState F) → IsGood st → AllHave (f st))
        → AllHave (o >>= f)
    then-AllHave none f ho h = tt
    then-AllHave (some st) f ho h = h st ho

    set_static-HasFlags :
        (key value : Text) (swinfo : Ibswinfo F)
        → HasFlags swinfo
        → HasFlags (set_static fl key value swinfo)
    unfolding set_static
    set_static-HasFlags key value swinfo h =
        if_holds HasFlags (equal key (codes "part number")) _ _ h (
          if_holds HasFlags (equal key (codes "serial number")) _ _ h (
            if_holds HasFlags (equal key (codes "PSID")) _ _ h
              (if_holds HasFlags (equal key (codes "firmware version")) _ _ h h)))

    set_psu_id-IsGood :
        (st : FullState F) (o : Option Text) → IsGood st → IsGood (set_psu_id fl st o)
    set_psu_id-IsGood st none h = h
    set_psu_id-IsGood st (some id) h = h

    store_psu-IsGood :
        (st : FullState F) (psu : SwitchPowerSupply F) → IsGood st → IsGood (store_psu fl st psu)
    unfolding store_psu
    store_psu-IsGood st psu h =
        if_holds IsGood (in_psu fl st) _ _ (h.0, put-Distinct st.psu_id psu st.psus h.1) h

    set_fan_status-IsGood :
        (key value : Text) (st : FullState F) → IsGood st → IsGood (set_fan_status fl key value st)
    unfolding set_fan_status
    set_fan_status-IsGood key value st h =
        if_holds IsGood (equal key (codes "fan status") && not (ltb st.divider_count 4)) _ _ h h

    set_temp_number-AllHave :
        (b : Bool) (value : Text) (st : FullState F)
        → IsGood st
        → AllHave (
            set_number fl b value
              (λ v (s : FullState F). record s { swinfo = record s.swinfo { temp = v } })
              st)
    unfolding set_number
    set_temp_number-AllHave false value st h = h
    set_temp_number-AllHave true value st h = bind-AllHave (fl.parse_float value) _ (λ v. h)

    add_fan-AllHave :
        (st : FullState F) (o : Option Text) (value : Text)
        → IsGood st
        → AllHave (add_fan fl st o value)
    unfolding add_fan
    add_fan-AllHave st none value h = h
    add_fan-AllHave st (some id) [] h = h
    add_fan-AllHave st (some id) (c ∷ value) h =
        bind-AllHave (fl.parse_float (c ∷ value)) _ (λ v. h)

    hardware_line-AllHave :
        (st : FullState F) (key value : Text) → IsGood st → AllHave (hardware_line fl st key value)
    unfolding hardware_line
    hardware_line-AllHave st key value h = bind-AllHave _ _ (λ psu.
        then-AllHave _ _
          (set_temp_number-AllHave (equal key (codes "temperature (C)")) value
            (store_psu fl (set_psu_id fl st (find_at psu_at key)) psu)
            (store_psu-IsGood (set_psu_id fl st (find_at psu_at key)) psu
              (set_psu_id-IsGood st (find_at psu_at key) h)))
          (λ s hs.
            add_fan-AllHave (set_fan_status fl key value s) (find_at fan_at key) value
              (set_fan_status-IsGood key value s hs)))

    uptime_line-AllHave :
        (st : FullState F) (key value : Text) (o : Option F)
        → IsGood st
        → AllHave (uptime_line fl st key value o)
    unfolding uptime_line
    uptime_line-AllHave st key value none h = h
    uptime_line-AllHave st key value (some uptime) h =
        hardware_line-AllHave (record st { swinfo = record st.swinfo { uptime = uptime } }) key
          value h

    key_line-AllHave :
        (st : FullState F) (key value : Text) → IsGood st → AllHave (key_line fl st key value)
    unfolding key_line
    key_line-AllHave st key value h =
        let st' = record st { swinfo = set_static fl key value st.swinfo } in
        let h' : IsGood st' = (set_static-HasFlags key value st.swinfo h.0, h.1) in
        if_holds AllHave (has_prefix key (codes "uptime")) _ _
          (uptime_line-AllHave st' key value (parse_uptime fl value) h')
          (hardware_line-AllHave st' key value h')

    full_parts-AllHave :
        (st : FullState F) (parts : List Text) → IsGood st → AllHave (full_parts fl st parts)
    unfolding full_parts
    full_parts-AllHave st [] h = h
    full_parts-AllHave st (a ∷ []) h = h
    full_parts-AllHave st (key ∷ (value ∷ [])) h =
        key_line-AllHave st (trim_space key) (trim_space value) h
    full_parts-AllHave st (a ∷ (b ∷ (c ∷ rest))) h = h

    full_lines-AllHave :
        (st : FullState F) (lines : List Text) → IsGood st → AllHave (full_lines fl st lines)
    unfolding full_lines count_divider
    full_lines-AllHave st [] h = h
    full_lines-AllHave st (line ∷ lines) h =
        then-AllHave _ _
          (full_parts-AllHave (count_divider fl st line) (split line b'|')
            (if_holds IsGood (has_prefix line (codes "-----")) _ _ h h))
          (λ s hs. full_lines-AllHave s lines hs)

    abbrev pub ResultHas : Option (Ibswinfo F) → Type 0
    ResultHas none = Unit
    ResultHas (some swinfo) = HasFlags swinfo × Distinct (psu_ids swinfo.power_supplies)

    psu_ids-with_ids : (l : List (Text × SwitchPowerSupply F)) → psu_ids (with_ids fl l) ≡ keys l
    unfolding keys
    psu_ids-with_ids [] = refl
    psu_ids-with_ids ((id, psu) ∷ l) = ap (λ (ids : List Text). id ∷ ids) (psu_ids-with_ids l)

    end-ResultHas :
        (ord : RangeOrder) (o : Option (FullState F))
        → AllHave o
        → ResultHas (o >>= (λ st. some (full_end fl ord st)))
    end-ResultHas ord none h = tt
    end-ResultHas ord (some st) h =
        (h.0, rw (psu_ids-with_ids (range ord st.psus)) (range-Distinct ord st.psus h.1))

    pub parse_ibswinfo-ResultHas :
        (ord : RangeOrder) (out : Text) (swinfo : Ibswinfo F)
        → HasFlags swinfo
        → ResultHas (parse_ibswinfo fl ord out swinfo)
    unfolding parse_ibswinfo
    parse_ibswinfo-ResultHas ord out swinfo h =
        end-ResultHas ord (full_lines fl (full_start fl swinfo) (split out b'\n'))
          (full_lines-AllHave (full_start fl swinfo) (split out b'\n') (h, tt))

module _ {F : Type 0} (fl : Float64 F) where
  result_of :
      (error timeout : F) (o : Option (Ibswinfo F)) (r : Ibswinfo F)
      → ResultHas error timeout fl o
      → o ≡ some r
      → Distinct (psu_ids r.power_supplies) × (r.error ≡ error) × (r.timeout ≡ timeout)
  result_of error timeout none r h e = cc
  result_of error timeout (some x) r ((he, ht), d) e =
      let same : x ≡ r = cc in
      subst
        (λ (y : Ibswinfo F).
          Distinct (psu_ids y.power_supplies) × (y.error ≡ error) × (y.timeout ≡ timeout))
        same (d, he, ht)

  -- A full output that is parsed gives each power supply once, and leaves the error and the timeout
  -- of the data as they are.
  pub parse_ibswinfo_lem :
      (ord : RangeOrder) (out : Text) (swinfo r : Ibswinfo F)
      → parse_ibswinfo fl ord out swinfo ≡ some r
      → Distinct (psu_ids r.power_supplies)
        × (r.error ≡ swinfo.error)
        × (r.timeout ≡ swinfo.timeout)
  parse_ibswinfo_lem ord out swinfo r e =
      result_of swinfo.error swinfo.timeout (parse_ibswinfo fl ord out swinfo) r
        (parse_ibswinfo-ResultHas swinfo.error swinfo.timeout fl ord out swinfo (refl, refl)) e
