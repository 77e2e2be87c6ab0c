-- ===== src/Ibswinfo/Full/Newlines.antt =====
-- No newline stands in a line of the output.
use infiniband_exporter.Prelude.{
  Option, none, some, ℕ, ◌≡◌, refl, true, List, [], ◌∷◌, ◌++◌, All, All-append,
}
use infiniband_exporter.Text.{Text, codes, is_space}
use infiniband_exporter.Text.Cut.{Lacks, lacks_sound}
use infiniband_exporter.Float.{Float64}
use infiniband_exporter.Ibswinfo.Full.Report.{
  PsuLines, FanLine, Report, double_divider, divider, psu_key, fan_key, line, psu_lines,
  power_lines, IsPower, all_psu_lines, fan_lines, head_lines, temp_lines, report_lines, IsValue,
  IsPsu, IsFan, IsReport,
}
use infiniband_exporter.Ibswinfo.Full.Lines.{line-Lacks}
use infiniband_exporter.Ibswinfo.Full.Keys.{is_key, plain-IsKey, psu_key-IsKey, fan_key-IsKey}
use infiniband_exporter.Ibswinfo.Full.Sections.{IsSpeed-IsValue}

module _ {F : Type 0} (fl : Float64 F) (pad : Text → ℕ) where
  plain-Lacks :
      (indent c : ℕ) (s : Text) (e : ℕ)
      → is_key c s e ≡ true
      → (v : Text) → IsValue v
      → Lacks b'\n' (line pad indent (c ∷ (s ++ e ∷ [])) v)
  plain-Lacks indent c s e k v h =
      line-Lacks pad (c ∷ (s ++ e ∷ [])) (plain-IsKey c s e k) v indent h

  power_lines-Lacks :
      (power : Option Text) → IsPower fl power → All (Lacks b'\n') (power_lines pad power)
  unfolding is_space
  power_lines-Lacks none h = tt
  power_lines-Lacks (some power) (h, _) =
      (plain-Lacks 5 b'p' (codes "ower (W") b')' refl power h, tt)

  psu_lines-Lacks : (p : PsuLines) → IsPsu fl p → All (Lacks b'\n') (psu_lines pad p)
  unfolding is_space
  psu_lines-Lacks p (hd, hs, hpart, hserial, hdc, hfan, hpower) = (
    line-Lacks pad (psu_key p.digit) (psu_key-IsKey p.digit hd) _ 0 hs,
    (
      plain-Lacks 5 b'P' (codes "/") b'N' refl p.part hpart,
      (
        plain-Lacks 5 b'S' (codes "/") b'N' refl p.serial hserial,
        (
          plain-Lacks 5 b'D' (codes "C powe") b'r' refl p.dc_power hdc,
          (
            plain-Lacks 5 b'f' (codes "an statu") b's' refl p.fan_status hfan,
            power_lines-Lacks p.power hpower,
          ),
        ),
      ),
    ),
  )

  all_psu_lines-Lacks :
      (ps : List PsuLines) → All (IsPsu fl) ps → All (Lacks b'\n') (all_psu_lines pad ps)
  all_psu_lines-Lacks [] h = tt
  all_psu_lines-Lacks (p ∷ ps) (hp, h) =
      All-append (Lacks b'\n') (psu_lines pad p) (all_psu_lines pad ps) (psu_lines-Lacks p hp)
        (all_psu_lines-Lacks ps h)

  fan_lines-Lacks : (fs : List FanLine) → All (IsFan fl) fs → All (Lacks b'\n') (fan_lines pad fs)
  fan_lines-Lacks [] h = tt
  fan_lines-Lacks (f ∷ fs) ((hd, hs), h) = (
    line-Lacks pad (fan_key f.first f.digits) (fan_key-IsKey f.first f.digits hd) f.rpm 0
        (IsSpeed-IsValue fl f.rpm hs),
    fan_lines-Lacks fs h,
  )

  head_lines-Lacks : (r : Report) → IsReport fl r → All (Lacks b'\n') (head_lines pad r)
  unfolding is_space
  head_lines-Lacks r
        (
          (title, _, _),
          hpart,
          hserial,
          hname,
          hrev,
          hports,
          hpsid,
          hguid,
          hfw,
          (hup, _),
          _,
          _,
          _,
          _,
          _,
        ) =
      (
        lacks_sound b'\n' double_divider refl,
        (
          title,
          (
            lacks_sound b'\n' double_divider refl,
            (
              plain-Lacks 0 b'p' (codes "art numbe") b'r' refl r.part_number hpart,
              (
                plain-Lacks 0 b's' (codes "erial numbe") b'r' refl r.serial_number hserial,
                (
                  plain-Lacks 0 b'p' (codes "roduct nam") b'e' refl r.product_name hname,
                  (
                    plain-Lacks 0 b'r' (codes "evisio") b'n' refl r.revision hrev,
                    (
                      plain-Lacks 0 b'p' (codes "ort") b's' refl r.ports hports,
                      (
                        plain-Lacks 0 b'P' (codes "SI") b'D' refl r.psid hpsid,
                        (
                          plain-Lacks 0 b'G' (codes "UI") b'D' refl r.guid hguid,
                          (
                            plain-Lacks 0 b'f' (codes "irmware versio") b'n' refl r.firmware_version
                                hfw,
                            (
                              lacks_sound b'\n' divider refl,
                              (
                                plain-Lacks 0 b'u' (codes "ptime (d-h:m:s") b')' refl r.uptime hup,
                                (lacks_sound b'\n' divider refl, tt),
                              ),
                            ),
                          ),
                        ),
                      ),
                    ),
                  ),
                ),
              ),
            ),
          ),
        ),
      )

  temp_lines-Lacks : (r : Report) → IsReport fl r → All (Lacks b'\n') (temp_lines pad r)
  unfolding is_space
  temp_lines-Lacks r (_, _, _, _, _, _, _, _, _, _, _, (ht, _), hm, hf, _) = (
    lacks_sound b'\n' divider refl,
    (
      plain-Lacks 0 b't' (codes "emperature (C") b')' refl r.temp ht,
      (
        plain-Lacks 0 b'm' (codes "ax temp (C") b')' refl r.max_temp hm,
        (
          lacks_sound b'\n' divider refl,
          (plain-Lacks 0 b'f' (codes "an statu") b's' refl r.fan_status hf, tt),
        ),
      ),
    ),
  )

  pub report_lines-Lacks : (r : Report) → IsReport fl r → All (Lacks b'\n') (report_lines pad r)
  report_lines-Lacks r h =
      let (_, _, _, _, _, _, _, _, _, _, psus, _, _, _, fans) = h in
      All-append (Lacks b'\n') (head_lines pad r) _ (head_lines-Lacks r h) (
        All-append (Lacks b'\n') (all_psu_lines pad r.psus) _ (all_psu_lines-Lacks r.psus psus) (
          All-append (Lacks b'\n') (temp_lines pad r) _ (temp_lines-Lacks r h) (
            All-append (Lacks b'\n') (fan_lines pad r.fans) _ (fan_lines-Lacks r.fans fans)
              (lacks_sound b'\n' divider refl, tt))))
