-- ===== src/Ibswinfo/Full/RoundTrip.antt =====
-- A printed output of `ibswinfo` is read as what it says.
use infiniband_exporter.Prelude.{
  ℕ, ◌≡◌, refl, ap, sym, ◌∙◌, Option, some, List, [], ◌∷◌, ◌++◌, append_assoc, append-nil, map,
  Perm, inl,
}
use mathlib.Core.List.Perm
use infiniband_exporter.Text.{Text, split, has_prefix}
use infiniband_exporter.Text.Cut.{split-unlines}
use infiniband_exporter.Dict.{Dict, RangeOrder, put, keys, range}
use infiniband_exporter.Dict.Laws.{Distinct, put-new, range-perm}
use infiniband_exporter.Float.{Float64}
use infiniband_exporter.Discover.Names.{◌>>=◌}
use infiniband_exporter.Ibswinfo.{SwitchPowerSupply, Ibswinfo}
use infiniband_exporter.Ibswinfo.Vitals.{or_nan, with_ids}
use infiniband_exporter.Ibswinfo.Vitals.Fields.{AreNew, AreNew-nil, AreNew-append}
use infiniband_exporter.Ibswinfo.Vitals.Laws.{with_id, with_ids-map}
use infiniband_exporter.Ibswinfo.Full.{
  full_start, full_end, full_lines, full_parts, count_divider, FullState, parse_ibswinfo,
}
use infiniband_exporter.Ibswinfo.Full.Report.{
  PsuLines, Report, divider, report_lines, print_report, IsReport, all_psu_lines, temp_lines,
  fan_lines, head_lines,
}
use infiniband_exporter.Ibswinfo.Full.Psus.{
  psu_said, put_psus, last_id, put_psus-IsStored, full_lines-psus,
}
use infiniband_exporter.Ibswinfo.Full.Sections.{
  behind, fans_said, full_lines-divider, full_lines-fans, full_lines-temp,
}
use infiniband_exporter.Ibswinfo.Full.Head.{head_said, full_lines-head}
use infiniband_exporter.Ibswinfo.Full.Newlines.{report_lines-Lacks}

module _ {F : Type 0} (fl : Float64 F) where
  abbrev pub psu_ids : List PsuLines → List Text
  psu_ids [] = []
  psu_ids (p ∷ ps) = (p.digit ∷ []) ∷ psu_ids ps

  abbrev pub psus_said : List PsuLines → List (SwitchPowerSupply F)
  psus_said [] = []
  psus_said (p ∷ ps) = record (psu_said fl p) { id = p.digit ∷ [] } ∷ psus_said ps

  -- What an output says, on what was known, with the power supplies in some order.
  abbrev pub said : Ibswinfo F → Report → List (SwitchPowerSupply F) → Ibswinfo F
  said swinfo r psus = record (head_said fl swinfo r) {
    temp = or_nan fl (fl.parse_float r.temp);
    fan_status = r.fan_status;
    power_supplies = psus;
    fans = fans_said fl r.fans;
  }

  psu_entries : List PsuLines → Dict (SwitchPowerSupply F)
  psu_entries [] = []
  psu_entries (p ∷ ps) = (p.digit ∷ [], psu_said fl p) ∷ psu_entries ps

  put_psus-entries :
      (ps : List PsuLines) (m : Dict (SwitchPowerSupply F))
      → Distinct (psu_ids ps)
      → AreNew fl (psu_ids ps) m
      → put_psus fl m ps ≡ m ++ psu_entries ps
  unfolding psu_entries AreNew
  put_psus-entries [] m distinct new = sym (append-nil m)
  put_psus-entries (p ∷ ps) m (differ, distinct) (hn, new) =
      let last = put-new (p.digit ∷ []) (psu_said fl p) m hn in
      put_psus-entries ps (put (p.digit ∷ []) (psu_said fl p) m) distinct
        (rw last (AreNew-append fl (p.digit ∷ []) (psu_said fl p) m (psu_ids ps) differ new))
      ∙ (rw last (append_assoc m ((p.digit ∷ [], psu_said fl p) ∷ []) (psu_entries ps)))

  keys-psu_entries : (ps : List PsuLines) → keys (psu_entries ps) ≡ psu_ids ps
  unfolding keys psu_entries
  keys-psu_entries [] = refl
  keys-psu_entries (p ∷ ps) = ap (◌∷◌ (p.digit ∷ [])) (keys-psu_entries ps)

  map-psu_entries : (ps : List PsuLines) → map (with_id fl) (psu_entries ps) ≡ psus_said ps
  unfolding with_id psu_entries
  map-psu_entries [] = refl
  map-psu_entries (p ∷ ps) =
      ap (◌∷◌ (record (psu_said fl p) { id = p.digit ∷ [] })) (map-psu_entries ps)

  with_ids-psus :
      (ord : RangeOrder) (ps : List PsuLines)
      → Distinct (psu_ids ps)
      → Perm (with_ids fl (range ord (put_psus fl [] ps))) (psus_said ps)
  with_ids-psus ord ps distinct =
      rw
        (
          put_psus-entries ps [] distinct (AreNew-nil fl (psu_ids ps)),
          with_ids-map fl (range ord (psu_entries ps)),
        )
        (Perm.trans
          (Perm.map (with_id fl)
            (range-perm ord (psu_entries ps) (rw (keys-psu_entries ps) distinct)))
          (rw (map-psu_entries ps) (Perm.refl (psus_said ps))))

  report_lines-end :
      (pad : Text → ℕ) (r : Report)
      → report_lines pad r ++ [] ∷ []
        ≡ head_lines pad r
          ++ (all_psu_lines pad r.psus
              ++ (temp_lines pad r ++ (fan_lines pad r.fans ++ divider ∷ [] ∷ [])))
  report_lines-end pad r =
      rw
        (
          append_assoc (all_psu_lines pad r.psus)
              (temp_lines pad r ++ (fan_lines pad r.fans ++ divider ∷ [])) ([] ∷ []),
          append_assoc (fan_lines pad r.fans) (divider ∷ []) ([] ∷ []),
        )
        refl

  full_lines-end : (st : FullState F) → full_lines fl st ([] ∷ []) ≡ some st
  unfolding full_lines full_parts count_divider has_prefix split
  full_lines-end st = refl

  -- The loop over the whole output.
  full_lines-report :
      (pad : Text → ℕ) (swinfo : Ibswinfo F) (r : Report)
      → IsReport fl r
      → full_lines fl (full_start fl swinfo) (report_lines pad r ++ [] ∷ [])
        ≡ some (
            behind fl
              (record (head_said fl swinfo r) {
                temp = or_nan fl (fl.parse_float r.temp);
                fan_status = r.fan_status;
              })
              (put_psus fl [] r.psus)
              (fans_said fl r.fans)
              (last_id fl [] r.psus)
              5)
  full_lines-report pad swinfo r h =
      let (_, _, _, _, _, _, _, _, _, _, psus, temp, max_temp, fan_status, fans) = h in
      let start = record swinfo { temp = fl.nan } in
      let sw = head_said fl start r in
      let sw' = record sw { temp = or_nan fl (fl.parse_float r.temp); fan_status = r.fan_status } in
      let m = put_psus fl [] r.psus in
      let id = last_id fl [] r.psus in
      ap (full_lines fl (full_start fl swinfo)) (report_lines-end pad r)
      ∙ full_lines-head fl pad start r _ h
      ∙ full_lines-psus fl pad sw r.psus [] [] _ psus
      ∙ full_lines-temp fl pad sw m id r _ (put_psus-IsStored fl r.psus [] [] (inl refl)) temp
          max_temp fan_status
      ∙ full_lines-fans fl pad sw' m id r.fans [] _ fans
      ∙ full_lines-divider fl sw' m (fans_said fl r.fans) id 4 ([] ∷ [])
      ∙ full_lines-end _

  -- An output of `ibswinfo` of the shape that `print_report` writes, whose values are on one line each
  -- with no bar and no space around them, whose uptime and temperature are numbers, whose powers are
  -- numbers or have no line, whose speeds are numbers or nothing, and which has no power supply twice, is read without an error as
  -- what it says, whatever was known before: the numbers and the texts of the switch, the status of
  -- the fans, the fans in the order of their lines (NaN for a speed or a power that is not there), and the power
  -- supplies in some order, each with what stands in the lines below it; the `fan status` of a power
  -- supply is not taken for that of the switch. The width of the columns does not matter.
  pub parse_ibswinfo-print_report :
      (ord : RangeOrder) (pad : Text → ℕ) (swinfo : Ibswinfo F) (r : Report)
      → IsReport fl r
      → Distinct (psu_ids r.psus)
      → (psus : List (SwitchPowerSupply F)) × (parse_ibswinfo fl ord (print_report pad r) swinfo
          ≡ some (said swinfo r psus))
        × Perm psus (psus_said r.psus)
  unfolding parse_ibswinfo
  parse_ibswinfo-print_report ord pad swinfo r h distinct =
      let finish = λ (o : Option (FullState F)). o >>= (λ st. some (full_end fl ord st)) in
      (
        with_ids fl (range ord (put_psus fl [] r.psus)),
        ap (λ ls. finish (full_lines fl (full_start fl swinfo) ls))
              (split-unlines (report_lines pad r) (report_lines-Lacks fl pad r h))
            ∙ ap finish (full_lines-report pad swinfo r h),
        with_ids-psus ord r.psus distinct,
      )
