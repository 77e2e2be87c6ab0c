-- ===== src/Ibswinfo/Vitals/Laws.antt =====
-- A printed vitals output is read as what it says.
use infiniband_exporter.Prelude.{ℕ, ◌≡◌, refl, ap, List, [], ◌∷◌, ◌++◌, map, Perm, All}
use mathlib.Core.List.Perm
use infiniband_exporter.Text.{Text}
use infiniband_exporter.Text.Cut.{split-unlines}
use infiniband_exporter.Dict.{RangeOrder, keys, range}
use infiniband_exporter.Dict.Laws.{Distinct, range-perm}
use infiniband_exporter.Float.{Float64}
use infiniband_exporter.Ibswinfo.{SwitchPowerSupply, Ibswinfo}
use infiniband_exporter.Ibswinfo.Vitals.{with_ids, vitals_start, parse_ibswinfo_vitals}
use infiniband_exporter.Ibswinfo.Vitals.Report.{
  Line, uptime, temp, psu, fan, other, print_lines, print_vitals, IsPrinted, uptimes, temps,
  psu_ids, last_number, psus_of, fans_of,
}
use infiniband_exporter.Ibswinfo.Vitals.Fields.{
  vitals_lines-print_lines, print_lines-Lacks, apply_lines-numbers, apply_lines-fans,
  apply_lines-psus, AreNew, AreNew-nil, entries,
}

module _ {F : Type 0} (fl : Float64 F) where
  keys-entries : (ls : List (ℕ × Line)) → keys (entries fl (psus_of fl ls)) ≡ psu_ids ls
  unfolding keys
  keys-entries [] = refl
  keys-entries ((n, psu c id v) ∷ ls) = ap (◌∷◌ (c ∷ id)) (keys-entries ls)
  keys-entries ((n, uptime v) ∷ ls) = keys-entries ls
  keys-entries ((n, temp v) ∷ ls) = keys-entries ls
  keys-entries ((n, fan c id v) ∷ ls) = keys-entries ls
  keys-entries ((n, other k v) ∷ ls) = keys-entries ls

  unfoldable pub with_id : Text × SwitchPowerSupply F → SwitchPowerSupply F
  with_id (id, p) = record p { id = id }

  pub with_ids-map : (es : List (Text × SwitchPowerSupply F)) → with_ids fl es ≡ map with_id es
  unfolding with_id
  with_ids-map [] = refl
  with_ids-map ((id, p) ∷ es) = ap (◌∷◌ (record p { id = id })) (with_ids-map es)

  map-entries : (ps : List (SwitchPowerSupply F)) → map with_id (entries fl ps) ≡ ps
  unfolding with_id
  map-entries [] = refl
  map-entries (p ∷ ps) = ap (◌∷◌ p) (map-entries ps)

  with_ids-range :
      (ord : RangeOrder) (ls : List (ℕ × Line))
      → Distinct (psu_ids ls)
      → Perm (with_ids fl (range ord (entries fl (psus_of fl ls)))) (psus_of fl ls)
  with_ids-range ord ls distinct = rw (with_ids-map (range ord (entries fl (psus_of fl ls)))) (
      Perm.trans
        (Perm.map with_id
          (range-perm ord (entries fl (psus_of fl ls)) (rw (keys-entries ls) distinct)))
        (rw (map-entries (psus_of fl ls)) (Perm.refl (psus_of fl ls))))

  -- An output of `ibswinfo -o vitals` whose values are on one line each with no space around them,
  -- and which has no power supply twice, is read as what it says: the last uptime and the last
  -- temperature that are numbers (the uptime as it was and NaN where there is none), the fans in the
  -- order of the lines, and behind the power supplies that were there those of the lines, in some
  -- order; lines with other keys, such as `max.temp (C)`, say nothing; NaN for a power and a speed that is no number. The width of the columns does not matter.
  pub parse_ibswinfo_vitals-print_vitals :
      (ord : RangeOrder) (ls : List (ℕ × Line)) (swinfo : Ibswinfo F)
      → All IsPrinted ls
      → Distinct (psu_ids ls)
      → let r = parse_ibswinfo_vitals fl ord (print_vitals ls) swinfo in
        (r.uptime ≡ last_number fl swinfo.uptime (uptimes ls))
        × (r.temp ≡ last_number fl fl.nan (temps ls))
        × (r.fans ≡ fans_of fl ls)
        × Perm r.power_supplies (swinfo.power_supplies ++ psus_of fl ls)
  unfolding parse_ibswinfo_vitals
  parse_ibswinfo_vitals-print_vitals ord ls swinfo h distinct =
      let start = vitals_start fl swinfo in
      let (u, t, p) = apply_lines-numbers fl ls start in
      let none_yet : AreNew fl (psu_ids ls) [] = AreNew-nil fl (psu_ids ls) in
      let psus = apply_lines-psus fl ls start distinct none_yet in
      rw
        (
          split-unlines (print_lines ls) (print_lines-Lacks fl ls h),
          vitals_lines-print_lines fl start ls h,
        )
        (
          u,
          t,
          apply_lines-fans fl ls start,
          rw (p, psus) (Perm.append_left swinfo.power_supplies (with_ids-range ord ls distinct)),
        )
