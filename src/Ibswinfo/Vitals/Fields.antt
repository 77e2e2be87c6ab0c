-- ===== src/Ibswinfo/Vitals/Fields.antt =====
-- What the lines of a vitals output leave in each field.
use infiniband_exporter.Prelude.{
  ℕ, ◌≡◌, refl, ap, sym, ◌∙◌, false, Option, none, some, List, [], ◌∷◌, ◌++◌, append_assoc,
  append-nil, All,
}
use infiniband_exporter.Text.{Text, equal}
use infiniband_exporter.Text.Cut.{Lacks}
use infiniband_exporter.Dict.{Dict, get, put}
use infiniband_exporter.Dict.Laws.{Distinct, put-new, get-append_new}
use infiniband_exporter.Float.{Float64}
use infiniband_exporter.Discover.Names.{cut_at}
use infiniband_exporter.Ibswinfo.{SwitchPowerSupply}
use infiniband_exporter.Ibswinfo.Vitals.{
  VitalsState, or_nan, reading, set_uptime, set_temp, new_psu, set_psu_or_fan, set_key,
  vitals_parts, vitals_lines,
}
use infiniband_exporter.Ibswinfo.Vitals.Report.{
  Line, uptime, temp, psu, fan, key_of, value_of, print_line, print_lines, IsPrinted, uptimes,
  temps, psu_ids, number_or, number_of, other, last_number, psus_of, fans_of,
}
use infiniband_exporter.Ibswinfo.Vitals.Lines.{
  print_line-Lacks, cut-print_line, psu_of-key, fan_of-key, other_lem,
}

module _ {F : Type 0} (fl : Float64 F) where
  -- What a line does to what has been read.
  apply_line : VitalsState F → Line → VitalsState F
  unfolding put
  apply_line st (uptime value) = set_uptime fl st (fl.parse_float value)
  apply_line st (temp value) = set_temp fl st (fl.parse_float value)
  apply_line st (psu c id value) = record st {
    psus = put (c ∷ id) (new_psu fl (c ∷ id) (number_of fl value)) st.psus;
  }
  apply_line st (fan c id value) = record st {
    fans = st.fans ++ record { id = c ∷ id; rpm = number_of fl value } ∷ [];
  }
  apply_line st (other key value) = st

  pub apply_lines : VitalsState F → List (ℕ × Line) → VitalsState F
  apply_lines st [] = st
  apply_lines st ((n, l) ∷ ls) = apply_lines (apply_line st l) ls

  reading-number_of : (v : Text) → reading fl v ≡ number_of fl v
  unfolding reading
  reading-number_of [] = refl
  reading-number_of (c ∷ v) = number (fl.parse_float (c ∷ v))
    where
      number : (o : Option F) → or_nan fl o ≡ number_or fl fl.nan o
      number none = refl
      number (some x) = refl

  set_key-apply_line :
      (st : VitalsState F) (n : ℕ) (l : Line)
      → IsPrinted (n, l)
      → set_key fl st (key_of l) (value_of l) ≡ apply_line st l
  unfolding set_key equal set_psu_or_fan apply_line
  set_key-apply_line st n (uptime value) h = refl
  set_key-apply_line st n (temp value) h = refl
  set_key-apply_line st n (psu c id value) (_, _, hd) =
      rw (psu_of-key c id value hd, reading-number_of value) refl
  set_key-apply_line st n (fan c id value) (_, _, hd) =
      let (no_psu, found) = fan_of-key c id value hd in
      rw (no_psu, found, reading-number_of value) refl
  set_key-apply_line st n (other key value) (_, _, hk) =
      let (no_uptime, no_temp, no_psu, no_fan) = other_lem key hk in
      rw (no_uptime, no_temp, no_psu, no_fan) refl

  vitals_parts-print_line :
      (st : VitalsState F) (n : ℕ) (l : Line)
      → IsPrinted (n, l)
      → vitals_parts fl st (cut_at b':' (print_line (n, l))) ≡ apply_line st l
  unfolding vitals_parts
  vitals_parts-print_line st n l h =
      let (cut, key, value) = cut-print_line n l h in
      rw (cut, key, value) (set_key-apply_line st n l h)

  pub vitals_lines-print_lines :
      (st : VitalsState F) (ls : List (ℕ × Line))
      → All IsPrinted ls
      → vitals_lines fl st (print_lines ls ++ [] ∷ []) ≡ apply_lines st ls
  unfolding vitals_lines vitals_parts cut_at apply_lines
  vitals_lines-print_lines st [] h = refl
  vitals_lines-print_lines st ((n, l) ∷ ls) (hl, h) =
      ap (λ s. vitals_lines fl s (print_lines ls ++ [] ∷ [])) (vitals_parts-print_line st n l hl)
      ∙ vitals_lines-print_lines (apply_line st l) ls h

  pub print_lines-Lacks :
      (ls : List (ℕ × Line)) → All IsPrinted ls → All (Lacks b'\n') (print_lines ls)
  print_lines-Lacks [] h = tt
  print_lines-Lacks ((n, l) ∷ ls) (hl, h) = (print_line-Lacks n l hl, print_lines-Lacks ls h)

  -- The uptime, the temperature and the power supplies that were there, after a line.
  set_uptime_lem :
      (st : VitalsState F) (o : Option F)
      → let st' = set_uptime fl st o in
        (st'.swinfo.uptime ≡ number_or fl st.swinfo.uptime o)
        × (st'.swinfo.temp ≡ st.swinfo.temp)
        × (st'.swinfo.power_supplies ≡ st.swinfo.power_supplies)
        × (st'.psus ≡ st.psus)
        × (st'.fans ≡ st.fans)
  set_uptime_lem st none = (refl, refl, refl, refl, refl)
  set_uptime_lem st (some v) = (refl, refl, refl, refl, refl)

  set_temp_lem :
      (st : VitalsState F) (o : Option F)
      → let st' = set_temp fl st o in
        (st'.swinfo.uptime ≡ st.swinfo.uptime)
        × (st'.swinfo.temp ≡ number_or fl st.swinfo.temp o)
        × (st'.swinfo.power_supplies ≡ st.swinfo.power_supplies)
        × (st'.psus ≡ st.psus)
        × (st'.fans ≡ st.fans)
  set_temp_lem st none = (refl, refl, refl, refl, refl)
  set_temp_lem st (some v) = (refl, refl, refl, refl, refl)

  pub apply_lines-numbers :
      (ls : List (ℕ × Line)) (st : VitalsState F)
      → ((apply_lines st ls).swinfo.uptime ≡ last_number fl st.swinfo.uptime (uptimes ls))
        × ((apply_lines st ls).swinfo.temp ≡ last_number fl st.swinfo.temp (temps ls))
        × ((apply_lines st ls).swinfo.power_supplies ≡ st.swinfo.power_supplies)
  unfolding apply_lines apply_line
  apply_lines-numbers [] st = (refl, refl, refl)
  apply_lines-numbers ((n, uptime v) ∷ ls) st =
      let st' = set_uptime fl st (fl.parse_float v) in
      let (u, t, p) = apply_lines-numbers ls st' in
      let (u', t', p', _, _) = set_uptime_lem st (fl.parse_float v) in
      (
        u ∙ ap (λ x. last_number fl x (uptimes ls)) u',
        t ∙ ap (λ x. last_number fl x (temps ls)) t',
        p ∙ p',
      )
  apply_lines-numbers ((n, temp v) ∷ ls) st =
      let st' = set_temp fl st (fl.parse_float v) in
      let (u, t, p) = apply_lines-numbers ls st' in
      let (u', t', p', _, _) = set_temp_lem st (fl.parse_float v) in
      (
        u ∙ ap (λ x. last_number fl x (uptimes ls)) u',
        t ∙ ap (λ x. last_number fl x (temps ls)) t',
        p ∙ p',
      )
  apply_lines-numbers ((n, psu c id v) ∷ ls) st = apply_lines-numbers ls _
  apply_lines-numbers ((n, fan c id v) ∷ ls) st = apply_lines-numbers ls _
  apply_lines-numbers ((n, other k v) ∷ ls) st = apply_lines-numbers ls st

  pub apply_lines-fans :
      (ls : List (ℕ × Line)) (st : VitalsState F)
      → (apply_lines st ls).fans ≡ st.fans ++ fans_of fl ls
  unfolding apply_lines apply_line
  apply_lines-fans [] st = sym (append-nil st.fans)
  apply_lines-fans ((n, uptime v) ∷ ls) st =
      let (_, _, _, _, f) = set_uptime_lem st (fl.parse_float v) in
      apply_lines-fans ls (set_uptime fl st (fl.parse_float v)) ∙ ap (λ x. x ++ fans_of fl ls) f
  apply_lines-fans ((n, temp v) ∷ ls) st =
      let (_, _, _, _, f) = set_temp_lem st (fl.parse_float v) in
      apply_lines-fans ls (set_temp fl st (fl.parse_float v)) ∙ ap (λ x. x ++ fans_of fl ls) f
  apply_lines-fans ((n, psu c id v) ∷ ls) st = apply_lines-fans ls _
  apply_lines-fans ((n, other k v) ∷ ls) st = apply_lines-fans ls st
  apply_lines-fans ((n, fan c id v) ∷ ls) st =
      apply_lines-fans ls (apply_line st (fan c id v))
      ∙ append_assoc st.fans (record { id = c ∷ id; rpm = number_of fl v } ∷ []) (fans_of fl ls)

  -- The power supplies by their ids.
  abbrev pub entries : List (SwitchPowerSupply F) → Dict (SwitchPowerSupply F)
  entries [] = []
  entries (p ∷ ps) = (p.id, p) ∷ entries ps

  unfoldable pub AreNew : List Text → Dict (SwitchPowerSupply F) → Type 0
  AreNew ids m = All (λ id. get id m ≡ none) ids

  pub AreNew-append :
      (k : Text) (p : SwitchPowerSupply F) (m : Dict (SwitchPowerSupply F)) (ids : List Text)
      → All (λ j. equal k j ≡ false) ids
      → AreNew ids m
      → AreNew ids (m ++ (k, p) ∷ [])
  unfolding AreNew
  AreNew-append k p m [] differ new = tt
  AreNew-append k p m (id ∷ ids) (hd, differ) (hn, new) =
      (rw (get-append_new k id p m hn, hd) refl, AreNew-append k p m ids differ new)

  pub AreNew-nil : (ids : List Text) → AreNew ids []
  unfolding AreNew get
  AreNew-nil [] = tt
  AreNew-nil (id ∷ ids) = (refl, AreNew-nil ids)

  pub apply_lines-psus :
      (ls : List (ℕ × Line)) (st : VitalsState F)
      → Distinct (psu_ids ls)
      → AreNew (psu_ids ls) st.psus
      → (apply_lines st ls).psus ≡ st.psus ++ entries (psus_of fl ls)
  unfolding apply_lines apply_line AreNew
  apply_lines-psus [] st distinct new = sym (append-nil st.psus)
  apply_lines-psus ((n, uptime v) ∷ ls) st distinct new =
      let (_, _, _, p, _) = set_uptime_lem st (fl.parse_float v) in
      apply_lines-psus ls (set_uptime fl st (fl.parse_float v)) distinct (rw p new)
      ∙ ap (λ x. x ++ entries (psus_of fl ls)) p
  apply_lines-psus ((n, temp v) ∷ ls) st distinct new =
      let (_, _, _, p, _) = set_temp_lem st (fl.parse_float v) in
      apply_lines-psus ls (set_temp fl st (fl.parse_float v)) distinct (rw p new)
      ∙ ap (λ x. x ++ entries (psus_of fl ls)) p
  apply_lines-psus ((n, fan c id v) ∷ ls) st distinct new = apply_lines-psus ls _ distinct new
  apply_lines-psus ((n, other k v) ∷ ls) st distinct new = apply_lines-psus ls st distinct new
  apply_lines-psus ((n, psu c id v) ∷ ls) st (differ, distinct) (hn, new) =
      let p = new_psu fl (c ∷ id) (number_of fl v) in
      let put_last = put-new (c ∷ id) p st.psus hn in
      apply_lines-psus ls (apply_line st (psu c id v)) distinct
        (rw put_last (AreNew-append (c ∷ id) p st.psus (psu_ids ls) differ new))
      ∙ (rw put_last (append_assoc st.psus ((c ∷ id, p) ∷ []) (entries (psus_of fl ls))))
