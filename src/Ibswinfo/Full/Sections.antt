-- ===== src/Ibswinfo/Full/Sections.antt =====
-- What the lines of the other sections do to what has been read.
use infiniband_exporter.Prelude.{
  ℕ, suc, ◌≡◌, refl, ◌∙◌, true, false, some, List, [], ◌∷◌, ◌++◌, append_assoc, append-nil, All,
  inl, inr,
}
use infiniband_exporter.Text.{
  Text, codes, equal, is_digit, is_space, has_prefix, split, trim_space, trim_by, drop_while,
}
use infiniband_exporter.Text.Cut.{Lacks, split-Lacks}
use infiniband_exporter.Dict.{Dict}
use infiniband_exporter.Dict.Laws.{put-get}
use infiniband_exporter.Float.{Float64}
use infiniband_exporter.Ibswinfo.{SwitchPowerSupply, SwitchFan, Ibswinfo}
use infiniband_exporter.Ibswinfo.Vitals.{or_nan, reading}
use infiniband_exporter.Ibswinfo.Full.{
  FullState, key_line, full_lines, full_parts, count_divider, set_static, hardware_line, start_psu,
  find_at, psu_at, fan_at, set_psu_texts, set_number, store_psu, set_fan_status, add_fan,
}
use infiniband_exporter.Ibswinfo.Full.Report.{
  FanLine, Report, double_divider, divider, fan_key, fan_lines, temp_lines, IsValue, IsNumber,
  IsFan, IsSpeed,
}
use infiniband_exporter.Ibswinfo.Full.Lines.{full_lines-line}
use infiniband_exporter.Ibswinfo.Full.Keys.{fan_key-IsKey, psu_at-fan_key, fan_at-fan_key}
use infiniband_exporter.Ibswinfo.Full.Psus.{among, IsStored, next}

module _ {F : Type 0} (fl : Float64 F) where
  -- Behind the fourth divider.
  abbrev pub behind :
      Ibswinfo F → Dict (SwitchPowerSupply F) → List (SwitchFan F) → Text → ℕ → FullState F
  behind sw m fans id n = record {
    swinfo = sw;
    psus = m;
    fans = fans;
    psu_id = id;
    divider_count = n;
  }

  pub full_lines-divider :
      (sw : Ibswinfo F) (m : Dict (SwitchPowerSupply F)) (fans : List (SwitchFan F)) (id : Text)
      (n : ℕ) (ls : List Text)
      → full_lines fl (behind sw m fans id n) (divider ∷ ls)
        ≡ full_lines fl (behind sw m fans id (suc n)) ls
  unfolding full_lines full_parts count_divider has_prefix split
  full_lines-divider sw m fans id n ls = refl

  pub full_lines-title :
      (st : FullState F) (title : Text) (ls : List Text)
      → Lacks b'|' title
      → has_prefix title (codes "-----") ≡ false
      → full_lines fl st (title ∷ ls) ≡ full_lines fl st ls
  unfolding full_lines full_parts count_divider
  full_lines-title st title ls h e = rw (e, split-Lacks title b'|' h) refl

  pub full_lines-double :
      (st : FullState F) (ls : List Text)
      → full_lines fl st (double_divider ∷ ls) ≡ full_lines fl st ls
  unfolding full_lines full_parts count_divider has_prefix split
  full_lines-double st ls = refl

  -- Behind the power supplies a line still stores the last one, which changes nothing.
  key_line-temp :
      (sw : Ibswinfo F) (m : Dict (SwitchPowerSupply F)) (id v : Text) (x : F)
      → IsStored fl id m
      → fl.parse_float v ≡ some x
      → key_line fl (behind sw m [] id 3) (codes "temperature (C)") v
        ≡ some (behind (record sw { temp = or_nan fl (fl.parse_float v) }) m [] id 3)
  unfolding key_line set_static has_prefix equal hardware_line start_psu set_psu_texts set_number
      store_psu set_fan_status add_fan find_at psu_at fan_at
  key_line-temp sw m [] v x stored e = rw e refl
  key_line-temp sw m (c ∷ id) v x (inl impossible) e = absurd cc
  key_line-temp sw m (c ∷ id) v x (inr (q, h)) e = rw (h, e, put-get (c ∷ id) q m h) refl

  key_line-max_temp :
      (sw : Ibswinfo F) (m : Dict (SwitchPowerSupply F)) (id v : Text)
      → IsStored fl id m
      → key_line fl (behind sw m [] id 3) (codes "max temp (C)") v ≡ some (behind sw m [] id 3)
  unfolding key_line set_static has_prefix equal hardware_line start_psu set_psu_texts set_number
      store_psu set_fan_status add_fan find_at psu_at fan_at
  key_line-max_temp sw m [] v stored = refl
  key_line-max_temp sw m (c ∷ id) v (inl impossible) = absurd cc
  key_line-max_temp sw m (c ∷ id) v (inr (q, h)) = rw (h, put-get (c ∷ id) q m h) refl

  key_line-fan_status :
      (sw : Ibswinfo F) (m : Dict (SwitchPowerSupply F)) (id v : Text)
      → key_line fl (behind sw m [] id 4) (codes "fan status") v
        ≡ some (behind (record sw { fan_status = v }) m [] id 4)
  unfolding key_line set_static has_prefix equal hardware_line start_psu set_psu_texts set_number
      store_psu set_fan_status add_fan find_at psu_at fan_at
  key_line-fan_status sw m [] v = refl
  key_line-fan_status sw m (c ∷ id) v = refl

  -- What the line of a fan says.
  abbrev pub fan_said : FanLine → SwitchFan F
  fan_said f = record { id = f.first ∷ f.digits; rpm = reading fl f.rpm }

  key_line-fan :
      (sw : Ibswinfo F) (m : Dict (SwitchPowerSupply F)) (fans : List (SwitchFan F)) (id : Text)
      (c : ℕ) (digits rpm : Text)
      → All (λ d. is_digit d ≡ true) (c ∷ digits)
      → IsSpeed fl rpm
      → key_line fl (behind sw m fans id 4) (fan_key c digits) rpm
        ≡ some (behind sw m (fans ++ record { id = c ∷ digits; rpm = reading fl rpm } ∷ []) id 4)
  unfolding key_line set_static has_prefix equal hardware_line start_psu set_psu_texts set_number
      store_psu set_fan_status add_fan reading
  key_line-fan sw m fans [] c digits [] hd hs =
      rw (psu_at-fan_key c digits hd, fan_at-fan_key c digits hd) refl
  key_line-fan sw m fans (i ∷ id) c digits [] hd hs =
      rw (psu_at-fan_key c digits hd, fan_at-fan_key c digits hd) refl
  key_line-fan sw m fans [] c digits (b ∷ rpm) hd (_, (x, e)) =
      rw (psu_at-fan_key c digits hd, fan_at-fan_key c digits hd, e) refl
  key_line-fan sw m fans (i ∷ id) c digits (b ∷ rpm) hd (_, (x, e)) =
      rw (psu_at-fan_key c digits hd, fan_at-fan_key c digits hd, e) refl

  abbrev pub fans_said : List FanLine → List (SwitchFan F)
  fans_said [] = []
  fans_said (f ∷ fs) = fan_said f ∷ fans_said fs

  pub IsSpeed-IsValue : (v : Text) → IsSpeed fl v → IsValue v
  unfolding trim_space trim_by drop_while
  IsSpeed-IsValue [] h = (tt, tt, refl)
  IsSpeed-IsValue (c ∷ v) (h, _) = h

  module _ (pad : Text → ℕ) where
    pub full_lines-fans :
        (sw : Ibswinfo F) (m : Dict (SwitchPowerSupply F)) (id : Text) (fs : List FanLine)
        (fans : List (SwitchFan F)) (ls : List Text)
        → All (IsFan fl) fs
        → full_lines fl (behind sw m fans id 4) (fan_lines pad fs ++ ls)
          ≡ full_lines fl (behind sw m (fans ++ fans_said fs) id 4) ls
    full_lines-fans sw m id [] fans ls h = rw (append-nil fans) refl
    full_lines-fans sw m id (f ∷ fs) fans ls ((hd, hs), h) =
        full_lines-line pad (fan_key f.first f.digits) (fan_key-IsKey f.first f.digits hd) f.rpm fl
          0 _ _ (fan_lines pad fs ++ ls) (IsSpeed-IsValue f.rpm hs)
          (key_line-fan sw m fans id f.first f.digits f.rpm hd hs)
        ∙ full_lines-fans sw m id fs (fans ++ fan_said f ∷ []) ls h
        ∙ (rw (append_assoc fans (fan_said f ∷ []) (fans_said fs)) refl)

    -- The third divider, the temperatures, the fourth divider and the status of the fans.
    pub full_lines-temp :
        (sw : Ibswinfo F) (m : Dict (SwitchPowerSupply F)) (id : Text) (r : Report) (ls : List Text)
        → IsStored fl id m
        → IsNumber fl r.temp
        → IsValue r.max_temp
        → IsValue r.fan_status
        → full_lines fl (among fl sw m id) (temp_lines pad r ++ ls)
          ≡ full_lines fl
              (behind
                (record sw { temp = or_nan fl (fl.parse_float r.temp); fan_status = r.fan_status })
                m
                []
                id
                4)
              ls
    unfolding is_space
    full_lines-temp sw m id r ls stored (ht, (x, e)) hm hf =
        let sw1 = record sw { temp = or_nan fl (fl.parse_float r.temp) } in
        full_lines-divider sw m [] id 2 _
        ∙ next fl pad 0 b't' (codes "emperature (C") b')' refl r.temp _ _ _ ht
            (key_line-temp sw m id r.temp x stored e)
        ∙ next fl pad 0 b'm' (codes "ax temp (C") b')' refl r.max_temp _ _ _ hm
            (key_line-max_temp sw1 m id r.max_temp stored)
        ∙ full_lines-divider sw1 m [] id 3 _
        ∙ next fl pad 0 b'f' (codes "an statu") b's' refl r.fan_status _ _ _ hf
            (key_line-fan_status sw1 m id r.fan_status)
