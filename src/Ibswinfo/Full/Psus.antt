-- ===== src/Ibswinfo/Full/Psus.antt =====
-- What the lines of the power supplies do to what has been read.
use infiniband_exporter.Prelude.{
  Option, none, ℕ, ◌≡◌, refl, ap, ◌∙◌, true, some, List, [], ◌∷◌, ◌++◌, append_assoc, All, ◌⊎◌, inr,
}
use infiniband_exporter.Text.{Text, codes, equal, is_digit, is_space, has_prefix}
use infiniband_exporter.Text.Equal.{equal_refl}
use infiniband_exporter.Dict.{Dict, get, put}
use infiniband_exporter.Dict.Laws.{get-put, put-put}
use infiniband_exporter.Float.{Float64}
use infiniband_exporter.Ibswinfo.{SwitchPowerSupply, Ibswinfo}
use infiniband_exporter.Ibswinfo.Vitals.{or_nan}
use infiniband_exporter.Ibswinfo.Full.{
  FullState, key_line, full_lines, set_static, hardware_line, start_psu, find_at, psu_at, fan_at,
  set_psu_texts, set_number, store_psu, set_fan_status, add_fan,
}
use infiniband_exporter.Ibswinfo.Full.Report.{
  PsuLines, psu_key, line, psu_lines, power_lines, IsPower, all_psu_lines, IsValue, IsPsu,
}
use infiniband_exporter.Ibswinfo.Full.Lines.{full_lines-line}
use infiniband_exporter.Ibswinfo.Full.Keys.{
  is_key, plain-IsKey, psu_key-IsKey, psu_at-psu_key, fan_at-psu_key,
}

module _ {F : Type 0} (fl : Float64 F) where
  -- Behind the second divider; `id` is of the power supply that was read last.
  abbrev pub among : Ibswinfo F → Dict (SwitchPowerSupply F) → Text → FullState F
  among sw m id = record { swinfo = sw; psus = m; fans = []; psu_id = id; divider_count = 2 }

  -- Among the power supplies, while the one with the digit `d` is read as `q`.
  abbrev pub at_psu :
      Ibswinfo F → Dict (SwitchPowerSupply F) → ℕ → SwitchPowerSupply F → FullState F
  at_psu sw m d q = among sw (put (d ∷ []) q m) (d ∷ [])

  abbrev pub new_supply : Text → SwitchPowerSupply F
  new_supply status = record {
    id = [];
    status = status;
    dc_power = [];
    fan_status = [];
    power_w = fl.nan;
  }

  -- NaN where there is no line.
  abbrev pub power_said : Option Text → F
  power_said none = fl.nan
  power_said (some power) = or_nan fl (fl.parse_float power)

  -- What the lines of a power supply say.
  abbrev pub psu_said : PsuLines → SwitchPowerSupply F
  psu_said p = record {
    id = [];
    status = p.status_first ∷ p.status_rest;
    dc_power = p.dc_power;
    fan_status = p.fan_status;
    power_w = power_said p.power;
  }

  get-here :
      (d : ℕ) (q : SwitchPowerSupply F) (m : Dict (SwitchPowerSupply F))
      → get (d ∷ []) (put (d ∷ []) q m) ≡ some q
  get-here d q m = get-put (d ∷ []) (d ∷ []) q m ∙ (rw (equal_refl (d ∷ [])) refl)

  key_line-status :
      (sw : Ibswinfo F) (m : Dict (SwitchPowerSupply F)) (id : Text) (d c : ℕ) (s : Text)
      → is_digit d ≡ true
      → key_line fl (among sw m id) (psu_key d) (c ∷ s) ≡ some (at_psu sw m d (new_supply (c ∷ s)))
  unfolding key_line set_static has_prefix equal hardware_line start_psu set_psu_texts set_number
      store_psu set_fan_status add_fan
  key_line-status sw m id d c s h = rw (psu_at-psu_key d h, fan_at-psu_key d h) refl

  module _ (sw : Ibswinfo F) (m : Dict (SwitchPowerSupply F)) (d : ℕ) (q : SwitchPowerSupply F)
      (v : Text) where
    key_line-part : key_line fl (at_psu sw m d q) (codes "P/N") v ≡ some (at_psu sw m d q)
    unfolding key_line set_static has_prefix equal hardware_line start_psu set_psu_texts set_number
        store_psu set_fan_status add_fan find_at psu_at fan_at
    key_line-part = rw (get-here d q m, put-put (d ∷ []) q q m) refl

    key_line-serial : key_line fl (at_psu sw m d q) (codes "S/N") v ≡ some (at_psu sw m d q)
    unfolding key_line set_static has_prefix equal hardware_line start_psu set_psu_texts set_number
        store_psu set_fan_status add_fan find_at psu_at fan_at
    key_line-serial = rw (get-here d q m, put-put (d ∷ []) q q m) refl

    key_line-dc_power :
        key_line fl (at_psu sw m d q) (codes "DC power") v
        ≡ some (at_psu sw m d (record q { dc_power = v }))
    unfolding key_line set_static has_prefix equal hardware_line start_psu set_psu_texts set_number
        store_psu set_fan_status add_fan find_at psu_at fan_at
    key_line-dc_power = rw (get-here d q m, put-put (d ∷ []) (record q { dc_power = v }) q m) refl

    key_line-psu_fan :
        key_line fl (at_psu sw m d q) (codes "fan status") v
        ≡ some (at_psu sw m d (record q { fan_status = v }))
    unfolding key_line set_static has_prefix equal hardware_line start_psu set_psu_texts set_number
        store_psu set_fan_status add_fan find_at psu_at fan_at
    key_line-psu_fan = rw (get-here d q m, put-put (d ∷ []) (record q { fan_status = v }) q m) refl

    key_line-power :
        (x : F)
        → fl.parse_float v ≡ some x
        → key_line fl (at_psu sw m d q) (codes "power (W)") v
          ≡ some (at_psu sw m d (record q { power_w = or_nan fl (fl.parse_float v) }))
    unfolding key_line set_static has_prefix equal hardware_line start_psu set_psu_texts set_number
        store_psu set_fan_status add_fan find_at psu_at fan_at
    key_line-power x e =
        rw (get-here d q m, e, put-put (d ∷ []) (record q { power_w = x }) q m) refl

  module _ (pad : Text → ℕ) where
    -- A line is read, as `full_lines-line` has it, and the loop goes on.
    pub next :
        (indent c : ℕ) (s : Text) (e : ℕ)
        → is_key c s e ≡ true
        → (v : Text) (st st' : FullState F) (ls : List Text) → IsValue v
        → key_line fl st (c ∷ (s ++ e ∷ [])) v ≡ some st'
        → full_lines fl st (line pad indent (c ∷ (s ++ e ∷ [])) v ∷ ls) ≡ full_lines fl st' ls
    next indent c s e k v st st' ls h step =
        full_lines-line pad (c ∷ (s ++ e ∷ [])) (plain-IsKey c s e k) v fl indent st st' ls h step

    -- The last line of a power supply, if it is there.
    psu_power :
        (sw : Ibswinfo F) (m : Dict (SwitchPowerSupply F)) (d c : ℕ) (status dc_power fan : Text)
        (power : Option Text) (ls : List Text)
        → IsPower fl power
        → let q = record (new_supply (c ∷ status)) { dc_power = dc_power; fan_status = fan } in
          full_lines fl (at_psu sw m d q) (power_lines pad power ++ ls)
          ≡ full_lines fl (at_psu sw m d (record q { power_w = power_said power })) ls
    unfolding is_space
    psu_power sw m d c status dc_power fan none ls h = refl
    psu_power sw m d c status dc_power fan (some power) ls (h, (x, e)) =
        let q = record (new_supply (c ∷ status)) { dc_power = dc_power; fan_status = fan } in
        next 5 b'p' (codes "ower (W") b')' refl power _ _ _ h (key_line-power sw m d q power x e)

    psu_block :
        (sw : Ibswinfo F) (m : Dict (SwitchPowerSupply F)) (id : Text) (p : PsuLines)
        (ls : List Text)
        → IsPsu fl p
        → full_lines fl (among sw m id) (psu_lines pad p ++ ls)
          ≡ full_lines fl (at_psu sw m p.digit (psu_said p)) ls
    unfolding is_space
    psu_block sw m id p ls (hd, hs, hpart, hserial, hdc, hfan, hpower) =
        let q1 = new_supply (p.status_first ∷ p.status_rest) in
        let q2 = record q1 { dc_power = p.dc_power } in
        full_lines-line pad (psu_key p.digit) (psu_key-IsKey p.digit hd) _ fl 0 _ _ _ hs
          (key_line-status sw m id p.digit p.status_first p.status_rest hd)
        ∙ next 5 b'P' (codes "/") b'N' refl p.part _ _ _ hpart
            (key_line-part sw m p.digit q1 p.part)
        ∙ next 5 b'S' (codes "/") b'N' refl p.serial _ _ _ hserial
            (key_line-serial sw m p.digit q1 p.serial)
        ∙ next 5 b'D' (codes "C powe") b'r' refl p.dc_power _ _ _ hdc
            (key_line-dc_power sw m p.digit q1 p.dc_power)
        ∙ next 5 b'f' (codes "an statu") b's' refl p.fan_status _ _ _ hfan
            (key_line-psu_fan sw m p.digit q2 p.fan_status)
        ∙ psu_power sw m p.digit p.status_first p.status_rest p.dc_power p.fan_status p.power ls
            hpower

  -- The power supplies after those of the lines, and the last one's id.
  abbrev pub put_psus : Dict (SwitchPowerSupply F) → List PsuLines → Dict (SwitchPowerSupply F)
  put_psus m [] = m
  put_psus m (p ∷ ps) = put_psus (put (p.digit ∷ []) (psu_said p) m) ps

  abbrev pub last_id : Text → List PsuLines → Text
  last_id id [] = id
  last_id id (p ∷ ps) = last_id (p.digit ∷ []) ps

  -- No power supply has been read yet, or the last one is stored.
  abbrev pub IsStored : Text → Dict (SwitchPowerSupply F) → Type 0
  IsStored id m = (id ≡ []) ⊎ ((q : SwitchPowerSupply F) × (get id m ≡ some q))

  pub put_psus-IsStored :
      (ps : List PsuLines) (m : Dict (SwitchPowerSupply F)) (id : Text)
      → IsStored id m
      → IsStored (last_id id ps) (put_psus m ps)
  put_psus-IsStored [] m id h = h
  put_psus-IsStored (p ∷ ps) m id h =
      put_psus-IsStored ps (put (p.digit ∷ []) (psu_said p) m) (p.digit ∷ [])
        (inr (psu_said p, get-here p.digit (psu_said p) m))

  pub full_lines-psus :
      (pad : Text → ℕ) (sw : Ibswinfo F) (ps : List PsuLines) (m : Dict (SwitchPowerSupply F))
      (id : Text) (ls : List Text)
      → All (IsPsu fl) ps
      → full_lines fl (among sw m id) (all_psu_lines pad ps ++ ls)
        ≡ full_lines fl (among sw (put_psus m ps) (last_id id ps)) ls
  full_lines-psus pad sw [] m id ls h = refl
  full_lines-psus pad sw (p ∷ ps) m id ls (hp, h) =
      ap (full_lines fl (among sw m id)) (append_assoc (psu_lines pad p) (all_psu_lines pad ps) ls)
      ∙ psu_block pad sw m id p (all_psu_lines pad ps ++ ls) hp
      ∙ full_lines-psus pad sw ps (put (p.digit ∷ []) (psu_said p) m) (p.digit ∷ []) ls h
