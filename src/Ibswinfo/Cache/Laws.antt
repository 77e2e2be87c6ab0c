-- ===== src/Ibswinfo/Cache/Laws.antt =====
-- What the cache gives back, and what it forgets.
use infiniband_exporter.Prelude.{
  ℕ, ◌-◌, ◌<◌, ◌≡◌, ◌≢◌, ◌⊎◌, map, refl, true, false, not, ◌&&◌, Option, none, some, List, [], ◌∷◌,
  arith, All, Bool-cases, inl, inr, ltb, if◌then◌else◌,
}
use mathlib.Core.List.{Memᴰ}
use mathlib.Core.Option
use mathlib.Core.Path.{subst}
use infiniband_exporter.Prelude.Int.{ℤ, pos_part}
use infiniband_exporter.Text.{Text, equal}
use infiniband_exporter.Text.Equal.{equal_iff, equal_sound}
use infiniband_exporter.Dict.{Dict, get, put}
use infiniband_exporter.Dict.Laws.{get-put}
use infiniband_exporter.Device.{InfinibandDevice}
use infiniband_exporter.Ibswinfo.{SwitchPowerSupply, Ibswinfo}
use infiniband_exporter.Ibswinfo.Cache.{
  PsuStatus, IbswinfoCacheEntry, StaticCache, fresh_entry, use_vitals_for_guid, psu_statuses,
  entry_of, status_by_id, with_status, restore_psus, restore, seen, delete_unseen, evict,
}

fresh_entry-lt :
    (ttl : ℤ) (now : ℕ) (o : Option IbswinfoCacheEntry) (entry : IbswinfoCacheEntry)
    → fresh_entry ttl now o ≡ some entry
    → (o ≡ some entry) × (now - entry.last_refresh < pos_part ttl)
fresh_entry-lt ttl now none entry h = cc
fresh_entry-lt ttl now (some e) entry h =
    elim (Bool-cases (ltb (now - e.last_refresh) (pos_part ttl))) [
      | inl k ↦
          (let same : some e ≡ some entry = (rw k at h) in
            let e_is : e ≡ entry = cc in
            (
              same,
              subst (λ (x : IbswinfoCacheEntry). now - x.last_refresh < pos_part ttl) e_is
                  (ground arith),
            ))
      | inr k ↦ (let wrong : none ≡ some entry = (rw k at h) in cc)
    ]

-- An entry that is used is the one that is cached for the switch, and it is younger than the TTL.
pub use_vitals_for_guid_lem :
    (ttl : ℤ) (now : ℕ) (cache : StaticCache) (guid : Text) (entry : IbswinfoCacheEntry)
    → use_vitals_for_guid ttl now cache guid ≡ some entry
    → (get guid cache ≡ some entry) × (now - entry.last_refresh < pos_part ttl)
unfolding use_vitals_for_guid
use_vitals_for_guid_lem ttl now cache guid entry h = elim (Bool-cases (ltb 0 (pos_part ttl))) [
  | inl k ↦ fresh_entry-lt ttl now (get guid cache) entry (rw k at h)
  | inr k ↦ (let wrong : none ≡ some entry = (rw k at h) in cc)
]

module _ {F : Type 0} (ds : List (InfinibandDevice F)) where
  get-delete_unseen :
      (g : Text) (cache : StaticCache)
      → get g (delete_unseen ds cache) ≡ (if seen ds g then get g cache else none)
  unfolding delete_unseen get
  get-delete_unseen g [] = ground arith
  get-delete_unseen g ((k, entry) ∷ cache) =
      ground (arith, get-delete_unseen g cache, equal_iff k g)

  pub get-evict :
      (ttl : ℤ) (cache : StaticCache) (g : Text)
      → get g (evict ttl ds cache)
        ≡ (if ltb 0 (pos_part ttl) && not (seen ds g) then none else get g cache)
  unfolding evict
  get-evict ttl cache g = ground (arith, get-delete_unseen g cache)

-- A device has the GUID, or none has.
abbrev pub Has : {F : Type 0} → List (InfinibandDevice F) → Text → Type 0
Has {F} ds g = (d : InfinibandDevice F) × Memᴰ d ds × (d.guid ≡ g)

abbrev pub HasNot : {F : Type 0} → List (InfinibandDevice F) → Text → Type 0
HasNot ds g = All (λ d. d.guid ≢ g) ds

seen-cases :
    {F : Type 0} (ds : List (InfinibandDevice F)) (g : Text)
    → ((seen ds g ≡ true) × Has ds g) ⊎ ((seen ds g ≡ false) × HasNot ds g)
unfolding seen
seen-cases [] g = inr (refl, tt)
seen-cases (d ∷ ds) g = elim (Bool-cases (equal d.guid g)) [
  | inl e ↦ inl (rw e refl, (d, Memᴰ.head refl, equal_sound d.guid g e))
  | inr e ↦ elim (seen-cases ds g) [
    | inl (h, (c, m, k)) ↦ inl (rw e h, (c, Memᴰ.tail m, k))
    | inr (h, k) ↦ inr (rw e h, (λ same. ground (arith, equal_iff d.guid g), k))
  ]
]

-- The end of `collect` forgets the entry of a switch whose GUID no device has, unless the TTL is not
-- positive, which turns the cache off; it keeps all other entries.
pub evict_lem :
    {F : Type 0} (ttl : ℤ) (ds : List (InfinibandDevice F)) (cache : StaticCache) (g : Text)
    → ((0 < pos_part ttl) × HasNot ds g × (get g (evict ttl ds cache) ≡ none))
      ⊎ (((pos_part ttl ≡ 0) ⊎ Has ds g) × (get g (evict ttl ds cache) ≡ get g cache))
evict_lem ttl ds cache g = elim (Bool-cases (ltb 0 (pos_part ttl))) [
  | inr k ↦ inr (inl (ground arith), rw (get-evict ds ttl cache g, k) refl)
  | inl k ↦ elim (seen-cases ds g) [
    | inl (h, has) ↦ inr (inr has, rw (get-evict ds ttl cache g, k, h) refl)
    | inr (h, has_not) ↦ inl (ground arith, has_not, rw (get-evict ds ttl cache g, k, h) refl)
  ]
]

module _ {F : Type 0} where
  abbrev pub psu_ids : List (SwitchPowerSupply F) → List Text
  psu_ids [] = []
  psu_ids (p ∷ ps) = p.id ∷ psu_ids ps

  abbrev status_of : SwitchPowerSupply F → PsuStatus
  status_of p = record {
    id = p.id;
    status = p.status;
    dc_power = p.dc_power;
    fan_status = p.fan_status;
  }

  -- The last power supply with an id, or what was found before.
  abbrev pub last_with :
      Text
      → List (SwitchPowerSupply F)
      → Option (SwitchPowerSupply F)
      → Option (SwitchPowerSupply F)
  last_with id [] found = found
  last_with id (p ∷ ps) found = last_with id ps (if equal p.id id then some p else found)

  -- A power supply with the three status texts of another, if there is one.
  abbrev pub given : Option (SwitchPowerSupply F) → SwitchPowerSupply F → SwitchPowerSupply F
  given none q = q
  given (some p) q = record q {
    status = p.status;
    dc_power = p.dc_power;
    fan_status = p.fan_status;
  }

  get-status_by_id :
      (id : Text) (ps : List (SwitchPowerSupply F)) (m : Dict PsuStatus)
      (found : Option (SwitchPowerSupply F))
      → get id m ≡ Option.map status_of found
      → get id (status_by_id (psu_statuses ps) m) ≡ Option.map status_of (last_with id ps found)
  unfolding status_by_id
  get-status_by_id id [] m found h = h
  get-status_by_id id (p ∷ ps) m found h =
      get-status_by_id id ps (put p.id (status_of p) m) (if equal p.id id then some p else found)
        (elim (Bool-cases (equal p.id id)) [
          | inl e ↦ rw (get-put p.id id (status_of p) m, e) refl
          | inr e ↦ rw (get-put p.id id (status_of p) m, e) h
        ])

  with_status-given :
      (o : Option (SwitchPowerSupply F)) (q : SwitchPowerSupply F)
      → with_status (Option.map status_of o) q ≡ given o q
  with_status-given none q = refl
  with_status-given (some p) q = refl

  restore_psus-given :
      (ps qs : List (SwitchPowerSupply F))
      → restore_psus (status_by_id (psu_statuses ps) []) qs
        ≡ map (λ (q : SwitchPowerSupply F). given (last_with q.id ps none) q) qs
  unfolding restore_psus
  restore_psus-given ps [] = refl
  restore_psus-given ps (q ∷ qs) =
      rw
        (
          get-status_by_id q.id ps [] none (unfold get in refl),
          with_status-given (last_with q.id ps none) q,
          restore_psus-given ps qs,
        )
        refl

  -- What a full output stored comes back to the data of a later vitals output: the four hardware
  -- texts, the fan status, and to each power supply, in their order, the three status texts of the
  -- last one of the full output with its id; a power supply that the full output has not is left
  -- alone, and so are the other fields.
  pub restore-entry_of :
      (full vitals : Ibswinfo F) (now : ℕ)
      → restore (entry_of full now) vitals ≡ record vitals {
        part_number = full.part_number;
        serial_number = full.serial_number;
        psid = full.psid;
        firmware_version = full.firmware_version;
        fan_status = full.fan_status;
        power_supplies =
            map
              (λ (q : SwitchPowerSupply F). given (last_with q.id full.power_supplies none) q)
              vitals.power_supplies;
      }
  unfolding restore entry_of
  restore-entry_of full vitals now =
      rw (restore_psus-given full.power_supplies vitals.power_supplies) refl
