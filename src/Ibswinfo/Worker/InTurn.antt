-- ===== src/Ibswinfo/Worker/InTurn.antt =====
-- `collect` against a loop over the switches with no goroutines.
use infiniband_exporter.Prelude.{
  ℕ, ◌≡◌, refl, sym, ◌∙◌, ◌⊎◌, inl, inr, false, Option, none, some, List, [], ◌∷◌, ◌++◌, All, map,
  filter_map, Bool-cases, ltb,
}
use mathlib.Core.List.{flatten}
use mathlib.Core.List.Permᴰ
use infiniband_exporter.Prelude.Int.{ℤ, pos_part}
use infiniband_exporter.Text.{Text, equal}
use infiniband_exporter.Dict.{get}
use infiniband_exporter.Dict.Laws.{Distinct, Distinct-perm, get-put}
use infiniband_exporter.Float.{Float64}
use infiniband_exporter.Device.{InfinibandDevice}
use infiniband_exporter.Exec.{Outcome, deadline_exceeded, exit_error}
use infiniband_exporter.Pool.Laws.{trace-perm}
use infiniband_exporter.Pool.Interchange.{keys-Distinct}
use infiniband_exporter.Ibswinfo.{Ibswinfo}
use infiniband_exporter.Ibswinfo.Full.{parse_ibswinfo}
use infiniband_exporter.Ibswinfo.Cache.{IbswinfoCacheEntry, StaticCache, use_vitals_for_guid, evict}
use infiniband_exporter.Ibswinfo.Cache.Laws.{get-evict}
use infiniband_exporter.Ibswinfo.Worker.{
  SwitchFabric, SwinfoEvent, count_timeout, count_error, store_entry, append_swinfo, Swinfos,
  apply_swinfo, apply_swinfos, store_full, new_ibswinfo, is_some, full_result, swinfo_result,
  collect_switch, switch_tasks, CollectsSwinfos,
}
use infiniband_exporter.Ibswinfo.Worker.Schedule.{IsSame, stored_guid, perm-IsSame}

module _ {F : Type 0} (fl : Float64 F) (ttl : ℤ) (fabric : SwitchFabric F) where
  -- One switch after the other, each on the cache as the ones before have left it.
  pub take_turns : List (InfinibandDevice F) → Swinfos F → Swinfos F
  take_turns [] s = s
  take_turns (d ∷ ds) s = take_turns ds (apply_swinfos s (collect_switch fl ttl fabric s.cache d))

  abbrev swept : List (InfinibandDevice F) → Swinfos F → Swinfos F
  swept devices s = record s { cache = evict ttl devices s.cache }

  pub collect_in_turn : List (InfinibandDevice F) → Swinfos F → Swinfos F
  unfolding take_turns
  collect_in_turn devices before =
      swept devices (take_turns devices (record before { swinfos = [] }))

  -- What a goroutine stores, if anything, is the entry of its own switch, once.
  abbrev IsOwn : Text → List (SwinfoEvent F) → Type 0
  IsOwn guid es = (filter_map stored_guid es ≡ []) ⊎ (filter_map stored_guid es ≡ guid ∷ [])

  full_result-IsOwn :
      (device : InfinibandDevice F) (o : Option (Ibswinfo F))
      → IsOwn device.guid (full_result fl ttl fabric device o)
  unfolding full_result store_full filter_map
  full_result-IsOwn device none = inl refl
  full_result-IsOwn device (some swinfo) = elim (Bool-cases (ltb 0 (pos_part ttl))) [
    | inl e ↦ inr (rw e refl)
    | inr e ↦ inl (rw e refl)
  ]

  swinfo_result-IsOwn :
      (device : InfinibandDevice F) (cached : Option IbswinfoCacheEntry) (swinfo : Ibswinfo F)
      (o : Outcome)
      → IsOwn device.guid (swinfo_result fl ttl fabric device cached swinfo o)
  unfolding swinfo_result filter_map
  swinfo_result-IsOwn device cached swinfo (out, some deadline_exceeded) = inl refl
  swinfo_result-IsOwn device cached swinfo (out, some (exit_error e)) = inl refl
  swinfo_result-IsOwn device (some entry) swinfo (out, none) = inl refl
  swinfo_result-IsOwn device none swinfo (out, none) =
      full_result-IsOwn device (parse_ibswinfo fl fabric.order out swinfo)

  collect_switch-IsOwn :
      (cache : StaticCache) (device : InfinibandDevice F)
      → IsOwn device.guid (collect_switch fl ttl fabric cache device)
  unfolding collect_switch
  collect_switch-IsOwn cache device =
      let cached = use_vitals_for_guid ttl (fabric.checked device.guid) cache device.guid in
      let vitals = is_some fl ttl fabric cached in
      swinfo_result-IsOwn device cached
        (new_ibswinfo fl ttl fabric device (fabric.elapsed device.lid vitals))
        (fabric.exec device.lid vitals)

  -- Other entries stay as they are.
  get-apply_swinfos :
      (g : Text) (es : List (SwinfoEvent F)) (s : Swinfos F)
      → All (λ k. equal k g ≡ false) (filter_map stored_guid es)
      → get g (apply_swinfos s es).cache ≡ get g s.cache
  unfolding apply_swinfos apply_swinfo filter_map
  get-apply_swinfos g [] s h = refl
  get-apply_swinfos g (count_timeout ∷ es) s h = get-apply_swinfos g es _ h
  get-apply_swinfos g (count_error ∷ es) s h = get-apply_swinfos g es _ h
  get-apply_swinfos g (append_swinfo x ∷ es) s h = get-apply_swinfos g es _ h
  get-apply_swinfos g (store_entry guid entry ∷ es) s (hd, h) =
      get-apply_swinfos g es _ h ∙ rw (get-put guid g entry s.cache, hd) refl

  apply_swinfos-append :
      (s : Swinfos F) (es es' : List (SwinfoEvent F))
      → apply_swinfos s (es ++ es') ≡ apply_swinfos (apply_swinfos s es) es'
  unfolding apply_swinfos
  apply_swinfos-append s [] es' = refl
  apply_swinfos-append s (e ∷ es) es' = apply_swinfos-append (apply_swinfo s e) es es'

  -- A goroutine reads the entry of its own switch only.
  collect_switch-cache :
      (cache cache' : StaticCache) (d : InfinibandDevice F)
      → get d.guid cache ≡ get d.guid cache'
      → collect_switch fl ttl fabric cache d ≡ collect_switch fl ttl fabric cache' d
  unfolding collect_switch use_vitals_for_guid
  collect_switch-cache cache cache' d e = rw e refl

  -- The caches agree on the switches that are still to come.
  abbrev Agree : StaticCache → StaticCache → List (InfinibandDevice F) → Type 0
  Agree cache cache' ds = All (λ d. get d.guid cache ≡ get d.guid cache') ds

  Agree-after :
      (d : InfinibandDevice F) (cache : StaticCache) (s : Swinfos F) (es : List (SwinfoEvent F))
      (ds : List (InfinibandDevice F))
      → IsOwn d.guid es
      → All (λ j. equal d.guid j ≡ false) (map (λ (x : InfinibandDevice F). x.guid) ds)
      → Agree cache s.cache ds
      → Agree cache (apply_swinfos s es).cache ds
  Agree-after d cache s es [] own differ h = tt
  Agree-after d cache s es (x ∷ ds) own (hx, differ) (ex, h) = (
    elim own [
      | inl e ↦ ex ∙ sym (get-apply_swinfos x.guid es s (rw e tt))
      | inr e ↦ ex ∙ sym (get-apply_swinfos x.guid es s (rw e (hx, tt)))
    ],
    Agree-after d cache s es ds own differ h,
  )

  take_turns-tasks :
      (ds : List (InfinibandDevice F)) (cache : StaticCache) (s : Swinfos F)
      → Distinct (map (λ (x : InfinibandDevice F). x.guid) ds)
      → Agree cache s.cache ds
      → apply_swinfos s (flatten (switch_tasks fl ttl fabric cache ds)) ≡ take_turns ds s
  unfolding switch_tasks flatten take_turns apply_swinfos
  take_turns-tasks [] cache s distinct h = refl
  take_turns-tasks (d ∷ ds) cache s (differ, distinct) (hd, h) =
      let same = collect_switch-cache cache s.cache d hd in
      let es = collect_switch fl ttl fabric s.cache d in
      apply_swinfos-append s (collect_switch fl ttl fabric cache d) _
      ∙ (rw same (
          take_turns-tasks ds cache (apply_swinfos s es) distinct
            (Agree-after d cache s es ds (collect_switch-IsOwn s.cache d) differ h)))

  switch_tasks-map :
      (cache : StaticCache) (ds : List (InfinibandDevice F))
      → switch_tasks fl ttl fabric cache ds ≡ map (collect_switch fl ttl fabric cache) ds
  unfolding switch_tasks
  switch_tasks-map cache [] = refl
  switch_tasks-map cache (d ∷ ds) = rw (switch_tasks-map cache ds) refl

  swept-IsSame :
      (devices : List (InfinibandDevice F)) (s t : Swinfos F)
      → IsSame s t
      → IsSame (swept devices s) (swept devices t)
  swept-IsSame devices s t h = record {
    swinfos = h.swinfos;
    cache =
        λ g. rw (get-evict devices ttl s.cache g, get-evict devices ttl t.cache g, h.cache g) refl;
    errors = h.errors;
    timeouts = h.timeouts;
  }

  -- Where the switches have distinct GUIDs, whatever the schedule, what `collect` returns and what it
  -- leaves in the cache and the totals is that of the loop that takes one switch after the other,
  -- each reading the cache as the ones before it have left it, up to the order of the switches and of
  -- the entries of the cache.
  pub collect_swinfos_lem :
      (limit : ℕ) (devices : List (InfinibandDevice F)) (before result : Swinfos F)
      → Distinct (map (λ (x : InfinibandDevice F). x.guid) devices)
      → CollectsSwinfos fl ttl fabric limit devices before result
      → IsSame result (collect_in_turn devices before)
  unfolding collect_in_turn
  collect_swinfos_lem limit devices before result distinct c =
      let cleared : Swinfos F = record before { swinfos = [] } in
      let tasks = switch_tasks fl ttl fabric before.cache devices in
      let taken = trace-perm limit tasks c.steps c.done in
      let written : Distinct (filter_map stored_guid (flatten tasks)) =
        rw (switch_tasks-map before.cache devices) (
          keys-Distinct stored_guid (collect_switch fl ttl fabric before.cache)
            (λ (x : InfinibandDevice F). x.guid) (collect_switch-IsOwn before.cache) devices
            distinct) in
      rw (c.swept, ← take_turns-tasks devices before.cache cleared distinct (All-same devices))
        (swept-IsSame devices _ _ (
          perm-IsSame taken
            (Distinct-perm (Permᴰ.filter_map stored_guid (Permᴰ.symm taken)) written) cleared))
    where
      All-same : (ds : List (InfinibandDevice F)) → Agree before.cache before.cache ds
      All-same [] = tt
      All-same (d ∷ ds) = (refl, All-same ds)
