-- ===== src/Ibswinfo/Worker/Up.antt =====
-- What the switches that `collect` returns say of themselves.
use infiniband_exporter.Prelude.{
  ℕ, ◌<◌, ◌≡◌, refl, Option, none, some, List, [], ◌∷◌, ltb, All, All-append, All-Memᴰ, if_holds,
}
use mathlib.Core.List.{flatten, Memᴰ}
use mathlib.Core.List.Permᴰ
use infiniband_exporter.Prelude.Int.{ℤ, pos_part}
use infiniband_exporter.Dict.Laws.{All-perm}
use infiniband_exporter.Float.{Float64}
use infiniband_exporter.Device.{InfinibandDevice}
use infiniband_exporter.Exec.{Outcome, deadline_exceeded, exit_error}
use infiniband_exporter.Pool.{here}
use infiniband_exporter.Pool.Laws.{trace-perm}
use infiniband_exporter.Pool.Progress.{pool_ends}
use infiniband_exporter.Ibswinfo.{Ibswinfo}
use infiniband_exporter.Ibswinfo.Full.{parse_ibswinfo}
use infiniband_exporter.Ibswinfo.Cache.{
  IbswinfoCacheEntry, StaticCache, use_vitals_for_guid, restore, evict,
}
use infiniband_exporter.Ibswinfo.Collector.{swinfo_up}
use infiniband_exporter.Ibswinfo.Worker.{
  SwitchFabric, SwinfoEvent, count_timeout, count_error, store_entry, append_swinfo, Swinfos,
  apply_swinfo, apply_swinfos, new_ibswinfo, store_full, full_result, swinfo_result, is_some,
  collect_switch, switch_tasks, CollectsSwinfos,
}
use infiniband_exporter.Ibswinfo.Worker.Flags.{HasFlags, parse_ibswinfo_vitals-HasFlags}
use infiniband_exporter.Ibswinfo.Worker.FullFlags.{ResultHas, parse_ibswinfo-ResultHas}

module _ {F : Type 0} (fl : Float64 F) (devices : List (InfinibandDevice F)) where
  -- A switch of the fabric, with no error and no timeout.
  abbrev IsSound : Ibswinfo F → Type 0
  IsSound swinfo = HasFlags (fl.decimal 0 0) (fl.decimal 0 0) swinfo × Memᴰ swinfo.device devices

  -- Only sound data is appended.
  abbrev Appends : SwinfoEvent F → Type 0
  Appends (append_swinfo swinfo) = IsSound swinfo
  Appends _ = Unit

  apply_swinfo-IsSound :
      (s : Swinfos F) (e : SwinfoEvent F)
      → Appends e
      → All IsSound s.swinfos
      → All IsSound (apply_swinfo s e).swinfos
  unfolding apply_swinfo
  apply_swinfo-IsSound s count_timeout he h = h
  apply_swinfo-IsSound s count_error he h = h
  apply_swinfo-IsSound s (store_entry guid entry) he h = h
  apply_swinfo-IsSound s (append_swinfo swinfo) he h =
      All-append IsSound s.swinfos (swinfo ∷ []) h (he, tt)

  apply_swinfos-IsSound :
      (s : Swinfos F) (es : List (SwinfoEvent F))
      → All Appends es
      → All IsSound s.swinfos
      → All IsSound (apply_swinfos s es).swinfos
  unfolding apply_swinfos
  apply_swinfos-IsSound s [] hs h = h
  apply_swinfos-IsSound s (e ∷ es) (he, hs) h =
      apply_swinfos-IsSound (apply_swinfo s e) es hs (apply_swinfo-IsSound s e he h)

  module _ (ttl : ℤ) (fabric : SwitchFabric F) where
    full_result-Appends :
        (device : InfinibandDevice F) (o : Option (Ibswinfo F))
        → Memᴰ device devices
        → ResultHas (fl.decimal 0 0) (fl.decimal 0 0) fl o
        → All Appends (full_result fl ttl fabric device o)
    unfolding full_result store_full
    full_result-Appends device none m h = (tt, tt)
    full_result-Appends device (some swinfo) m h =
        All-append Appends (store_full fl ttl fabric device swinfo) _
          (if_holds (All Appends) (ltb 0 (pos_part ttl)) _ _ (tt, tt) tt) ((h.0, m), tt)

    swinfo_result-Appends :
        (device : InfinibandDevice F) (cached : Option IbswinfoCacheEntry) (swinfo : Ibswinfo F)
        (o : Outcome)
        → Memᴰ device devices
        → HasFlags (fl.decimal 0 0) (fl.decimal 0 0) swinfo
        → All Appends (swinfo_result fl ttl fabric device cached swinfo o)
    unfolding swinfo_result restore
    swinfo_result-Appends device cached swinfo (out, some deadline_exceeded) m h = (tt, tt)
    swinfo_result-Appends device cached swinfo (out, some (exit_error e)) m h = (tt, tt)
    swinfo_result-Appends device (some entry) swinfo (out, none) m h = (
      (
        parse_ibswinfo_vitals-HasFlags (fl.decimal 0 0) (fl.decimal 0 0) fl fabric.order out swinfo
            h,
        m,
      ),
      tt,
    )
    swinfo_result-Appends device none swinfo (out, none) m h =
        full_result-Appends device (parse_ibswinfo fl fabric.order out swinfo) m
          (parse_ibswinfo-ResultHas (fl.decimal 0 0) (fl.decimal 0 0) fl fabric.order out swinfo h)

    switch_tasks-Appends :
        (cache : StaticCache) (ds : List (InfinibandDevice F))
        → All (λ d. Memᴰ d devices) ds
        → All Appends (flatten (switch_tasks fl ttl fabric cache ds))
    unfolding switch_tasks collect_switch flatten
    switch_tasks-Appends cache [] h = tt
    switch_tasks-Appends cache (d ∷ ds) (hd, h) =
        let cached = use_vitals_for_guid ttl (fabric.checked d.guid) cache d.guid in
        All-append Appends (collect_switch fl ttl fabric cache d) _
          (swinfo_result-Appends d cached
            (new_ibswinfo fl ttl fabric d (fabric.elapsed d.lid (is_some fl ttl fabric cached)))
            (fabric.exec d.lid (is_some fl ttl fabric cached)) hd (refl, refl))
          (switch_tasks-Appends cache ds h)

module _ {F : Type 0} (fl : Float64 F) where
  -- A switch of the fabric that is reported to be up.
  abbrev pub IsUp : List (InfinibandDevice F) → Ibswinfo F → Type 0
  IsUp devices swinfo = (swinfo_up fl swinfo ≡ fl.decimal 1 0) × Memᴰ swinfo.device devices

  no_flags :
      (x y : F)
      → x ≡ fl.decimal 0 0
      → y ≡ fl.decimal 0 0
      → fl.sub (fl.sub (fl.decimal 1 0) x) y ≡ fl.decimal 1 0
  no_flags x y ex ey = rw (ex, ey, fl.sub_zero 1) (fl.sub_zero 1)

  All-IsUp :
      (devices : List (InfinibandDevice F)) (ss : List (Ibswinfo F))
      → All (IsSound fl devices) ss
      → All (IsUp devices) ss
  unfolding swinfo_up
  All-IsUp devices [] h = tt
  All-IsUp devices (s ∷ ss) (((e, t), m), h) =
      ((no_flags s.error s.timeout e t, m), All-IsUp devices ss h)

  -- Whatever `ibswinfo` answered, every switch that `collect` returns is one of the devices and is
  -- reported to be up: a switch whose run fails is left out.
  pub swinfos-IsUp :
      (ttl : ℤ) (fabric : SwitchFabric F) (limit : ℕ) (devices : List (InfinibandDevice F))
      (before result : Swinfos F)
      → CollectsSwinfos fl ttl fabric limit devices before result
      → All (IsUp devices) result.swinfos
  swinfos-IsUp ttl fabric limit devices before result c = All-IsUp devices result.swinfos (
      rw c.swept (
        apply_swinfos-IsSound fl devices (record before { swinfos = [] }) c.pool.trace
          (All-perm (Appends fl devices)
            (Permᴰ.symm
              (trace-perm limit (switch_tasks fl ttl fabric before.cache devices) c.steps c.done))
            (switch_tasks-Appends fl devices ttl fabric before.cache devices
              (All-Memᴰ devices devices (λ a m. m))))
          tt))

  -- With room for at least one goroutine `collect` can always come to its end.
  pub collect_swinfos_returns :
      (ttl : ℤ) (fabric : SwitchFabric F) (limit : ℕ) (devices : List (InfinibandDevice F))
      (before : Swinfos F)
      → 0 < limit
      → (result : Swinfos F) × CollectsSwinfos fl ttl fabric limit devices before result
  collect_swinfos_returns ttl fabric limit devices before room =
      let (_, _, (pool, steps, done)) =
        pool_ends limit (switch_tasks fl ttl fabric before.cache devices) room here in
      let after = apply_swinfos (record before { swinfos = [] }) pool.trace in
      (
        record after { cache = evict ttl devices after.cache },
        record { pool = pool; steps = steps; done = done; swept = refl },
      )
