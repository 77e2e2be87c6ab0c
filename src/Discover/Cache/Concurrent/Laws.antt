-- ===== src/Discover/Cache/Concurrent/Laws.antt =====
-- What calls that run at the same time answer.
use infiniband_exporter.Prelude.{
  ◌-◌, ◌<◌, ◌≡◌, refl, sym, ◌⊎◌, inl, inr, Bool, ◌&&◌, List, [], ◌∷◌, ◌++◌, All, All-append,
  All-Memᴰ, Bool-cases, ltb,
}
use mathlib.Core.List.{Memᴰ}
use infiniband_exporter.Prelude.Int.{ℤ, pos_part}
use infiniband_exporter.Dict.{RangeOrder}
use infiniband_exporter.Float.{Float64}
use infiniband_exporter.Discover.Parse.{Topology}
use infiniband_exporter.Discover.Cache.{
  Shared, Scrape, Ports, found, collect, is_fresh, initial_shared,
}
use infiniband_exporter.Discover.Cache.Laws.{
  IsBacked, count-cache, store-IsBacked, cached_ports_lem,
}
use infiniband_exporter.Discover.Cache.Concurrent.{
  Stage, entered, missed, collected, answered, Call, look_up, advance, new_calls, Move, move, Moves,
  stay, more,
}

module _ {F : Type 0} (fl : Float64 F) (ord : RangeOrder) (port_state : Bool) (ttl : ℤ) where
  -- What a call may answer: what it has found itself, or the topology that one of the calls has
  -- found and stored less than the TTL before it tested the cache.
  abbrev pub IsRight : List (Scrape F) → Scrape F → Ports F → Type 0
  IsRight scrapes scrape ports =
      (ports ≡ collect fl ord port_state scrape.outcome)
      ⊎ ((c : Scrape F) × (Memᴰ c scrapes
            × ((t : Topology F) × ((collect fl ord port_state c.outcome ≡ found t)
                  × ((scrape.checked - c.stored < pos_part ttl) × (ports ≡ found t))))))

  abbrev pub IsTrue : List (Scrape F) → Scrape F → Stage F → Type 0
  IsTrue scrapes scrape entered = Unit
  IsTrue scrapes scrape missed = Unit
  IsTrue scrapes scrape (collected ports) = ports ≡ collect fl ord port_state scrape.outcome
  IsTrue scrapes scrape (answered ports) = IsRight scrapes scrape ports

  module _ (scrapes : List (Scrape F)) where
    abbrev IsSound : Call F → Type 0
    IsSound call = Memᴰ call.scrape scrapes × IsTrue scrapes call.scrape call.stage

    abbrev IsFound : Shared F → Type 0
    IsFound shared = IsBacked fl ord port_state (λ c. Memᴰ c scrapes) shared.cache

    look_up-IsTrue :
        (scrape : Scrape F) (shared : Shared F)
        → IsFound shared
        → IsTrue scrapes scrape (look_up fl ord port_state ttl scrape shared)
    unfolding look_up
    look_up-IsTrue scrape shared backed =
        elim (Bool-cases (
          ltb 0 (pos_part ttl)
          && is_fresh fl ord port_state ttl scrape.checked shared.cache.refresh)) [
            | inr k ↦ rw k tt
            | inl k ↦ rw k (
                inr (
                  cached_ports_lem fl ord port_state (λ c. Memᴰ c scrapes) ttl scrape.checked
                    shared.cache backed k))
          ]

    advance-IsSound :
        (stage : Stage F) (call : Call F) (shared : Shared F)
        → IsFound shared
        → Memᴰ call.scrape scrapes
        → IsTrue scrapes call.scrape stage
        → let next = advance fl ord port_state ttl stage call shared in
          IsFound next.0 × IsSound next.1
    unfolding advance
    advance-IsSound entered call shared backed m h =
        (backed, (m, look_up-IsTrue call.scrape shared backed))
    advance-IsSound missed call shared backed m h = (
      rw
          (count-cache fl ord port_state (collect fl ord port_state call.scrape.outcome) shared
            (record call.discover { duration = call.scrape.seconds }))
          backed,
      (m, refl),
    )
    advance-IsSound (collected ports) call shared backed m h = (
      store-IsBacked fl ord port_state (λ c. Memᴰ c scrapes) ttl call.scrape ports shared m (sym h)
          backed,
      (m, inl h),
    )
    advance-IsSound (answered ports) call shared backed m h = (backed, (m, h))

    abbrev IsKept : Shared F × List (Call F) → Type 0
    IsKept s = IsFound s.0 × All IsSound s.1

    All-split :
        (before : List (Call F)) (call : Call F) (after : List (Call F))
        → All IsSound (before ++ call ∷ after)
        → All IsSound before × IsSound call × All IsSound after
    All-split [] call after (h, hs) = (tt, h, hs)
    All-split (b ∷ before) call after (h, hs) =
        let (x, y, z) = All-split before call after hs in ((h, x), y, z)

    Move-IsKept :
        {s t : Shared F × List (Call F)} → Move fl ord port_state ttl s t → IsKept s → IsKept t
    Move-IsKept (move before call after {shared = shared} e) (backed, hs) =
        let (x, (m, y), z) = All-split before call after hs in
        let (backed', sound) = (rw e at (advance-IsSound call.stage call shared backed m y)) in
        (backed', All-append IsSound before _ x (sound, z))

    Moves-IsKept :
        {s t : Shared F × List (Call F)} → Moves fl ord port_state ttl s t → IsKept s → IsKept t
    Moves-IsKept stay h = h
    Moves-IsKept (more ms m) h = Move-IsKept m (Moves-IsKept ms h)

    All-new_calls :
        (runonce : Bool) (ss : List (Scrape F))
        → All (λ c. Memᴰ c scrapes) ss
        → All IsSound (new_calls fl ord port_state ttl runonce ss)
    All-new_calls runonce [] h = tt
    All-new_calls runonce (s ∷ ss) (hs, h) = ((hs, tt), All-new_calls runonce ss h)

  -- However the steps of the calls interleave, each call that has come to its end has answered what
  -- its own `ibnetdiscover` found, or the whole topology that one of the calls has found and stored
  -- less than the TTL before.
  pub concurrent_lem :
      (runonce : Bool) (scrapes : List (Scrape F)) {shared : Shared F} {calls : List (Call F)}
      → Moves fl ord port_state ttl
          (initial_shared, new_calls fl ord port_state ttl runonce scrapes)
          (shared, calls)
      → All (λ (call : Call F). IsTrue scrapes call.scrape call.stage) calls
  concurrent_lem runonce scrapes {calls = calls} ms =
      seconds calls
        (Moves-IsKept scrapes ms
          (inl refl, All-new_calls scrapes runonce scrapes (All-Memᴰ scrapes scrapes (λ a m. m)))).1
    where
      seconds :
          (cs : List (Call F))
          → All (IsSound scrapes) cs
          → All (λ (call : Call F). IsTrue scrapes call.scrape call.stage) cs
      seconds [] h = tt
      seconds (c ∷ cs) ((_, h), hs) = (h, seconds cs hs)
