-- ===== src/Discover/Cache/Laws.antt =====
-- What `GetPorts` answers over a sequence of scrapes, and what a failed scrape leaves.
use infiniband_exporter.Prelude.{
  ℕ, ◌-◌, ◌<◌, ◌≡◌, refl, ap, ◌⊎◌, inl, inr, Bool, true, ◌&&◌, Option, none, some, List, [], ◌∷◌,
  All, All-Memᴰ, Bool-cases, ltb, arith,
}
use mathlib.Core.List.{Memᴰ}
use infiniband_exporter.Prelude.Int.{ℤ, pos_part}
use infiniband_exporter.Dict.{RangeOrder}
use infiniband_exporter.Float.{Float64}
use infiniband_exporter.Device.{InfinibandDevice}
use infiniband_exporter.Exec.{deadline_exceeded, exit_error}
use infiniband_exporter.Collect.Events.{add_u64}
use infiniband_exporter.Discover.Parse.{Topology}
use infiniband_exporter.Discover.Cache.{
  Cache, Shared, IbNetDiscover, Scrape, Ports, DiscoverError, found, failed, crashed, exec_failed,
  parse_failed, collect, count, store, is_fresh, both_lists, cached_ports, refreshed, get_ports,
  serve, initial_shared, new_ib_net_discover,
}

module _ {F : Type 0} (fl : Float64 F) (ord : RangeOrder) (port_state : Bool) where
  -- The topology that is cached, if any, is the one that such a scrape found, at the time it did.
  abbrev pub IsBacked : (Scrape F → Type 0) → Cache F → Type 0
  IsBacked P cache =
      (cache.refresh ≡ none)
      ⊎ ((c : Scrape F) × (P c
            × ((t : Topology F) × ((collect fl ord port_state c.outcome ≡ found t)
                  × (cache ≡ record {
                    switches = some t.switches;
                    hcas = some t.hcas;
                    refresh = some c.stored;
                  })))))

  pub count-cache :
      (ports : Ports F) (shared : Shared F) (ib : IbNetDiscover F)
      → (count fl ord port_state ports (shared, ib)).0.cache ≡ shared.cache
  count-cache (found t) shared ib = refl
  count-cache (failed (exec_failed deadline_exceeded)) shared ib = refl
  count-cache (failed (exec_failed (exit_error e))) shared ib = refl
  count-cache (failed (parse_failed e)) shared ib = refl
  count-cache crashed shared ib = refl

  pub store-IsBacked :
      (P : Scrape F → Type 0) (ttl : ℤ) (c : Scrape F) (ports : Ports F) (shared : Shared F)
      → P c
      → collect fl ord port_state c.outcome ≡ ports
      → IsBacked P shared.cache
      → IsBacked P (store fl ord port_state ttl c.stored ports shared).cache
  store-IsBacked P ttl c (found t) shared hp e h = elim (Bool-cases (ltb 0 (pos_part ttl))) [
    | inl k ↦ rw k (inr (c, (hp, (t, (e, refl)))))
    | inr k ↦ rw k h
  ]
  store-IsBacked P ttl c (failed x) shared hp e h = h
  store-IsBacked P ttl c crashed shared hp e h = h

  get_ports-IsBacked :
      (P : Scrape F → Type 0) (ttl : ℤ) (c : Scrape F) (shared : Shared F) (ib : IbNetDiscover F)
      → P c
      → IsBacked P shared.cache
      → IsBacked P (get_ports fl ord port_state ttl c shared ib).1.0.cache
  unfolding get_ports refreshed
  get_ports-IsBacked P ttl c shared ib hp h =
      elim (Bool-cases
        (ltb 0 (pos_part ttl) && is_fresh fl ord port_state ttl c.checked shared.cache.refresh)) [
          | inl k ↦ rw k h
          | inr k ↦ rw k (
              store-IsBacked P ttl c (collect fl ord port_state c.outcome)
                (count fl ord port_state (collect fl ord port_state c.outcome)
                  (shared, record ib { duration = c.seconds })).0
                hp refl
                (rw
                  (count-cache (collect fl ord port_state c.outcome) shared
                    (record ib { duration = c.seconds }))
                  h))
        ]

  serve-IsBacked :
      (P : Scrape F → Type 0) (ttl : ℤ) (runonce : Bool) (shared : Shared F)
      (scrapes : List (Scrape F))
      → All P scrapes
      → IsBacked P shared.cache
      → IsBacked P (serve fl ord port_state ttl runonce shared scrapes).cache
  unfolding serve
  serve-IsBacked P ttl runonce shared [] hs h = h
  serve-IsBacked P ttl runonce shared (c ∷ cs) (hc, hs) h =
      serve-IsBacked P ttl runonce
        (get_ports fl ord port_state ttl c shared (new_ib_net_discover fl runonce)).1.0 cs hs
        (get_ports-IsBacked P ttl c shared (new_ib_net_discover fl runonce) hc h)

  fresh-lt :
      (ttl : ℤ) (now refresh : ℕ)
      → (ltb 0 (pos_part ttl) && is_fresh fl ord port_state ttl now (some refresh)) ≡ true
      → now - refresh < pos_part ttl
  unfolding is_fresh
  fresh-lt ttl now refresh h = ground arith

  stale-none :
      (ttl : ℤ) (now : ℕ)
      → ¬ ((ltb 0 (pos_part ttl) && is_fresh fl ord port_state ttl now none) ≡ true)
  unfolding is_fresh
  stale-none ttl now h = ground arith

  -- The answer is what the scrape itself finds, or the topology that a scrape of `P` found and that
  -- is younger than the TTL; then nothing is changed.
  abbrev pub IsServed : (Scrape F → Type 0) → ℤ → Scrape F → Shared F → IbNetDiscover F → Type 0
  IsServed P ttl scrape shared ib =
      (((get_ports fl ord port_state ttl scrape shared ib).0
          ≡ collect fl ord port_state scrape.outcome)
        × (get_ports fl ord port_state ttl scrape shared ib
            ≡ refreshed fl ord port_state ttl scrape shared ib))
      ⊎ ((c : Scrape F) × (P c
            × ((t : Topology F) × ((collect fl ord port_state c.outcome ≡ found t)
                  × ((scrape.checked - c.stored < pos_part ttl)
                      × (get_ports fl ord port_state ttl scrape shared ib
                          ≡ (found t, (shared, ib))))))))

  -- A cache that is fresh gives the topology of a scrape that is younger than the TTL.
  pub cached_ports_lem :
      (P : Scrape F → Type 0) (ttl : ℤ) (now : ℕ) (cache : Cache F)
      → IsBacked P cache
      → (ltb 0 (pos_part ttl) && is_fresh fl ord port_state ttl now cache.refresh) ≡ true
      → (c : Scrape F) × (P c
          × ((t : Topology F) × ((collect fl ord port_state c.outcome ≡ found t)
                × ((now - c.stored < pos_part ttl)
                    × (cached_ports fl ord port_state cache ≡ found t)))))
  cached_ports_lem P ttl now cache (inl e) k = absurd (stale-none ttl now (rw e at k))
  cached_ports_lem P ttl now cache (inr (c, (hp, (t, (found_t, e))))) k = (
    c,
    (
      hp,
      (
        t,
        (
          found_t,
          (
            fresh-lt ttl now c.stored (rw (ap (λ (x : Cache F). x.refresh) e) at k),
            ap (cached_ports fl ord port_state) e,
          ),
        ),
      ),
    ),
  )

  get_ports-IsServed :
      (P : Scrape F → Type 0) (ttl : ℤ) (scrape : Scrape F) (shared : Shared F)
      (ib : IbNetDiscover F)
      → IsBacked P shared.cache
      → IsServed P ttl scrape shared ib
  unfolding get_ports
  get_ports-IsServed P ttl scrape shared ib backed =
      elim (Bool-cases (
        ltb 0 (pos_part ttl)
        && is_fresh fl ord port_state ttl scrape.checked shared.cache.refresh)) [
          | inr k ↦ inl (rw k (unfold refreshed in refl), rw k refl)
          | inl k ↦
              (let (c, (hp, (t, (found_t, (young, e))))) =
                  cached_ports_lem P ttl scrape.checked shared.cache backed k in
                inr (c, (hp, (t, (found_t, (young, rw (k, e) refl))))))
        ]

module _ {F : Type 0} (fl : Float64 F) (ord : RangeOrder) (port_state : Bool) where
  -- After any scrapes, `GetPorts` runs `ibnetdiscover` and answers what it finds, or it answers the
  -- topology that one of these scrapes found and stored less than the TTL ago, and changes nothing.
  pub get_ports_lem :
      (ttl : ℤ) (runonce : Bool) (before : List (Scrape F)) (scrape : Scrape F)
      (ib : IbNetDiscover F)
      → IsServed fl ord port_state
          (λ c. Memᴰ c before)
          ttl
          scrape
          (serve fl ord port_state ttl runonce initial_shared before)
          ib
  get_ports_lem ttl runonce before scrape ib =
      get_ports-IsServed fl ord port_state (λ c. Memᴰ c before) ttl scrape
        (serve fl ord port_state ttl runonce initial_shared before) ib
        (serve-IsBacked fl ord port_state (λ c. Memᴰ c before) ttl runonce initial_shared before
          (All-Memᴰ before before (λ a m. m)) (inl refl))

  -- A topology that a scrape has found is the answer of the next scrapes within the TTL, which
  -- change nothing and run nothing.
  pub get_ports-refreshed :
      (ttl : ℤ) (first next : Scrape F) (shared : Shared F) (ib ib' : IbNetDiscover F)
      (t : Topology F)
      → 0 < pos_part ttl
      → collect fl ord port_state first.outcome ≡ found t
      → next.checked - first.stored < pos_part ttl
      → get_ports fl ord port_state ttl next
          (refreshed fl ord port_state ttl first shared ib).1.0
          ib'
        ≡ (found t, ((refreshed fl ord port_state ttl first shared ib).1.0, ib'))
  unfolding get_ports refreshed is_fresh
  get_ports-refreshed ttl first next shared ib ib' t on e young =
      let positive : ltb 0 (pos_part ttl) ≡ true = ground arith in
      let fresh : ltb (next.checked - first.stored) (pos_part ttl) ≡ true = ground arith in
      rw (e, positive, fresh) refl

  -- What a failed scrape counts: a timeout only for the deadline.
  abbrev pub IsCounted :
      DiscoverError → Shared F × IbNetDiscover F → Shared F × IbNetDiscover F → Type 0
  IsCounted (exec_failed deadline_exceeded) (s, ib) (s', ib') =
      (s'.timeouts_total ≡ add_u64 s.timeouts_total 1)
      × ((s'.errors_total ≡ s.errors_total)
          × ((ib'.timeout_metric ≡ fl.decimal 1 0) × (ib'.error_metric ≡ ib.error_metric)))
  IsCounted _ (s, ib) (s', ib') =
      (s'.errors_total ≡ add_u64 s.errors_total 1)
      × ((s'.timeouts_total ≡ s.timeouts_total)
          × ((ib'.error_metric ≡ fl.decimal 1 0) × (ib'.timeout_metric ≡ ib.timeout_metric)))

  count-IsCounted :
      (e : DiscoverError) (shared : Shared F) (ib : IbNetDiscover F) (seconds : F)
      → IsCounted e
          (shared, ib)
          (count fl ord port_state (failed e) (shared, record ib { duration = seconds }))
  count-IsCounted (exec_failed deadline_exceeded) shared ib seconds = (refl, (refl, (refl, refl)))
  count-IsCounted (exec_failed (exit_error x)) shared ib seconds = (refl, (refl, (refl, refl)))
  count-IsCounted (parse_failed x) shared ib seconds = (refl, (refl, (refl, refl)))

  -- A cached answer is never a failure.
  both_lists-ne :
      (switches hcas : Option (List (InfinibandDevice F))) (e : DiscoverError)
      → ¬ (both_lists fl ord port_state switches hcas ≡ failed e)
  both_lists-ne none hcas e = λ h. cc
  both_lists-ne (some s) none e = λ h. cc
  both_lists-ne (some s) (some t) e = λ h. cc

  -- A failed scrape leaves the cache as it is, and adds one to the timeouts if the deadline has
  -- passed and to the errors otherwise.
  pub get_ports-failed :
      (ttl : ℤ) (scrape : Scrape F) (shared : Shared F) (ib : IbNetDiscover F) (e : DiscoverError)
      → (get_ports fl ord port_state ttl scrape shared ib).0 ≡ failed e
      → ((get_ports fl ord port_state ttl scrape shared ib).1.0.cache ≡ shared.cache)
        × IsCounted e (shared, ib) (get_ports fl ord port_state ttl scrape shared ib).1
  unfolding get_ports refreshed
  get_ports-failed ttl scrape shared ib e h =
      elim (Bool-cases (
        ltb 0 (pos_part ttl)
        && is_fresh fl ord port_state ttl scrape.checked shared.cache.refresh)) [
          | inl k ↦ absurd (both_lists-ne shared.cache.switches shared.cache.hcas e (rw k at h))
          | inr k ↦
              (let failure : collect fl ord port_state scrape.outcome ≡ failed e = (rw k at h) in
                rw (k, failure)
                  (
                    count-cache fl ord port_state (failed e) shared
                        (record ib { duration = scrape.seconds }),
                    count-IsCounted e shared ib scrape.seconds,
                  ))
        ]
