-- ===== src/Exporter/Web/Laws.antt =====
-- What the handlers leave, and which metrics a scrape over HTTP is answered with.
use infiniband_exporter.Prelude.{
  ◌-◌, ◌<◌, ◌≡◌, refl, ap, ◌∙◌, ◌⊎◌, inl, inr, Bool, true, false, Option, none, some, List, [], ◌∷◌,
  ◌++◌, append-nil, Bool-cases,
}
use mathlib.Core.List.{Memᴰ}
use mathlib.Core.Path.{subst}
use infiniband_exporter.Prelude.Int.{ℤ, pos_part}
use infiniband_exporter.Dict.{RangeOrder}
use infiniband_exporter.Float.{Float64}
use infiniband_exporter.Device.{InfinibandDevice}
use infiniband_exporter.Discover.Parse.{Topology}
use infiniband_exporter.Discover.Cache.{
  Shared, Scrape, Ports, IbNetDiscover, found, failed, crashed, collect, get_ports, serve,
  initial_shared, new_ib_net_discover,
}
use infiniband_exporter.Discover.Cache.Laws.{IsServed, get_ports_lem}
use infiniband_exporter.Switch.{new_switch_collector}
use infiniband_exporter.Hca.{new_hca_collector}
use infiniband_exporter.Ibswinfo.Collector.{new_ibswinfo_collector}
use infiniband_exporter.Exporter.Setup.{
  SetupFlags, Registered, switch_collector, ibswinfo_collector, hca_collector, Gatherer,
  exporter_metrics, own_collectors, device_collectors, gatherer_of, setup_gathers,
}
use infiniband_exporter.Exporter.Web.{
  Handler, index_handler, metrics_handler, health_handler, handler_of, Request, Response,
  metrics_page, aborted, Promhttp, Process, with_scrape, scrapes_of, serve_gatherer, serve_with,
  serve_request, serve_requests,
}

-- The devices of the collectors of each kind that are registered.
module _ {F : Type 0} where
  abbrev pub switches_of : List (Registered F) → List (List (InfinibandDevice F))
  switches_of [] = []
  switches_of (switch_collector s ∷ rs) = s.devices ∷ switches_of rs
  switches_of (_ ∷ rs) = switches_of rs

  abbrev pub ibswinfos_of : List (Registered F) → List (List (InfinibandDevice F))
  ibswinfos_of [] = []
  ibswinfos_of (ibswinfo_collector s ∷ rs) = s.devices ∷ ibswinfos_of rs
  ibswinfos_of (_ ∷ rs) = ibswinfos_of rs

  abbrev pub hcas_of : List (Registered F) → List (List (InfinibandDevice F))
  hcas_of [] = []
  hcas_of (hca_collector h ∷ rs) = h.devices ∷ hcas_of rs
  hcas_of (_ ∷ rs) = hcas_of rs

  -- One collector with these devices if the flag is set, and none otherwise.
  abbrev pub chosen : Bool → List (InfinibandDevice F) → List (List (InfinibandDevice F))
  chosen true ds = ds ∷ []
  chosen false ds = []

  -- The device collectors are those that the flags choose, on the devices of the topology.
  abbrev pub IsOf : SetupFlags → Topology F → List (Registered F) → Type 0
  IsOf flags t rs =
      (switches_of rs ≡ chosen flags.collect_switch t.switches)
      × (ibswinfos_of rs ≡ chosen flags.collect_ibswinfo t.switches)
      × (hcas_of rs ≡ chosen flags.collect_hca t.hcas)

  abbrev pub HasNoDevices : List (Registered F) → Type 0
  HasNoDevices rs = (switches_of rs ≡ []) × (ibswinfos_of rs ≡ []) × (hcas_of rs ≡ [])

  own_collectors_lem :
      (flags : SetupFlags) (rs : List (Registered F))
      → (switches_of (own_collectors flags false ++ rs) ≡ switches_of rs)
        × (ibswinfos_of (own_collectors flags false ++ rs) ≡ ibswinfos_of rs)
        × (hcas_of (own_collectors flags false ++ rs) ≡ hcas_of rs)
  unfolding own_collectors exporter_metrics
  own_collectors_lem flags rs = elim (Bool-cases flags.disable_exporter_metrics) [
    | inl e ↦ rw e (refl, refl, refl)
    | inr e ↦ rw e (refl, refl, refl)
  ]

  device_collectors-IsOf :
      (flags : SetupFlags) (t : Topology F) → IsOf flags t (device_collectors flags false t)
  unfolding device_collectors new_switch_collector new_ibswinfo_collector new_hca_collector
  device_collectors-IsOf flags t = elim (Bool-cases flags.collect_switch) [
    | inl a ↦ elim (Bool-cases flags.collect_ibswinfo) [
      | inl b ↦ elim (Bool-cases flags.collect_hca) [
        | inl c ↦ rw (a, b, c) (refl, refl, refl)
        | inr c ↦ rw (a, b, c) (refl, refl, refl)
      ]
      | inr b ↦ elim (Bool-cases flags.collect_hca) [
        | inl c ↦ rw (a, b, c) (refl, refl, refl)
        | inr c ↦ rw (a, b, c) (refl, refl, refl)
      ]
    ]
    | inr a ↦ elim (Bool-cases flags.collect_ibswinfo) [
      | inl b ↦ elim (Bool-cases flags.collect_hca) [
        | inl c ↦ rw (a, b, c) (refl, refl, refl)
        | inr c ↦ rw (a, b, c) (refl, refl, refl)
      ]
      | inr b ↦ elim (Bool-cases flags.collect_hca) [
        | inl c ↦ rw (a, b, c) (refl, refl, refl)
        | inr c ↦ rw (a, b, c) (refl, refl, refl)
      ]
    ]
  ]

module _ {F : Type 0} (http : Promhttp F) where
  serve_gatherer-shared :
      (g : Option (Gatherer F)) (shared : Shared F) (kept : http.State)
      → (serve_gatherer http g (shared, kept)).1.0 ≡ shared
  unfolding serve_gatherer
  serve_gatherer-shared none shared kept = refl
  serve_gatherer-shared (some g) shared kept = refl

  -- The response is the page of a gatherer with such collectors.
  abbrev pub IsMetrics : (List (Registered F) → Type 0) → Response F http.Page → Type 0
  IsMetrics P response =
      (g : Gatherer F) × (P g.registered)
      × ((shared : Shared F) × ((kept : http.State) × (response
              ≡ metrics_page g (http.serve_http g shared kept).0)))

  -- What is answered when `GetPorts` answers this.
  abbrev pub IsPage : SetupFlags → Ports F → Response F http.Page → Type 0
  IsPage flags (found t) response = IsMetrics (IsOf flags t) response
  IsPage flags (failed e) response = IsMetrics HasNoDevices response
  IsPage flags crashed response = response ≡ aborted

  serve_gatherer-IsPage :
      (flags : SetupFlags) (ports : Ports F) (ib : IbNetDiscover F) (shared : Shared F)
      (kept : http.State)
      → IsPage flags ports (serve_gatherer http (gatherer_of flags false ports ib) (shared, kept)).0
  unfolding serve_gatherer gatherer_of
  serve_gatherer-IsPage flags (found t) ib shared kept =
      let (a, b, c) = own_collectors_lem flags (device_collectors flags false t) in
      let (x, y, z) = device_collectors-IsOf flags t in
      (_, (a ∙ x, b ∙ y, c ∙ z), (shared, (kept, refl)))
  serve_gatherer-IsPage flags (failed e) ib shared kept = (
    _,
    subst HasNoDevices (append-nil (own_collectors flags false)) (own_collectors_lem flags []),
    (shared, (kept, refl)),
  )
  serve_gatherer-IsPage flags crashed ib shared kept = refl

  module _ (fl : Float64 F) (ord : RangeOrder) (port_state : Bool) (flags : SetupFlags)
      (ttl : ℤ) where
    serve_with_lem :
        (h : Handler) (r : Request F) (rs : List (Request F)) (shared : Shared F)
        (kept : http.State)
        → ((p : Process http)
            → (serve_requests http fl ord port_state flags ttl rs p).0
              ≡ serve fl ord port_state ttl false p.0 (scrapes_of rs))
        → (serve_requests http fl ord port_state flags ttl rs
            (serve_with http fl ord port_state flags ttl h r.scrape (shared, kept)).1).0
          ≡ serve fl ord port_state ttl false shared (with_scrape h r.scrape (scrapes_of rs))
    unfolding serve_with serve setup_gathers
    serve_with_lem index_handler r rs shared kept ih = ih (shared, kept)
    serve_with_lem metrics_handler r rs shared kept ih =
        ih _
        ∙ ap (λ s. serve fl ord port_state ttl false s (scrapes_of rs))
            (serve_gatherer-shared
              (setup_gathers fl ord port_state flags ttl false r.scrape shared).0
              (setup_gathers fl ord port_state flags ttl false r.scrape shared).1 kept)
    serve_with_lem health_handler r rs shared kept ih = ih (shared, kept)

    -- Requests leave of the cache and the totals of `ibnetdiscover` what the scrapes among them do.
    serve_requests_lem :
        (rs : List (Request F)) (p : Process http)
        → (serve_requests http fl ord port_state flags ttl rs p).0
          ≡ serve fl ord port_state ttl false p.0 (scrapes_of rs)
    unfolding serve_requests serve_request scrapes_of serve
    serve_requests_lem [] p = refl
    serve_requests_lem (r ∷ rs) p =
        serve_with_lem (handler_of r.path) r rs p.0 p.1 (serve_requests_lem rs)

    -- The process when `before` has been answered.
    abbrev reached : List (Request F) → Process http
    reached before =
        serve_requests http fl ord port_state flags ttl before (initial_shared, http.initial)

    -- The metrics are those of what `ibnetdiscover` answers now; or of the devices that a scrape
    -- before found less than the TTL ago.
    abbrev pub IsAnswered : List (Request F) → Request F → Response F http.Page → Type 0
    IsAnswered before r response =
        IsPage flags (collect fl ord port_state r.scrape.outcome) response
        ⊎ ((c : Scrape F) × (Memᴰ c (scrapes_of before)
              × ((t : Topology F) × (collect fl ord port_state c.outcome ≡ found t)
                  × (r.scrape.checked - c.stored < pos_part ttl)
                  × IsPage flags (found t) response)))

    serve_with-IsPage :
        (scrape : Scrape F) (p : Process http) (ports : Ports F)
        → (get_ports fl ord port_state ttl scrape p.0 (new_ib_net_discover fl false)).0 ≡ ports
        → IsPage flags ports
            (serve_with http fl ord port_state flags ttl metrics_handler scrape p).0
    unfolding serve_with setup_gathers
    serve_with-IsPage scrape p ports e =
        let got = get_ports fl ord port_state ttl scrape p.0 (new_ib_net_discover fl false) in
        subst
          (λ (x : Ports F).
            IsPage flags x
              (serve_gatherer http (gatherer_of flags false got.0 got.1.1) (got.1.0, p.1)).0)
          e (serve_gatherer-IsPage flags got.0 got.1.1 got.1.0 p.1)

    served-IsAnswered :
        (before : List (Request F)) (r : Request F)
        → IsServed fl ord port_state
            (λ c. Memᴰ c (scrapes_of before))
            ttl
            r.scrape
            (reached before).0
            (new_ib_net_discover fl false)
        → IsAnswered before r
            (serve_with http fl ord port_state flags ttl metrics_handler r.scrape
              (reached before)).0
    served-IsAnswered before r (inl (e, _)) = inl (serve_with-IsPage r.scrape (reached before) _ e)
    served-IsAnswered before r (inr (c, (m, (t, (e, (young, answer)))))) = inr (
      c,
      (
        m,
        (t, e, young, serve_with-IsPage r.scrape (reached before) (found t) (ap (λ a. a.0) answer)),
      ),
    )

    -- After any requests, one for the metrics is answered with the page of a switch, an ibswinfo and
    -- an HCA collector, each if its flag is set, of the switches, the switches and the HCAs that
    -- `ibnetdiscover` finds now, or that it found for one of the requests less than the TTL ago; of
    -- no such collector where `ibnetdiscover` or its parser fails now; and with none where its
    -- output makes the parser panic.
    pub serve_request-IsAnswered :
        (before : List (Request F)) (r : Request F)
        → handler_of r.path ≡ metrics_handler
        → IsAnswered before r
            (serve_request http fl ord port_state flags ttl r (
              serve_requests http fl ord port_state flags ttl before
                (initial_shared, http.initial))).0
    unfolding serve_request
    serve_request-IsAnswered before r e = rw e (
        served-IsAnswered before r (
          rw (serve_requests_lem before (initial_shared, http.initial)) (
            get_ports_lem fl ord port_state ttl false (scrapes_of before) r.scrape
              (new_ib_net_discover fl false))))
