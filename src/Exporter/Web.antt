-- ===== src/Exporter/Web.antt =====
-- `metricsHandler` and the other handlers of the HTTP server, and requests that it has served.
pub mod Laws
use infiniband_exporter.Prelude.{Bool, true, false, Option, none, some, List, [], ◌∷◌}
use infiniband_exporter.Prelude.{if◌then◌else◌}
use infiniband_exporter.Prelude.Int.{ℤ}
use infiniband_exporter.Text.{Text, codes, equal}
use infiniband_exporter.Dict.{RangeOrder}
use infiniband_exporter.Float.{Float64}
use infiniband_exporter.Discover.Cache.{Shared, Scrape}
use infiniband_exporter.Exporter.Setup.{SetupFlags, Gatherer, setup_gathers}

abbrev pub metrics_endpoint : Text
metrics_endpoint = codes "/metrics"

abbrev pub health_endpoint : Text
health_endpoint = codes "/healthz"

pub data Handler : Type 0 where
  index_handler : Handler
  metrics_handler : Handler
  health_handler : Handler

-- The patterns of `http.HandleFunc` and `http.Handle`: `/` is that of every path with no other.
unfoldable pub handler_of : Text → Handler
unfolding equal
handler_of path =
    if equal path metrics_endpoint
    then metrics_handler
    else if equal path health_endpoint
    then health_handler
    else index_handler

-- A request, with what `GetPorts` meets if it comes to that.
pub record Request (F : Type 0) : Type 0 where
  pub path : Text
  pub scrape : Scrape F

-- `promhttp`: `ServeHTTP` lets the collectors of the gatherer collect and answers a page of their
-- metrics. What they change is a state: the totals of the switch, the HCA and the ibswinfo collector
-- and the static cache of the last, which live as long as the process.
pub record Promhttp (F : Type 0) : Type 1 where
  pub State : Type 0
  pub Page : Type 0
  pub initial : State
  pub serve_http : Gatherer F → Shared F → State → Page × State

-- What is answered: the page that links to the metrics, the page that `promhttp` makes of the
-- gatherer, `200 ok`, or nothing where the handler panics, which the server survives.
pub data Response (F : Type 0) (Page : Type 0) : Type 0 where
  index_page : Response F Page
  metrics_page : Gatherer F → Page → Response F Page
  healthy : Response F Page
  aborted : Response F Page

module _ {F : Type 0} where
  abbrev pub with_scrape : Handler → Scrape F → List (Scrape F) → List (Scrape F)
  with_scrape index_handler scrape scrapes = scrapes
  with_scrape metrics_handler scrape scrapes = scrape ∷ scrapes
  with_scrape health_handler scrape scrapes = scrapes

  -- The scrapes among the requests.
  unfoldable pub scrapes_of : List (Request F) → List (Scrape F)
  unfolding handler_of
  scrapes_of [] = []
  scrapes_of (r ∷ rs) = with_scrape (handler_of r.path) r.scrape (scrapes_of rs)

module _ {F : Type 0} (http : Promhttp F) where
  -- What lives as long as the process.
  abbrev pub Process : Type 0
  Process = Shared F × http.State

  -- `h.ServeHTTP(w, r)`, if `setupGathers` has returned.
  unfoldable pub serve_gatherer : Option (Gatherer F) → Process → Response F http.Page × Process
  serve_gatherer none process = (aborted, process)
  serve_gatherer (some g) (shared, kept) =
      let (page, kept') = http.serve_http g shared kept in (metrics_page g page, (shared, kept'))

  module _ (fl : Float64 F) (ord : RangeOrder) (port_state : Bool) (flags : SetupFlags)
      (ttl : ℤ) where
    unfoldable pub serve_with : Handler → Scrape F → Process → Response F http.Page × Process
    unfolding setup_gathers serve_gatherer
    serve_with index_handler scrape process = (index_page, process)
    serve_with metrics_handler scrape (shared, kept) =
        let (gatherer, shared') = setup_gathers fl ord port_state flags ttl false scrape shared in
        serve_gatherer gatherer (shared', kept)
    serve_with health_handler scrape process = (healthy, process)

    unfoldable pub serve_request : Request F → Process → Response F http.Page × Process
    unfolding serve_with handler_of
    serve_request r process = serve_with (handler_of r.path) r.scrape process

    -- Requests one after the other: what they leave of the state of the process.
    unfoldable pub serve_requests : List (Request F) → Process → Process
    unfolding serve_request
    serve_requests [] process = process
    serve_requests (r ∷ rs) process = serve_requests rs (serve_request r process).1
