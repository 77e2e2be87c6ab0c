-- ===== src/Discover/Cache/Concurrent.antt =====
-- `GetPorts` as calls that run at the same time: what happens under the mutex is one step, and so is
-- what a call does without it. The atomic counters are added to where `collect` has returned.
pub mod Laws
use infiniband_exporter.Prelude.{ℕ, Bool, ◌&&◌, ◌≡◌, List, [], ◌∷◌, ◌++◌, ltb, if◌then◌else◌}
use infiniband_exporter.Prelude.Int.{ℤ, pos_part}
use infiniband_exporter.Dict.{RangeOrder}
use infiniband_exporter.Float.{Float64}
use infiniband_exporter.Discover.Cache.{
  Ports, Shared, IbNetDiscover, Scrape, collect, count, store, is_fresh, cached_ports,
  new_ib_net_discover,
}

-- How far a call has come: before the test of the cache, before `ibnetdiscover`, before the store,
-- and at its end with what it answers.
pub data Stage (F : Type 0) : Type 0 where
  entered : Stage F
  missed : Stage F
  collected : Ports F → Stage F
  answered : Ports F → Stage F

pub record Call (F : Type 0) : Type 0 where
  pub scrape : Scrape F
  pub discover : IbNetDiscover F
  pub stage : Stage F

module _ {F : Type 0} (fl : Float64 F) (ord : RangeOrder) (port_state : Bool) (ttl : ℤ) where
  -- `if ttl > 0`, with what is done under the mutex
  unfoldable pub look_up : Scrape F → Shared F → Stage F
  unfolding is_fresh
  look_up scrape shared =
      if ltb 0 (pos_part ttl) && is_fresh fl ord port_state ttl scrape.checked shared.cache.refresh
      then answered (cached_ports fl ord port_state shared.cache)
      else missed

  -- The next step of a call.
  unfoldable pub advance : Stage F → Call F → Shared F → Shared F × Call F
  unfolding look_up collect
  advance entered call shared = (shared, record call { stage = look_up call.scrape shared })
  advance missed call shared =
      let ports = collect fl ord port_state call.scrape.outcome in
      let (shared', ib) =
        count fl ord port_state ports
          (shared, record call.discover { duration = call.scrape.seconds }) in
      (shared', record call { discover = ib; stage = collected ports })
  advance (collected ports) call shared = (
    store fl ord port_state ttl call.scrape.stored ports shared,
    record call { stage = answered ports },
  )
  advance (answered ports) call shared = (shared, record call { stage = answered ports })

  abbrev pub new_call : Bool → Scrape F → Call F
  new_call runonce scrape = record {
    scrape = scrape;
    discover = new_ib_net_discover fl runonce;
    stage = entered;
  }

  abbrev pub new_calls : Bool → List (Scrape F) → List (Call F)
  new_calls runonce [] = []
  new_calls runonce (s ∷ ss) = new_call runonce s ∷ new_calls runonce ss

  -- One of the calls takes its next step.
  pub data Move : Shared F × List (Call F) → Shared F × List (Call F) → Type 0 where
    move :
        (before : List (Call F)) (call : Call F) (after : List (Call F)) {shared shared' : Shared F}
        {call' : Call F}
        → advance call.stage call shared ≡ (shared', call')
        → Move (shared, before ++ call ∷ after) (shared', before ++ call' ∷ after)

  pub data Moves (s : Shared F × List (Call F)) : Shared F × List (Call F) → Type 0 where
    stay : Moves s s
    more : {t u : Shared F × List (Call F)} → Moves s t → Move t u → Moves s u
