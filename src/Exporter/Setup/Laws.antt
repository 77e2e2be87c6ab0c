-- ===== src/Exporter/Setup/Laws.antt =====
-- No two descriptors that are registered share a name.
use infiniband_exporter.Prelude.{
  ◌≡◌, refl, ap, append_assoc, append-nil, inl, inr, Bool-cases, Bool, false, true, not, ◌&&◌, some,
  List, [], ◌∷◌, ◌++◌, map, if◌then◌else◌,
}
use infiniband_exporter.Text.{Text, codes}
use infiniband_exporter.Dict.{RangeOrder}
use infiniband_exporter.Dict.Laws.{Distinct, Distinct-if}
use infiniband_exporter.Switch.{SwitchCollector, new_switch_collector}
use infiniband_exporter.Hca.{HcaCollector, new_hca_collector}
use infiniband_exporter.Ibswinfo.Collector.{IbswinfoCollector, new_ibswinfo_collector}
use infiniband_exporter.Switch
use infiniband_exporter.Hca
use infiniband_exporter.Ibswinfo.Collector
use infiniband_exporter.Exporter.Setup.{
  SetupFlags, Registered, switch_collector, ibswinfo_collector, Gatherer, Naming, full_name,
  described_names, all_described, own_collectors, device_collectors, exporter_metrics, gatherer_of,
  setup_gathers,
}
use infiniband_exporter.Exporter.Setup.Names.{names-Distinct}
use mathlib.Core.Option.{some_inj}
use mathlib.Core.List.{map-append}
use infiniband_exporter.Prelude.Int.{ℤ}
use infiniband_exporter.Float.{Float64}
use infiniband_exporter.Discover.Parse.{Topology}
use infiniband_exporter.Discover.Cache.{
  Ports, found, failed, crashed, IbNetDiscover, Scrape, Shared,
}

-- The names of the collectors that the flags choose.
chosen : SetupFlags → List Text → List Text → List Text → List Text
chosen flags switch ibswinfo hca =
    (if flags.collect_switch then switch else [])
    ++ ((if flags.collect_ibswinfo then ibswinfo else [])
        ++ (if flags.collect_hca then hca else []))

chosen-Distinct :
    (flags : SetupFlags) (own switch ibswinfo hca : List Text)
    → Distinct (own ++ (switch ++ (ibswinfo ++ hca)))
    → Distinct (own ++ chosen flags switch ibswinfo hca)
unfolding chosen
chosen-Distinct flags own switch ibswinfo hca h =
    let a = flags.collect_switch in
    let switch' = if a then switch else [] in
    let b = flags.collect_ibswinfo in
    let ibswinfo' = if b then ibswinfo else [] in
    let c = flags.collect_hca in
    let hca' = if c then hca else [] in
    let h₁ = Distinct-if a own switch (ibswinfo ++ hca) h in
    let h₂ : Distinct ((own ++ switch') ++ (ibswinfo' ++ hca)) =
      Distinct-if b (own ++ switch') ibswinfo hca (rw (append_assoc own switch') h₁) in
    let h₃ : Distinct (((own ++ switch') ++ ibswinfo') ++ (hca' ++ [])) =
      Distinct-if c ((own ++ switch') ++ ibswinfo') hca []
        (rw (append-nil, append_assoc (own ++ switch') ibswinfo' hca) h₂) in
    rw
      (
        ← append_assoc own switch' (ibswinfo' ++ hca'),
        ← append_assoc (own ++ switch') ibswinfo' hca',
      )
      (rw append-nil at h₃)

own_names :
    (F : Type 0) (naming : Naming) (visited visited' : RangeOrder) (flags : SetupFlags)
    (runonce : Bool)
    → all_described {F = F} naming visited visited' (own_collectors flags runonce)
      ≡ codes "infiniband_exporter_build_info" ∷ []
unfolding own_collectors exporter_metrics all_described described_names
own_names F naming visited visited' flags runonce =
    elim (Bool-cases (not runonce && not flags.disable_exporter_metrics)) [
      | inl e ↦ rw e refl
      | inr e ↦ rw e refl
    ]

module _ {F : Type 0} (naming : Naming) (visited visited' : RangeOrder) where
  all_described-append :
      (rs rs' : List (Registered F))
      → all_described naming visited visited' (rs ++ rs')
        ≡ all_described naming visited visited' rs ++ all_described naming visited visited' rs'
  unfolding all_described
  all_described-append [] rs' = refl
  all_described-append (r ∷ rs) rs' = rw (all_described-append rs rs', append_assoc) refl

  all_described-if :
      (b : Bool) (r : Registered F)
      → all_described naming visited visited' (if b then r ∷ [] else [])
        ≡ (if b then described_names naming visited visited' r else [])
  unfolding all_described
  all_described-if true r = append-nil (described_names naming visited visited' r)
  all_described-if false r = refl

  -- What the registry is told where the devices are found.
  found_names :
      (flags : SetupFlags) (runonce : Bool) (t : Topology F)
      → all_described naming visited visited'
          (own_collectors flags runonce ++ device_collectors flags runonce t)
        ≡ codes "infiniband_exporter_build_info"
          ∷ chosen flags
              (map
                (full_name naming)
                (Switch.describe (new_switch_collector t.switches runonce) visited))
              (map
                (full_name naming)
                (Collector.describe (new_ibswinfo_collector t.switches runonce)))
              (map (full_name naming) (Hca.describe (new_hca_collector t.hcas runonce) visited'))
  unfolding device_collectors chosen described_names
  found_names flags runonce t =
      rw
        (
          all_described-append (own_collectors flags runonce) (device_collectors flags runonce t),
          own_names F naming visited visited' flags runonce,
          all_described-append (
              if flags.collect_switch
              then switch_collector (new_switch_collector t.switches runonce) ∷ []
              else []),
          all_described-append (
              if flags.collect_ibswinfo
              then ibswinfo_collector (new_ibswinfo_collector t.switches runonce) ∷ []
              else []),
          all_described-if flags.collect_switch,
          all_described-if flags.collect_ibswinfo,
          all_described-if flags.collect_hca,
        )
        refl

  gatherer_of-Distinct :
      (flags : SetupFlags) (runonce : Bool) (ports : Ports F) (ib : IbNetDiscover F)
      (g : Gatherer F)
      → gatherer_of flags runonce ports ib ≡ some g
      → Distinct (all_described naming visited visited' g.registered)
  unfolding gatherer_of
  gatherer_of-Distinct flags runonce (found t) ib g e =
      rw (← ap (λ (x : Gatherer F). x.registered) (some_inj.0 e), found_names flags runonce t)
        (chosen-Distinct flags (codes "infiniband_exporter_build_info" ∷ []) _ _ _ (
          rw (map-append, map-append) at
            (names-Distinct t.switches t.switches t.hcas runonce naming visited visited')))
  gatherer_of-Distinct flags runonce (failed x) ib g e =
      rw
        (
          ← ap (λ (x : Gatherer F). x.registered) (some_inj.0 e),
          own_names F naming visited visited' flags runonce,
        )
        (tt, tt)
  gatherer_of-Distinct flags runonce crashed ib g e = absurd cc

  -- Whatever the flags, the devices and the orders in which `range` visits the counters, no two
  -- descriptors that `setupGathers` registers of the exporter's own collectors have the same name, so
  -- that `MustRegister` does not panic for a duplicate of them.
  pub setup_gathers-Distinct :
      (fl : Float64 F) (ord : RangeOrder) (port_state : Bool) (flags : SetupFlags) (ttl : ℤ)
      (runonce : Bool) (scrape : Scrape F) (shared : Shared F) (g : Gatherer F)
      → (setup_gathers fl ord port_state flags ttl runonce scrape shared).0 ≡ some g
      → Distinct (all_described naming visited visited' g.registered)
  unfolding setup_gathers
  setup_gathers-Distinct fl ord port_state flags ttl runonce scrape shared g e =
      gatherer_of-Distinct flags runonce _ _ g e
