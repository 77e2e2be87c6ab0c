-- ===== src/Exporter/Setup/Names.antt =====
-- The names of all descriptors of the exporter's own collectors, which are distinct.
use infiniband_exporter.Prelude.{
  ◌≡◌, refl, sym, inl, inr, Bool-cases, Perm, Bool, false, true, not, ◌&&◌, List, [], ◌∷◌, ◌++◌,
  map,
}
use infiniband_exporter.Text.{Text, codes, equal}
use infiniband_exporter.Dict.{RangeOrder}
use infiniband_exporter.Dict.Laws.{
  Distinct, is_distinct, is_distinct_sound, Distinct-Perm, range-perm,
}
use infiniband_exporter.Metrics.{Desc}
use infiniband_exporter.Metrics.PortCounters.{build_port_counter_descs}
use infiniband_exporter.Metrics.PortCounters.Laws.{build_port_counter_descs-Distinct}
use infiniband_exporter.Switch.{SwitchCollector, new_switch_collector}
use infiniband_exporter.Hca.{HcaCollector, new_hca_collector}
use infiniband_exporter.Ibswinfo.Collector.{IbswinfoCollector, new_ibswinfo_collector}
use infiniband_exporter.Switch
use infiniband_exporter.Hca
use infiniband_exporter.Ibswinfo.Collector
use infiniband_exporter.Device.{InfinibandDevice}
use infiniband_exporter.Exporter.Setup.{Naming, full_name}
use mathlib.Core.List.Perm
use mathlib.Core.Path.{subst}

-- What `BuildFQName` makes of the parts.
abbrev joined : Desc → Text
joined d = codes "infiniband" ++ b'_' ∷ (d.subsystem ++ b'_' ∷ d.name)

-- The descriptors of the collectors, the counters in the order of their definitions.
abbrev switch_descs : {F : Type 0} → SwitchCollector F → List Desc
switch_descs s =
    s.duration
    ∷ s.error
    ∷ s.timeout
    ∷ (map (λ (e : Text × Desc). e.1) s.port_descs
        ++ s.rate ∷ s.raw_rate ∷ s.uplink ∷ s.info ∷ s.up ∷ s.port_state ∷ [])

abbrev hca_descs : {F : Type 0} → HcaCollector F → List Desc
hca_descs h =
    h.duration
    ∷ h.error
    ∷ h.timeout
    ∷ (map (λ (e : Text × Desc). e.1) h.port_descs
        ++ h.rate ∷ h.raw_rate ∷ h.uplink ∷ h.info ∷ h.up ∷ [])

-- All descriptors of the exporter's own collectors.
abbrev all_descs :
    {F : Type 0} → SwitchCollector F → IbswinfoCollector F → HcaCollector F → List Desc
all_descs s i h = switch_descs s ++ (Collector.describe i ++ hca_descs h)

-- Neither part of a name is empty.
abbrev is_named : Desc → Bool
is_named d = not (equal d.subsystem []) && not (equal d.name [])

abbrev are_named : List Desc → Bool
are_named [] = true
are_named (d ∷ ds) = is_named d && are_named ds

module _ (naming : Naming) where
  full_name-joined :
      (subsystem name : Text) (labels : List Text)
      → let d : Desc = record { subsystem = subsystem; name = name; variable_labels = labels } in
        is_named d ≡ true → full_name naming d ≡ joined d
  unfolding equal
  full_name-joined [] name labels h = absurd cc
  full_name-joined (c ∷ subsystem) [] labels h = absurd cc
  full_name-joined (c ∷ subsystem) (e ∷ name) labels h =
      naming.build_fq_name-joined b'i' c e (codes "nfiniband") subsystem name

  full_names-joined :
      (ds : List Desc) → are_named ds ≡ true → map (full_name naming) ds ≡ map joined ds
  full_names-joined [] h = refl
  full_names-joined (d ∷ ds) h = elim (Bool-cases (is_named d)) [
    | inl e ↦
        rw
          (
            full_name-joined d.subsystem d.name d.variable_labels e,
            full_names-joined ds (rw e at h),
          )
          refl
    | inr e ↦ absurd (cc (the_other e h))
  ]
    where
      the_other : is_named d ≡ false → (is_named d && are_named ds) ≡ true → false ≡ true
      the_other e h = rw e at h

module _ {F : Type 0} (devices devices' devices'' : List (InfinibandDevice F))
    (runonce : Bool) where
  abbrev switch : SwitchCollector F
  switch = new_switch_collector devices runonce

  abbrev ibswinfo : IbswinfoCollector F
  ibswinfo = new_ibswinfo_collector devices' runonce

  abbrev hca : HcaCollector F
  hca = new_hca_collector devices'' runonce

  names_evaluated :
      is_distinct
        (codes "infiniband_exporter_build_info" ∷ map joined (all_descs switch ibswinfo hca))
      ≡ true
  unfolding is_distinct equal new_switch_collector new_hca_collector new_ibswinfo_collector
      Collector.describe build_port_counter_descs
  names_evaluated = refl

  are_named_evaluated : are_named (all_descs switch ibswinfo hca) ≡ true
  unfolding equal new_switch_collector new_hca_collector new_ibswinfo_collector Collector.describe
      build_port_counter_descs
  are_named_evaluated = refl

  module _ (naming : Naming) (visited visited' : RangeOrder) where
    switch_descs-perm : Perm (switch_descs switch) (Switch.describe switch visited)
    unfolding Switch.describe new_switch_collector
    switch_descs-perm = Perm.append_left (switch.duration ∷ switch.error ∷ switch.timeout ∷ []) (
        Perm.append_right
          (switch.rate ∷ switch.raw_rate ∷ switch.uplink ∷ switch.info ∷ switch.up
            ∷ switch.port_state ∷ [])
          (Perm.map (λ (e : Text × Desc). e.1)
            (Perm.symm (
              range-perm visited switch.port_descs
                (build_port_counter_descs-Distinct (codes "switch") Switch.labels)))))

    hca_descs-perm : Perm (hca_descs hca) (Hca.describe hca visited')
    unfolding Hca.describe new_hca_collector
    hca_descs-perm = Perm.append_left (hca.duration ∷ hca.error ∷ hca.timeout ∷ []) (
        Perm.append_right (hca.rate ∷ hca.raw_rate ∷ hca.uplink ∷ hca.info ∷ hca.up ∷ []) (
          Perm.map (λ (e : Text × Desc). e.1)
            (Perm.symm (
              range-perm visited' hca.port_descs
                (build_port_counter_descs-Distinct (codes "hca") Hca.labels)))))

    -- With all collectors, in whatever order `range` visits the counters.
    pub names-Distinct : Distinct (
        codes "infiniband_exporter_build_info"
        ∷ map (full_name naming) (
            Switch.describe switch visited
            ++ (Collector.describe ibswinfo ++ Hca.describe hca visited')))
    names-Distinct =
        Distinct-Perm
          (Perm.append_left (codes "infiniband_exporter_build_info" ∷ []) (
            Perm.map (full_name naming) (
              Perm.append switch_descs-perm
                (Perm.append_left (Collector.describe ibswinfo) hca_descs-perm))))
          (subst (λ names. Distinct (codes "infiniband_exporter_build_info" ∷ names))
            (sym (full_names-joined naming (all_descs switch ibswinfo hca) are_named_evaluated))
            (is_distinct_sound _ names_evaluated))
