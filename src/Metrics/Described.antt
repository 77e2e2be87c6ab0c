-- ===== src/Metrics/Described.antt =====
-- A metric that is sent against the descriptors that its collector has described.
use infiniband_exporter.Prelude.{
  ℕ, ◌≡◌, some, get_elem?, Memᴰ-get_elem?, ◌⊎◌, inl, List, [], ◌∷◌, ◌++◌, All,
}
use mathlib.Core.List.{Memᴰ, Mem, mem-append_left, mem-append_right}
use mathlib.Core.List.Memᴰ
use infiniband_exporter.Metrics.{Desc, Metric, IsConsistent, exporter_descs}

-- The descriptor is one that `Describe` names, or one of the five that all collectors share.
abbrev pub IsDescribed : {F : Type 0} → List Desc → Metric F → Type 0
IsDescribed descs m = Mem m.desc descs ⊎ Memᴰ m.desc exporter_descs

-- Besides, each of its labels has a value.
abbrev pub IsFit : {F : Type 0} → List Desc → Metric F → Type 0
IsFit descs m = IsConsistent m × IsDescribed descs m

-- The three parts of `Describe`: what it names before the counters, the counters, and the rest.
pub Mem-before :
    (d : Desc) (before rest : List Desc) (i : ℕ)
    → get_elem? before i ≡ some d
    → Mem d (before ++ rest)
Mem-before d before rest i h = ∣ Memᴰ.append_left rest (Memᴰ-get_elem? d before i h) ∣₁

pub Mem-behind :
    (d : Desc) (before counters behind : List Desc) (i : ℕ)
    → get_elem? behind i ≡ some d
    → Mem d (before ++ (counters ++ behind))
Mem-behind d before counters behind i h =
    mem-append_right before (mem-append_right counters ∣ Memᴰ-get_elem? d behind i h ∣₁)

module _ {F : Type 0} where
  -- The counters' descriptors are among those of the collector.
  pub All-between :
      (before counters behind : List Desc) (ms : List (Metric F))
      → All (λ m. IsConsistent m × Mem m.desc counters) ms
      → All (IsFit (before ++ (counters ++ behind))) ms
  All-between before counters behind [] h = tt
  All-between before counters behind (m ∷ ms) ((c, d), h) = (
    (c, inl (mem-append_right before (mem-append_left behind d))),
    All-between before counters behind ms h,
  )

  pub All-IsConsistent :
      (descs : List Desc) (ms : List (Metric F)) → All (IsFit descs) ms → All IsConsistent ms
  All-IsConsistent descs [] h = tt
  All-IsConsistent descs (m ∷ ms) ((c, _), h) = (c, All-IsConsistent descs ms h)
