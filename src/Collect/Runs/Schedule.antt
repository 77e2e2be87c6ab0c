-- ===== src/Collect/Runs/Schedule.antt =====
-- The result of `collect` does not depend on the order in which the goroutines take their steps.
use infiniband_exporter.Prelude.{
  ℕ, ◌≡◌, refl, ap, ◌∙◌, false, Option, none, some, List, [], ◌∷◌, ◌++◌, append_assoc, filter_map,
  arith,
}
use mathlib.Core.List.{Permᴰ}
use mathlib.Core.List.Permᴰ
use mathlib.Core.List.{filter_map-append}
use infiniband_exporter.Text.{Text, equal}
use infiniband_exporter.Text.Equal.{equal_iff}
use infiniband_exporter.Dict.{get}
use infiniband_exporter.Dict.Laws.{Distinct, get-put}
use infiniband_exporter.Pool.Interchange.{run, IsExchanging, run-perm}
use infiniband_exporter.Collect.Events.{
  Event, add_retries, add_errors, add_timeouts, append_counters, set_metrics, Totals, Collected,
  add_u64, apply_event, apply_events,
}

-- Two results that differ at most in the order of the counters.
pub record Alike {F : Type 0} (s t : Collected F) : Type 0 where
  pub counters : Permᴰ s.counters t.counters
  pub metrics : (g : Text) → get g s.metrics ≡ get g t.metrics
  pub totals : s.totals ≡ t.totals

-- The devices whose metrics are written.
abbrev pub written : {F : Type 0} → List (Event F) → List Text
written [] = []
written (set_metrics guid m ∷ es) = guid ∷ written es
written (add_retries n ∷ es) = written es
written (add_errors n ∷ es) = written es
written (add_timeouts n ∷ es) = written es
written (append_counters cs ∷ es) = written es

abbrev Differs : Text → Text → Type 0
Differs g h = equal g h ≡ false

add_u64_swap : (x m n : ℕ) → add_u64 (add_u64 x m) n ≡ add_u64 (add_u64 x n) m
add_u64_swap x m n = omega arith

module _ {F : Type 0} where
  Alike-refl : (s : Collected F) → Alike s s
  Alike-refl s = record { counters = Permᴰ.refl s.counters; metrics = λ g. refl; totals = refl }

  Alike-trans : {s t u : Collected F} → Alike s t → Alike t u → Alike s u
  Alike-trans h k = record {
    counters = Permᴰ.trans h.counters k.counters;
    metrics = λ g. h.metrics g ∙ k.metrics g;
    totals = h.totals ∙ k.totals;
  }

  apply_event-Alike :
      (e : Event F) {s t : Collected F} → Alike s t → Alike (apply_event s e) (apply_event t e)
  unfolding apply_event
  apply_event-Alike (add_retries n) h = record {
    counters = h.counters;
    metrics = h.metrics;
    totals = ap (λ (u : Totals). record u { retries = add_u64 u.retries n }) h.totals;
  }
  apply_event-Alike (add_errors n) h = record {
    counters = h.counters;
    metrics = h.metrics;
    totals = ap (λ (u : Totals). record u { errors = add_u64 u.errors n }) h.totals;
  }
  apply_event-Alike (add_timeouts n) h = record {
    counters = h.counters;
    metrics = h.metrics;
    totals = ap (λ (u : Totals). record u { timeouts = add_u64 u.timeouts n }) h.totals;
  }
  apply_event-Alike (append_counters cs) h = record {
    counters = Permᴰ.append_right cs h.counters;
    metrics = h.metrics;
    totals = h.totals;
  }
  apply_event-Alike (set_metrics g m) {s} {t} h = record {
    counters = h.counters;
    metrics = λ k. simp get-put (rw (h.metrics k));
    totals = h.totals;
  }

  swap-totals :
      (d e : Event F) (s : Collected F)
      → (apply_event (apply_event s d) e).totals ≡ (apply_event (apply_event s e) d).totals
  unfolding apply_event
  swap-totals (add_retries m) (add_retries n) s =
      ap (λ x. record s.totals { retries = x }) (add_u64_swap s.totals.retries m n)
  swap-totals (add_errors m) (add_errors n) s =
      ap (λ x. record s.totals { errors = x }) (add_u64_swap s.totals.errors m n)
  swap-totals (add_timeouts m) (add_timeouts n) s =
      ap (λ x. record s.totals { timeouts = x }) (add_u64_swap s.totals.timeouts m n)
  swap-totals (append_counters cs) (append_counters ds) s = refl
  swap-totals (set_metrics g m) (set_metrics h n) s = refl
  swap-totals _ _ s = refl

  swap-counters :
      (d e : Event F) (s : Collected F)
      → Permᴰ (apply_event (apply_event s d) e).counters (apply_event (apply_event s e) d).counters
  unfolding apply_event
  swap-counters (append_counters cs) (append_counters ds) s =
      rw (append_assoc s.counters cs ds, append_assoc s.counters ds cs)
        (Permᴰ.append_left s.counters (Permᴰ.append_comm cs ds))
  swap-counters (add_retries m) (add_retries n) s = Permᴰ.refl _
  swap-counters (add_errors m) (add_errors n) s = Permᴰ.refl _
  swap-counters (add_timeouts m) (add_timeouts n) s = Permᴰ.refl _
  swap-counters (set_metrics g m) (set_metrics h n) s = Permᴰ.refl _
  swap-counters _ _ s = Permᴰ.refl _

  swap-metrics :
      (d e : Event F) (s : Collected F) (k : Text)
      → Distinct (written (d ∷ e ∷ []))
      → get k (apply_event (apply_event s d) e).metrics
        ≡ get k (apply_event (apply_event s e) d).metrics
  unfolding apply_event
  swap-metrics (set_metrics g m) (set_metrics h n) s k differ =
      simp get-put (ground (arith, equal_iff g k, equal_iff h k, equal_iff g h, equal_iff h g))
  swap-metrics (add_retries m) (add_retries n) s k h = refl
  swap-metrics (add_errors m) (add_errors n) s k h = refl
  swap-metrics (add_timeouts m) (add_timeouts n) s k h = refl
  swap-metrics (append_counters cs) (append_counters ds) s k h = refl
  swap-metrics _ _ s k h = refl

  -- Two steps may be exchanged, unless they write the same device's metrics.
  swap-Alike :
      (d e : Event F) (s : Collected F)
      → Distinct (written (d ∷ e ∷ []))
      → Alike (apply_event (apply_event s d) e) (apply_event (apply_event s e) d)
  swap-Alike d e s h = record {
    counters = swap-counters d e s;
    metrics = λ k. swap-metrics d e s k h;
    totals = swap-totals d e s;
  }

  guid_of : Event F → Option Text
  guid_of (set_metrics g m) = some g
  guid_of _ = none

  written-filter_map : (es : List (Event F)) → written es ≡ filter_map guid_of es
  unfolding filter_map guid_of
  written-filter_map [] = refl
  written-filter_map (add_retries n ∷ es) = written-filter_map es
  written-filter_map (add_errors n ∷ es) = written-filter_map es
  written-filter_map (add_timeouts n ∷ es) = written-filter_map es
  written-filter_map (append_counters cs ∷ es) = written-filter_map es
  written-filter_map (set_metrics g m ∷ es) = ap (◌∷◌ g) (written-filter_map es)

  pub written-append : (xs ys : List (Event F)) → written (xs ++ ys) ≡ written xs ++ written ys
  written-append xs ys =
      rw (written-filter_map (xs ++ ys), written-filter_map xs, written-filter_map ys)
        (filter_map-append guid_of xs ys)

  pub written-perm : {xs ys : List (Event F)} → Permᴰ xs ys → Permᴰ (written xs) (written ys)
  written-perm {xs} {ys} p =
      rw (written-filter_map xs, written-filter_map ys) (Permᴰ.filter_map guid_of p)

  apply_events-run :
      (es : List (Event F)) (s : Collected F)
      → apply_events s es ≡ run apply_event Alike guid_of s es
  unfolding apply_events
  apply_events-run [] s = refl
  apply_events-run (e ∷ es) s = apply_events-run es (apply_event s e)

  Alike-IsExchanging : IsExchanging apply_event Alike guid_of
  Alike-IsExchanging = record {
    alike_refl = Alike-refl;
    alike_trans = Alike-trans;
    apply-alike = apply_event-Alike;
    exchanged = λ d e s h. swap-Alike d e s (rw (written-filter_map (d ∷ e ∷ [])) h);
  }

  pub perm-Alike :
      {xs ys : List (Event F)}
      → Permᴰ xs ys
      → Distinct (written xs)
      → (s : Collected F) → Alike (apply_events s xs) (apply_events s ys)
  perm-Alike {xs} {ys} p h s =
      rw (apply_events-run xs s, apply_events-run ys s)
        (run-perm apply_event Alike guid_of Alike-IsExchanging p (rw (written-filter_map xs) at h)
          s)
