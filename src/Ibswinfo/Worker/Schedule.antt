-- ===== src/Ibswinfo/Worker/Schedule.antt =====
-- The result of `collect` does not depend on the order in which the goroutines take their steps.
use infiniband_exporter.Prelude.{
  ◌≡◌, refl, ap, ◌∙◌, Option, none, some, List, [], ◌∷◌, append_assoc, filter_map, arith,
}
use mathlib.Core.List.{Permᴰ}
use mathlib.Core.List.Permᴰ
use infiniband_exporter.Text.{Text}
use infiniband_exporter.Text.Equal.{equal_iff}
use infiniband_exporter.Dict.{get}
use infiniband_exporter.Dict.Laws.{Distinct, get-put}
use infiniband_exporter.Collect.Events.{add_u64}
use infiniband_exporter.Pool.Interchange.{run, IsExchanging, run-perm}
use infiniband_exporter.Ibswinfo.Worker.{
  SwinfoEvent, count_timeout, count_error, store_entry, append_swinfo, Swinfos, apply_swinfo,
  apply_swinfos,
}

-- Two results that differ at most in the order of the switches and of the entries.
pub record IsSame {F : Type 0} (s t : Swinfos F) : Type 0 where
  pub swinfos : Permᴰ s.swinfos t.swinfos
  pub cache : (g : Text) → get g s.cache ≡ get g t.cache
  pub errors : s.errors_total ≡ t.errors_total
  pub timeouts : s.timeouts_total ≡ t.timeouts_total

module _ {F : Type 0} where
  -- The switch whose entry is stored.
  abbrev pub stored_guid : SwinfoEvent F → Option Text
  stored_guid (store_entry guid entry) = some guid
  stored_guid _ = none

  IsSame-refl : (s : Swinfos F) → IsSame s s
  IsSame-refl s = record {
    swinfos = Permᴰ.refl s.swinfos;
    cache = λ g. refl;
    errors = refl;
    timeouts = refl;
  }

  pub IsSame-trans : {s t u : Swinfos F} → IsSame s t → IsSame t u → IsSame s u
  IsSame-trans h k = record {
    swinfos = Permᴰ.trans h.swinfos k.swinfos;
    cache = λ g. h.cache g ∙ k.cache g;
    errors = h.errors ∙ k.errors;
    timeouts = h.timeouts ∙ k.timeouts;
  }

  apply_swinfo-IsSame :
      (e : SwinfoEvent F) {s t : Swinfos F}
      → IsSame s t
      → IsSame (apply_swinfo s e) (apply_swinfo t e)
  unfolding apply_swinfo
  apply_swinfo-IsSame count_timeout h = record {
    swinfos = h.swinfos;
    cache = h.cache;
    errors = h.errors;
    timeouts = ap (λ n. add_u64 n 1) h.timeouts;
  }
  apply_swinfo-IsSame count_error h = record {
    swinfos = h.swinfos;
    cache = h.cache;
    errors = ap (λ n. add_u64 n 1) h.errors;
    timeouts = h.timeouts;
  }
  apply_swinfo-IsSame (store_entry guid entry) h = record {
    swinfos = h.swinfos;
    cache = λ g. simp get-put (rw (h.cache g));
    errors = h.errors;
    timeouts = h.timeouts;
  }
  apply_swinfo-IsSame (append_swinfo swinfo) h = record {
    swinfos = Permᴰ.append_right (swinfo ∷ []) h.swinfos;
    cache = h.cache;
    errors = h.errors;
    timeouts = h.timeouts;
  }

  swap-swinfos :
      (d e : SwinfoEvent F) (s : Swinfos F)
      → Permᴰ
          (apply_swinfo (apply_swinfo s d) e).swinfos
          (apply_swinfo (apply_swinfo s e) d).swinfos
  unfolding apply_swinfo
  swap-swinfos (append_swinfo x) (append_swinfo y) s =
      rw (append_assoc s.swinfos (x ∷ []) (y ∷ []), append_assoc s.swinfos (y ∷ []) (x ∷ []))
        (Permᴰ.append_left s.swinfos (Permᴰ.append_comm (x ∷ []) (y ∷ [])))
  swap-swinfos count_timeout count_timeout s = Permᴰ.refl _
  swap-swinfos count_error count_error s = Permᴰ.refl _
  swap-swinfos (store_entry g m) (store_entry h n) s = Permᴰ.refl _
  swap-swinfos _ _ s = Permᴰ.refl _

  swap-cache :
      (d e : SwinfoEvent F) (s : Swinfos F) (k : Text)
      → Distinct (filter_map stored_guid (d ∷ e ∷ []))
      → get k (apply_swinfo (apply_swinfo s d) e).cache
        ≡ get k (apply_swinfo (apply_swinfo s e) d).cache
  unfolding apply_swinfo filter_map
  swap-cache (store_entry g m) (store_entry h n) s k differ =
      simp get-put (ground (arith, equal_iff g k, equal_iff h k, equal_iff g h, equal_iff h g))
  swap-cache count_timeout count_timeout s k h = refl
  swap-cache count_error count_error s k h = refl
  swap-cache (append_swinfo x) (append_swinfo y) s k h = refl
  swap-cache _ _ s k h = refl

  swap-totals :
      (d e : SwinfoEvent F) (s : Swinfos F)
      → ((apply_swinfo (apply_swinfo s d) e).errors_total
          ≡ (apply_swinfo (apply_swinfo s e) d).errors_total)
        × ((apply_swinfo (apply_swinfo s d) e).timeouts_total
            ≡ (apply_swinfo (apply_swinfo s e) d).timeouts_total)
  unfolding apply_swinfo
  swap-totals count_timeout count_timeout s = (refl, refl)
  swap-totals count_error count_error s = (refl, refl)
  swap-totals (store_entry g m) (store_entry h n) s = (refl, refl)
  swap-totals (append_swinfo x) (append_swinfo y) s = (refl, refl)
  swap-totals _ _ s = (refl, refl)

  IsSame-IsExchanging : IsExchanging apply_swinfo IsSame stored_guid
  IsSame-IsExchanging = record {
    alike_refl = IsSame-refl;
    alike_trans = IsSame-trans;
    apply-alike = apply_swinfo-IsSame;
    exchanged = λ d e s h. record {
      swinfos = swap-swinfos d e s;
      cache = λ k. swap-cache d e s k h;
      errors = (swap-totals d e s).0;
      timeouts = (swap-totals d e s).1;
    };
  }

  apply_swinfos-run :
      (es : List (SwinfoEvent F)) (s : Swinfos F)
      → apply_swinfos s es ≡ run apply_swinfo IsSame stored_guid s es
  unfolding apply_swinfos
  apply_swinfos-run [] s = refl
  apply_swinfos-run (e ∷ es) s = apply_swinfos-run es (apply_swinfo s e)

  pub perm-IsSame :
      {xs ys : List (SwinfoEvent F)}
      → Permᴰ xs ys
      → Distinct (filter_map stored_guid xs)
      → (s : Swinfos F) → IsSame (apply_swinfos s xs) (apply_swinfos s ys)
  perm-IsSame {xs} {ys} p h s =
      rw (apply_swinfos-run xs s, apply_swinfos-run ys s)
        (run-perm apply_swinfo IsSame stored_guid IsSame-IsExchanging p h s)
