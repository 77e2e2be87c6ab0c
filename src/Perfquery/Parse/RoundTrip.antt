-- ===== src/Perfquery/Parse/RoundTrip.antt =====
-- What the parser makes of a whole report.
use infiniband_exporter.Prelude.{
  ℕ, ◌+◌, ◌≡◌, refl, ap, ◌∙◌, none, some, List, [], ◌∷◌, ◌++◌, append_assoc, append-nil, map, Perm,
  All, All-append, arith, false,
}
use mathlib.Core.List.Perm
use mathlib.Core.Path.{subst}
use native.Mathlib.Nat.{add_assoc, add-zero, zero-add}
use infiniband_exporter.Text.{Text, codes, equal}
use infiniband_exporter.Text.Equal.{equal_refl}
use infiniband_exporter.Dict.{Dict, RangeOrder, get, put, keys}
use infiniband_exporter.Dict.Laws.{
  Distinct, get-put, put-put, put-get, put-new, get-append_new, range-perm,
}
use infiniband_exporter.Float.{Float64}
use infiniband_exporter.Device.{InfinibandDevice}
use infiniband_exporter.Perfquery.Counters.{Counter, counter_name, PerfQueryCounters}
use infiniband_exporter.Perfquery.Parse.{
  ParseState, initial, parse_line, parse_lines, perfquery_parse,
}
use infiniband_exporter.Perfquery.Parse.Report.{
  Line, reading, noise, Block, print_field, print_lines, print_blocks, print_report, IsPlain,
  IsNoise, IsLine, IsBlock, ports, latest, bad_readings, bad_report, block_counters,
}
use infiniband_exporter.Text.Cut.{Lacks, split-unlines}
use infiniband_exporter.Perfquery.Parse.Printing.{print_blocks-Lacks}
use infiniband_exporter.Perfquery.Parse.Lines.{
  parse_line-print_field, counter_name-Lacks, read_into, set_line-reading, set_line-port_select,
  parse_line-noise,
}

module _ {F : Type 0} (fl : Float64 F) (device : InfinibandDevice F) where
  -- The lines of a port written over its counters.
  abbrev read_lines : List Line → PerfQueryCounters F → PerfQueryCounters F
  read_lines ls counters = record counters { value = λ c. latest fl c ls (counters.value c) }

  parse_line-reading :
      (st : ParseState F) (c : Counter) (dots : ℕ) (value : Text) {counters : PerfQueryCounters F}
      → IsPlain value
      → get st.port st.port_counters ≡ some counters
      → parse_line fl device st (print_field (counter_name c) dots value) ≡ record st {
        errors = st.errors + bad_readings fl (reading c dots value ∷ []);
        port_counters =
            put st.port (read_lines (reading c dots value ∷ []) counters) st.port_counters;
      }
  unfolding read_into
  parse_line-reading st c dots value plain h = rw (
    parse_line-print_field fl device st (counter_name c) dots value (counter_name-Lacks c) plain,
    set_line-reading fl device st c value h,
    add-zero,
  )

  parse_lines-cons :
      (st : ParseState F) (l : Text) (ls : List Text)
      → parse_lines fl device st (l ∷ ls) ≡ parse_lines fl device (parse_line fl device st l) ls
  unfolding parse_lines
  parse_lines-cons st l ls = refl

  parse_lines-last : (st : ParseState F) → parse_lines fl device st ([] ∷ []) ≡ st
  unfolding parse_lines
  parse_lines-last st = refl

  parse_lines-print_lines :
      (ls : List Line) (st : ParseState F) (rest : List Text) {counters : PerfQueryCounters F}
      → All IsLine ls
      → get st.port st.port_counters ≡ some counters
      → parse_lines fl device st (print_lines ls ++ rest)
        ≡ parse_lines fl device
            (record st {
              errors = st.errors + bad_readings fl ls;
              port_counters = put st.port (read_lines ls counters) st.port_counters;
            })
            rest
  parse_lines-print_lines [] st rest {counters} h e =
      rw (add-zero, put-get st.port counters st.port_counters e)
  parse_lines-print_lines (noise text ∷ ls) st rest (hl, h) e =
      rw (parse_lines-cons, parse_line-noise fl device st text hl)
        (parse_lines-print_lines ls st rest h e)
  parse_lines-print_lines (reading c dots value ∷ ls) st rest {counters} (hl, h) e =
      let counters' = read_lines (reading c dots value ∷ []) counters in
      let st' : ParseState F = record st {
        errors = st.errors + bad_readings fl (reading c dots value ∷ []);
        port_counters = put st.port counters' st.port_counters;
      } in
      let e' : get st'.port st'.port_counters ≡ some counters' =
        rw (get-put st.port st.port counters' st.port_counters, equal_refl st.port) in
      rw
        (
          parse_lines-cons,
          parse_line-reading st c dots value hl e,
          parse_lines-print_lines ls st' rest h e',
          put-put,
          add_assoc,
          add-zero,
        )
        refl

  parse_lines-block :
      (b : Block) (st : ParseState F) (rest : List Text)
      → IsBlock b
      → get b.port st.port_counters ≡ none
      → parse_lines fl device st
          (print_field (codes "PortSelect") b.dots b.port ∷ (print_lines b.lines ++ rest))
        ≡ parse_lines fl device
            (record {
              port = b.port;
              errors = st.errors + bad_readings fl b.lines;
              port_counters = st.port_counters ++ (b.port, block_counters fl device b) ∷ [];
            })
            rest
  parse_lines-block b st rest (plain, lines) new =
      let counters : PerfQueryCounters F = record {
        device = device;
        port_select = b.port;
        value = λ _. fl.nan;
      } in
      let st' : ParseState F = record st {
        port = b.port;
        port_counters = put b.port counters st.port_counters;
      } in
      let e : get st'.port st'.port_counters ≡ some counters =
        rw (get-put b.port b.port counters st.port_counters, equal_refl b.port) in
      rw (
        parse_lines-cons,
        parse_line-print_field fl device st (codes "PortSelect") b.dots b.port (omega arith) plain,
        set_line-port_select fl device st b.port new,
        parse_lines-print_lines b.lines st' rest lines e,
        put-put,
        put-new b.port (block_counters fl device b) st.port_counters new,
      )

  abbrev entries : List Block → Dict (PerfQueryCounters F)
  entries [] = []
  entries (b ∷ bs) = (b.port, block_counters fl device b) ∷ entries bs

  abbrev IsNew : Dict (PerfQueryCounters F) → Text → Type 0
  IsNew m p = get p m ≡ none

  IsNew-append :
      (m : Dict (PerfQueryCounters F)) (p : Text) (v : PerfQueryCounters F) (ps : List Text)
      → All (IsNew m) ps
      → All (λ q. equal p q ≡ false) ps
      → All (IsNew (m ++ (p, v) ∷ [])) ps
  IsNew-append m p v [] h d = tt
  IsNew-append m p v (q ∷ ps) (hq, h) (dq, d) =
      (rw (get-append_new p q v m hq, dq), IsNew-append m p v ps h d)

  parse_lines-report :
      (bs : List Block) (st : ParseState F)
      → All IsBlock bs
      → Distinct (ports bs)
      → All (IsNew st.port_counters) (ports bs)
      → let final = parse_lines fl device st (print_blocks bs ++ [] ∷ []) in
        (final.errors ≡ st.errors + bad_report fl bs)
        × (final.port_counters ≡ st.port_counters ++ entries bs)
  parse_lines-report [] st h d n = (last_line.0, last_line.1)
    where
      last_line :
          ((parse_lines fl device st ([] ∷ [])).errors ≡ st.errors + 0)
          × ((parse_lines fl device st ([] ∷ [])).port_counters ≡ st.port_counters ++ [])
      last_line = rw (parse_lines-last st, add-zero, append-nil) (refl, refl)
  parse_lines-report (b ∷ bs) st (hb, h) (db, d) (nb, n) =
      let st' : ParseState F = record {
        port = b.port;
        errors = st.errors + bad_readings fl b.lines;
        port_counters = st.port_counters ++ (b.port, block_counters fl device b) ∷ [];
      } in
      let (errors_are, counters_are) =
        parse_lines-report bs st' h d
          (IsNew-append st.port_counters b.port (block_counters fl device b) (ports bs) n db) in
      rw
        (
          append_assoc (print_lines b.lines) (print_blocks bs) ([] ∷ []),
          parse_lines-block b st (print_blocks bs ++ [] ∷ []) hb nb,
        )
        (omega (arith, errors_are), counters_are ∙ append_assoc _ _ (entries bs))

  -- The lines before the first port leave the state as it is.
  parse_lines-head :
      (head : List Text) (st : ParseState F) (rest : List Text)
      → All IsNoise head
      → parse_lines fl device st (head ++ rest) ≡ parse_lines fl device st rest
  parse_lines-head [] st rest h = refl
  parse_lines-head (text ∷ head) st rest (ht, h) =
      rw (parse_lines-cons, parse_line-noise fl device st text ht) (parse_lines-head head st rest h)

  IsNoise-Lacks : (head : List Text) → All IsNoise head → All (Lacks b'\n') head
  IsNoise-Lacks [] h = tt
  IsNoise-Lacks (text ∷ head) (ht, h) = (ht.0, IsNoise-Lacks head h)

  keys-entries : (bs : List Block) → keys (entries bs) ≡ ports bs
  unfolding keys
  keys-entries [] = refl
  keys-entries (b ∷ bs) = ap (◌∷◌ b.port) (keys-entries bs)

  map-entries :
      (bs : List Block)
      → map (λ (e : Text × PerfQueryCounters F). e.1) (entries bs)
        ≡ map (block_counters fl device) bs
  map-entries [] = refl
  map-entries (b ∷ bs) = ap (◌∷◌ (block_counters fl device b)) (map-entries bs)

  no_entries : (ps : List Text) → All (IsNew []) ps
  no_entries [] = tt
  no_entries (p ∷ ps) = (unfold get in refl, no_entries ps)

  -- A report of `perfquery`, with its ports distinct, its values free of separators and any lines of
  -- other kinds before the first port and between the others, is parsed into one value for each block, in some order, that holds the
  -- device, the port, and for each counter the last number read for it, the data counters times four,
  -- or NaN; the error count is the number of readings that are no numbers.
  pub perfquery_parse-print_report :
      (ord : RangeOrder) (head : List Text) (bs : List Block)
      → All IsNoise head
      → All IsBlock bs
      → Distinct (ports bs)
      → Perm
          (perfquery_parse fl ord device (print_report head bs)).0
          (map (block_counters fl device) bs)
        × ((perfquery_parse fl ord device (print_report head bs)).1 ≡ bad_report fl bs)
  unfolding perfquery_parse
  perfquery_parse-print_report ord head bs hn h d =
      let (errors_are, counters_are) = parse_lines-report bs initial h d (no_entries (ports bs)) in
      rw
        (
          split-unlines (head ++ print_blocks bs) (
              All-append (Lacks b'\n') head (print_blocks bs) (IsNoise-Lacks head hn)
                (print_blocks-Lacks bs h)),
          append_assoc head (print_blocks bs) ([] ∷ []),
          parse_lines-head head initial (print_blocks bs ++ [] ∷ []) hn,
          counters_are,
        )
        (
          subst (Perm _) (map-entries bs)
              (Perm.map _ (range-perm ord (entries bs) (rw (keys-entries bs) d))),
          errors_are ∙ zero-add (bad_report fl bs),
        )
