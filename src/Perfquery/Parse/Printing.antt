-- ===== src/Perfquery/Parse/Printing.antt =====
-- A printed report is cut back into its lines.
use infiniband_exporter.Prelude.{ℕ, zero, suc, List, [], ◌∷◌, All, All-append, arith}
use infiniband_exporter.Text.{Text, codes}
use infiniband_exporter.Text.Cut.{Lacks, Lacks-append}
use infiniband_exporter.Perfquery.Counters.{Counter, port_xmit_data, counter_name}
use infiniband_exporter.Perfquery.Parse.Report.{
  Line, reading, noise, Block, padded, print_field, print_line, print_lines, print_blocks, IsPlain,
  IsLine, IsBlock,
}

padded-no_newline : (n : ℕ) (t : Text) → Lacks b'\n' t → Lacks b'\n' (padded n t)
padded-no_newline zero t h = h
padded-no_newline (suc n) t h = (omega arith, padded-no_newline n t h)

counter_name-no_newline : (c : Counter) → Lacks b'\n' (counter_name c)
unfolding counter_name
counter_name-no_newline port_xmit_data = omega arith
counter_name-no_newline _ = omega arith

print_field-no_newline :
    (name : Text) (dots : ℕ) (value : Text)
    → Lacks b'\n' name
    → IsPlain value
    → Lacks b'\n' (print_field name dots value)
print_field-no_newline name dots value hn hv =
    Lacks-append b'\n' name _ hn (omega arith, padded-no_newline dots value hv.no_newline)

print_line-no_newline : (l : Line) → IsLine l → Lacks b'\n' (print_line l)
print_line-no_newline (reading c dots value) h =
    print_field-no_newline (counter_name c) dots value (counter_name-no_newline c) h
print_line-no_newline (noise text) h = h.0

print_lines-Lacks : (ls : List Line) → All IsLine ls → All (Lacks b'\n') (print_lines ls)
print_lines-Lacks [] h = tt
print_lines-Lacks (l ∷ ls) (hl, h) = (print_line-no_newline l hl, print_lines-Lacks ls h)

pub print_blocks-Lacks : (bs : List Block) → All IsBlock bs → All (Lacks b'\n') (print_blocks bs)
print_blocks-Lacks [] h = tt
print_blocks-Lacks (b ∷ bs) ((hp, hl), h) = (
  print_field-no_newline (codes "PortSelect") b.dots b.port (omega arith) hp,
  All-append (Lacks b'\n') (print_lines b.lines) (print_blocks bs) (print_lines-Lacks b.lines hl)
      (print_blocks-Lacks bs h),
)
