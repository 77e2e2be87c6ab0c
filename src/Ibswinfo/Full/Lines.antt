-- ===== src/Ibswinfo/Full/Lines.antt =====
-- A printed line is read as its key and its value.
use infiniband_exporter.Prelude.{
  ℕ, zero, suc, ◌≡◌, ◌≢◌, refl, ap, sym, ◌∙◌, false, some, List, [], ◌∷◌, ◌++◌, append_assoc, arith,
}
use infiniband_exporter.Text.{Text, codes, is_space, has_prefix, split, trim_space}
use infiniband_exporter.Text.Cut.{Lacks, Lacks-append, split-append, split-Lacks}
use infiniband_exporter.Text.Trim.{Lacks-spaces, trim-value, spaces, trim_space-column}
use infiniband_exporter.Float.{Float64}
use infiniband_exporter.Ibswinfo.Full.{FullState, key_line, full_parts, count_divider, full_lines}
use infiniband_exporter.Ibswinfo.Full.Report.{line, IsValue}

-- A key begins and ends with no space, and with no dash; it has no bar and no newline.
pub record IsKey (key : Text) : Type 0 where
  pub first : ℕ
  pub inner : Text
  pub last : ℕ
  pub is : key ≡ first ∷ (inner ++ last ∷ [])
  pub first_plain : is_space first ≡ false
  pub last_plain : is_space last ≡ false
  pub no_dash : first ≢ b'-'
  pub no_bar : Lacks b'|' key
  pub no_newline : Lacks b'\n' key

has_prefix-dash : (c : ℕ) (s : Text) → c ≢ b'-' → has_prefix (c ∷ s) (codes "-----") ≡ false
unfolding has_prefix
has_prefix-dash c s h = ground arith

module _ (pad : Text → ℕ) (key : Text) (k : IsKey key) (v : Text) where
  line-first : (indent : ℕ) → has_prefix (line pad indent key v) (codes "-----") ≡ false
  line-first zero = rw k.is (has_prefix-dash k.first _ k.no_dash)
  line-first (suc n) = has_prefix-dash b' ' _ (λ e. omega (arith, e))

  -- What stands before the bar.
  abbrev column : ℕ → Text
  column indent = spaces indent ++ (key ++ spaces (pad key))

  column-Lacks : (b indent : ℕ) → b ≢ b' ' → Lacks b key → Lacks b (column indent)
  column-Lacks b indent ne h =
      Lacks-append b (spaces indent) _ (Lacks-spaces b indent ne)
        (Lacks-append b key _ h (Lacks-spaces b (pad key) ne))

  line-column : (indent : ℕ) → line pad indent key v ≡ column indent ++ b'|' ∷ b' ' ∷ v
  line-column indent =
      ap (λ s. spaces indent ++ s) (sym (append_assoc key (spaces (pad key)) (b'|' ∷ b' ' ∷ v)))
      ∙ sym (append_assoc (spaces indent) (key ++ spaces (pad key)) (b'|' ∷ b' ' ∷ v))

  pub line-Lacks : (indent : ℕ) → IsValue v → Lacks b'\n' (line pad indent key v)
  line-Lacks indent (no_newline, _, _) = rw (line-column indent) (
      Lacks-append b'\n' (column indent) _
        (column-Lacks b'\n' indent (λ e. omega (arith, e)) k.no_newline)
        ((λ e. omega (arith, e)), ((λ e. omega (arith, e)), no_newline)))

  trim-column : (indent : ℕ) → trim_space (column indent) ≡ key
  trim-column indent =
      ap (λ s. trim_space (spaces indent ++ (s ++ spaces (pad key)))) k.is
      ∙ trim_space-column indent k.first k.inner k.last (pad key) k.first_plain k.last_plain
      ∙ sym k.is

  split-line :
      (indent : ℕ)
      → IsValue v
      → split (line pad indent key v) b'|' ≡ column indent ∷ (b' ' ∷ v) ∷ []
  split-line indent (_, no_bar, _) =
      let behind : Lacks b'|' (b' ' ∷ v) = ((λ e. omega (arith, e)), no_bar) in
      rw
        (
          line-column indent,
          split-append (column indent) (b' ' ∷ v) b'|'
              (column-Lacks b'|' indent (λ e. omega (arith, e)) k.no_bar),
          split-Lacks (b' ' ∷ v) b'|' behind,
        )
        refl

  -- The loop goes on with the state that the key and the value lead to.
  pub full_lines-line :
      {F : Type 0} (fl : Float64 F) (indent : ℕ) (st st' : FullState F) (ls : List Text)
      → IsValue v
      → key_line fl st key v ≡ some st'
      → full_lines fl st (line pad indent key v ∷ ls) ≡ full_lines fl st' ls
  unfolding full_lines count_divider full_parts
  full_lines-line fl indent st st' ls h e =
      let (_, _, trimmed) = h in
      rw (line-first indent, split-line indent h, trim-column indent, trim-value v, trimmed, e) refl
