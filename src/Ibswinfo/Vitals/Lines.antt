-- ===== src/Ibswinfo/Vitals/Lines.antt =====
-- A printed line is read as its key and its value.
use infiniband_exporter.Prelude.{
  ℕ, ◌≡◌, ◌≢◌, refl, ap, sym, ◌∙◌, Bool-cases, inl, inr, true, false, none, some, [], ◌∷◌, ◌++◌,
  append_assoc, All, arith,
}
use infiniband_exporter.Text.{
  Text, codes, equal, is_digit, is_space, strip_prefix, has_prefix, trim_space,
}
use infiniband_exporter.Text.Equal.{equal_sound}
use infiniband_exporter.Text.Cut.{Lacks-around, Lacks, Lacks-append}
use infiniband_exporter.Text.Trim.{Lacks-spaces, trim-value, spaces, trim_space-spaces}
use infiniband_exporter.Discover.Names.{cut_at}
use infiniband_exporter.Ibswinfo.Vitals.{span_digits, closed, numbered, psu_of, fan_of}
use infiniband_exporter.Ibswinfo.Vitals.Report.{
  Line, uptime, temp, psu, fan, key_of, value_of, other, IsOther, print_line, HasDigits, IsPrinted,
}

cut_at-append : (b : ℕ) (s t : Text) → Lacks b s → cut_at b (s ++ b ∷ t) ≡ some (s, t)
unfolding cut_at
cut_at-append b [] t h = ground arith
cut_at-append b (c ∷ s) t (hc, h) = ground (arith, cut_at-append b s t h)

-- Neither a colon nor a newline stands in a key.
key_of-Lacks_colon : (l : Line) → HasDigits l → Lacks b':' (key_of l)
unfolding is_digit
key_of-Lacks_colon (uptime value) h = omega arith
key_of-Lacks_colon (temp value) h = omega arith
key_of-Lacks_colon (psu c id value) h =
    Lacks-around b':' (codes "psu") (c ∷ id) (codes ".power (W)") refl (omega arith) h (omega arith)
key_of-Lacks_colon (fan c id value) h =
    Lacks-around b':' (codes "fan#") (c ∷ id) (codes ".speed (rpm)") refl (omega arith) h
      (omega arith)
key_of-Lacks_colon (other key value) h = h.no_colon

key_of-Lacks_newline : (l : Line) → HasDigits l → Lacks b'\n' (key_of l)
unfolding is_digit
key_of-Lacks_newline (uptime value) h = omega arith
key_of-Lacks_newline (temp value) h = omega arith
key_of-Lacks_newline (psu c id value) h =
    Lacks-around b'\n' (codes "psu") (c ∷ id) (codes ".power (W)") refl (omega arith) h
      (omega arith)
key_of-Lacks_newline (fan c id value) h =
    Lacks-around b'\n' (codes "fan#") (c ∷ id) (codes ".speed (rpm)") refl (omega arith) h
      (omega arith)
key_of-Lacks_newline (other key value) h = h.no_newline

pub print_line-Lacks : (n : ℕ) (l : Line) → IsPrinted (n, l) → Lacks b'\n' (print_line (n, l))
print_line-Lacks n l (hv, _, hd) =
    let behind : Lacks b'\n' (b':' ∷ b' ' ∷ value_of l) =
      ((λ e. omega (arith, e)), ((λ e. omega (arith, e)), hv)) in
    Lacks-append b'\n' (key_of l) _ (key_of-Lacks_newline l hd)
      (Lacks-append b'\n' (spaces n) _ (Lacks-spaces b'\n' n (λ e. omega (arith, e))) behind)

-- The column of the key is trimmed.
trim-key_of : (l : Line) (n : ℕ) → HasDigits l → trim_space (key_of l ++ spaces n) ≡ key_of l
unfolding is_space
trim-key_of (uptime value) n h = trim_space-spaces b'u' (codes "ptime (sec") b')' n refl refl
trim-key_of (temp value) n h = trim_space-spaces b'c' (codes "ur.temp (C") b')' n refl refl
trim-key_of (psu c id value) n h =
    rw (← append_assoc id (codes ".power (W") (codes ")"))
      (trim_space-spaces b'p' (codes "su" ++ (c ∷ id) ++ codes ".power (W") b')' n refl refl)
trim-key_of (fan c id value) n h =
    rw (← append_assoc id (codes ".speed (rpm") (codes ")"))
      (trim_space-spaces b'f' (codes "an#" ++ (c ∷ id) ++ codes ".speed (rpm") b')' n refl refl)
trim-key_of (other key value) n h =
    ap (λ s. trim_space (s ++ spaces n)) h.is
    ∙ trim_space-spaces h.first h.inner h.last n h.first_plain h.last_plain
    ∙ sym h.is

pub cut-print_line :
    (n : ℕ) (l : Line)
    → IsPrinted (n, l)
    → (cut_at b':' (print_line (n, l)) ≡ some (key_of l ++ spaces n, b' ' ∷ value_of l))
      × (trim_space (key_of l ++ spaces n) ≡ key_of l)
      × (trim_space (b' ' ∷ value_of l) ≡ value_of l)
cut-print_line n l (hv, trimmed, hd) = (
  rw (← append_assoc (key_of l) (spaces n) (b':' ∷ b' ' ∷ value_of l)) (
      cut_at-append b':' (key_of l ++ spaces n) (b' ' ∷ value_of l) (
        Lacks-append b':' (key_of l) (spaces n) (key_of-Lacks_colon l hd)
          (Lacks-spaces b':' n (λ e. omega (arith, e))))),
  trim-key_of l n hd,
  trim-value (value_of l) ∙ trimmed,
)

-- The regular expressions of the keys find the id.
span_digits-append :
    (id : Text) (c : ℕ) (s : Text)
    → All (λ d. is_digit d ≡ true) id
    → is_digit c ≡ false
    → span_digits (id ++ c ∷ s) ≡ (id, c ∷ s)
unfolding span_digits
span_digits-append [] c s h hc = rw hc refl
span_digits-append (d ∷ id) c s (hd, h) hc = rw (hd, span_digits-append id c s h hc) refl

pub psu_of-key :
    (c : ℕ) (id value : Text)
    → HasDigits (psu c id value)
    → psu_of (key_of (psu c id value)) ≡ some (c ∷ id)
unfolding psu_of numbered strip_prefix closed equal
psu_of-key c id value h =
    let spanned : span_digits ((c ∷ id) ++ codes ".power (W)") ≡ (c ∷ id, codes ".power (W)") =
      span_digits-append (c ∷ id) b'.' (codes "power (W)") h (unfold is_digit in refl) in
    rw spanned refl

pub fan_of-key :
    (c : ℕ) (id value : Text)
    → HasDigits (fan c id value)
    → (psu_of (key_of (fan c id value)) ≡ none) × (fan_of (key_of (fan c id value)) ≡ some (c ∷ id))
unfolding psu_of fan_of numbered strip_prefix closed equal
fan_of-key c id value h =
    let spanned : span_digits ((c ∷ id) ++ codes ".speed (rpm)") ≡ (c ∷ id, codes ".speed (rpm)") =
      span_digits-append (c ∷ id) b'.' (codes "speed (rpm)") h (unfold is_digit in refl) in
    (refl, rw spanned refl)

strip_prefix-none : (s t : Text) → has_prefix s t ≡ false → strip_prefix s t ≡ none
unfolding strip_prefix has_prefix
strip_prefix-none s [] h = absurd cc
strip_prefix-none [] (y ∷ t) h = refl
strip_prefix-none (x ∷ s) (y ∷ t) h = ground (arith, strip_prefix-none s t)

-- Another key is none of the four.
pub other_lem :
    (key : Text)
    → IsOther key
    → (equal key (codes "uptime (sec)") ≡ false)
      × (equal key (codes "cur.temp (C)") ≡ false)
      × (psu_of key ≡ none)
      × (fan_of key ≡ none)
unfolding psu_of fan_of numbered
other_lem key h = (
  equal-false key (codes "uptime (sec)") h.no_uptime,
  equal-false key (codes "cur.temp (C)") h.no_temp,
  rw (strip_prefix-none key (codes "psu") h.no_psu) refl,
  rw (strip_prefix-none key (codes "fan#") h.no_fan) refl,
)
  where
    equal-false : (s t : Text) → s ≢ t → equal s t ≡ false
    equal-false s t ne = elim (Bool-cases (equal s t)) [
      | inl e ↦ absurd (ne (equal_sound s t e))
      | inr e ↦ e
    ]
