-- ===== src/Ibswinfo/Full/Keys.antt =====
-- The keys of the output, and what the regular expressions find in them.
use infiniband_exporter.Prelude.{
  ℕ, ◌≡◌, refl, Bool, true, false, not, ◌&&◌, ◌==◌, none, some, [], ◌∷◌, ◌++◌, append_assoc, All,
  arith,
}
use infiniband_exporter.Text.{Text, codes, is_space, is_digit, strip_prefix}
use infiniband_exporter.Text.Cut.{lacks, lacks_sound, digit_ne, Lacks-around, Lacks}
use infiniband_exporter.Discover.Rate.{digit_run}
use infiniband_exporter.Ibswinfo.Full.{psu_digit, psu_at, fan_at, find_at}
use infiniband_exporter.Ibswinfo.Full.Report.{psu_key, fan_key}
use infiniband_exporter.Ibswinfo.Full.Lines.{IsKey}

-- A test of a key, to be evaluated.
abbrev pub is_key : ℕ → Text → ℕ → Bool
is_key c s e =
    lacks b'|' (c ∷ (s ++ e ∷ []))
    && lacks b'\n' (c ∷ (s ++ e ∷ []))
    && not (c == b'-')
    && not (is_space c)
    && not (is_space e)

pub plain-IsKey : (c : ℕ) (s : Text) (e : ℕ) → is_key c s e ≡ true → IsKey (c ∷ (s ++ e ∷ []))
plain-IsKey c s e h = record {
  first = c;
  inner = s;
  last = e;
  is = refl;
  first_plain = ground arith;
  last_plain = ground arith;
  no_dash = ground arith;
  no_bar = lacks_sound b'|' (c ∷ (s ++ e ∷ [])) (ground arith);
  no_newline = lacks_sound b'\n' (c ∷ (s ++ e ∷ [])) (ground arith);
}

Lacks-around_plain :
    (b : ℕ) (before id after : Text)
    → is_digit b ≡ false
    → lacks b before ≡ true
    → All (λ d. is_digit d ≡ true) id
    → lacks b after ≡ true
    → Lacks b (before ++ (id ++ after))
Lacks-around_plain b before id after hb x h y =
    Lacks-around b before id after hb (lacks_sound b before x) h (lacks_sound b after y)

pub psu_key-IsKey : (d : ℕ) → is_digit d ≡ true → IsKey (psu_key d)
unfolding is_space is_digit
psu_key-IsKey d h = record {
  first = b'P';
  inner = codes "SU" ++ d ∷ codes " statu";
  last = b's';
  is = refl;
  first_plain = refl;
  last_plain = refl;
  no_dash = λ e. omega (arith, e);
  no_bar = Lacks-around_plain b'|' (codes "PSU") (d ∷ []) (codes " status") refl refl (h, tt) refl;
  no_newline =
      Lacks-around_plain b'\n' (codes "PSU") (d ∷ []) (codes " status") refl refl (h, tt) refl;
}

pub fan_key-IsKey :
    (c : ℕ) (digits : Text) → All (λ d. is_digit d ≡ true) (c ∷ digits) → IsKey (fan_key c digits)
unfolding is_space is_digit
fan_key-IsKey c digits h = record {
  first = b'f';
  inner = codes "an#" ++ ((c ∷ digits) ++ codes " (rpm");
  last = b')';
  is = rw (append_assoc digits (codes " (rpm") (codes ")")) refl;
  first_plain = refl;
  last_plain = refl;
  no_dash = λ e. omega (arith, e);
  no_bar = Lacks-around_plain b'|' (codes "fan#") (c ∷ digits) (codes " (rpm)") refl refl h refl;
  no_newline =
      Lacks-around_plain b'\n' (codes "fan#") (c ∷ digits) (codes " (rpm)") refl refl h refl;
}

-- A digit begins neither `PSU` nor `fan#`.
psu_at-digit : (c : ℕ) (s : Text) → is_digit c ≡ true → psu_at (c ∷ s) ≡ none
unfolding psu_at strip_prefix
psu_at-digit c s h =
    let other : (c == b'P') ≡ false =
      (let ne = digit_ne b'P' c (unfold is_digit in refl) h in ground arith) in
    rw other refl

fan_at-digit : (c : ℕ) (s : Text) → is_digit c ≡ true → fan_at (c ∷ s) ≡ none
unfolding fan_at strip_prefix
fan_at-digit c s h =
    let other : (c == b'f') ≡ false =
      (let ne = digit_ne b'f' c (unfold is_digit in refl) h in ground arith) in
    rw other refl

pub psu_at-psu_key : (d : ℕ) → is_digit d ≡ true → find_at psu_at (psu_key d) ≡ some (d ∷ [])
unfolding find_at psu_at psu_digit strip_prefix
psu_at-psu_key d h = rw h refl

pub fan_at-psu_key : (d : ℕ) → is_digit d ≡ true → find_at fan_at (psu_key d) ≡ none
unfolding find_at
fan_at-psu_key d h = rw (fan_at-digit d (codes " status") h) (unfold fan_at strip_prefix in refl)

psu_at-digits :
    (s : Text) → All (λ d. is_digit d ≡ true) s → find_at psu_at (s ++ codes " (rpm)") ≡ none
unfolding find_at
psu_at-digits [] h = unfold psu_at strip_prefix in refl
psu_at-digits (c ∷ s) (hc, h) = rw (psu_at-digit c (s ++ codes " (rpm)") hc, psu_at-digits s h) refl

pub psu_at-fan_key :
    (c : ℕ) (digits : Text)
    → All (λ d. is_digit d ≡ true) (c ∷ digits)
    → find_at psu_at (fan_key c digits) ≡ none
unfolding find_at psu_at strip_prefix
psu_at-fan_key c digits h = psu_at-digits (c ∷ digits) h

digit_run-append : (s : Text) → All (λ d. is_digit d ≡ true) s → digit_run (s ++ codes " (rpm)") ≡ s
unfolding digit_run
digit_run-append [] h = unfold is_digit in refl
digit_run-append (c ∷ s) (hc, h) = rw (hc, digit_run-append s h) refl

pub fan_at-fan_key :
    (c : ℕ) (digits : Text)
    → All (λ d. is_digit d ≡ true) (c ∷ digits)
    → find_at fan_at (fan_key c digits) ≡ some (c ∷ digits)
unfolding find_at fan_at strip_prefix
fan_at-fan_key c digits h = rw (digit_run-append (c ∷ digits) h) refl
