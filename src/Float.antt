-- ===== src/Float.antt =====
-- Go's `float64` and the operations on it that the exporter uses, as an interface: antt has no
-- floats. The laws are those that the proofs need, and IEEE 754 doubles have them.
use infiniband_exporter.Prelude.{ℕ, ◌≡◌, Bool, true, false, Option}
use infiniband_exporter.Text.{Text}

pub record Float64 (F : Type 0) : Type 0 where
  -- `math.NaN()` and `math.IsNaN`
  pub nan : F
  pub is_nan : F → Bool
  -- the float nearest to `m / 10 ^ k`; `decimal n 0` is `float64(n)`
  pub decimal : ℕ → ℕ → F
  pub add : F → F → F
  pub sub : F → F → F
  pub mul : F → F → F
  pub div : F → F → F
  -- `strconv.ParseFloat(s, 64)`; `none` is an error
  pub parse_float : Text → Option F
  -- the value of `strconv.ParseFloat` on a run of digits, which is infinite where it is out of range
  pub of_digits : Text → F
  pub is_nan-nan : is_nan nan ≡ true
  pub is_nan-decimal : (m k : ℕ) → is_nan (decimal m k) ≡ false
  pub sub_zero : (n : ℕ) → sub (decimal n 0) (decimal 0 0) ≡ decimal n 0
  pub sub_self : (n : ℕ) → sub (decimal n 0) (decimal n 0) ≡ decimal 0 0
