-- ===== src/Ibswinfo/Uptime.antt =====
-- The uptime in the full output: `Nd-H:M:S`, or `H:M:S` by `time.Parse` with the layout `15:04:05`.
pub mod Laws
use infiniband_exporter.Prelude.{
  ℕ, zero, suc, ◌+◌, ◌-◌, ◌*◌, Bool, true, false, ◌&&◌, ◌||◌, Option, none, some, List, [], ◌∷◌,
  ltb, ◌==◌, if◌then◌else◌,
}
use infiniband_exporter.Text.{Text, codes, is_digit, split, strip_prefix}
use infiniband_exporter.Float.{Float64}
use infiniband_exporter.Discover.Names.{◌>>=◌}

abbrev pub digit_value : ℕ → ℕ
digit_value c = c - b'0'

-- One digit or two, of which `fixed` demands two; and what follows.
unfoldable pub getnum : Bool → Text → Option (ℕ × Text)
unfolding is_digit
getnum fixed [] = none
getnum fixed (c ∷ []) =
    if is_digit c then (if fixed then none else some (digit_value c, [])) else none
getnum fixed (c ∷ (d ∷ s)) =
    if is_digit c
    then if is_digit d
      then some (digit_value c * 10 + digit_value d, s)
      else if fixed
      then none
      else some (digit_value c, d ∷ s)
    else none

-- A number below a bound.
unfoldable pub getnum_below : Bool → ℕ → Text → Option (ℕ × Text)
unfolding getnum
getnum_below fixed bound s = do
  (n, rest) ← getnum fixed s
  if ltb n bound then some (n, rest) else none

-- The nanoseconds that the digits of a fraction stand for, `n` of them still to be read: those
-- behind the ninth count for nothing. The text must end with the digits.
unfoldable pub nanoseconds : ℕ → ℕ → Text → Option ℕ
unfolding is_digit
nanoseconds zero acc [] = some acc
nanoseconds (suc n) acc [] = nanoseconds n (acc * 10) []
nanoseconds zero acc (c ∷ s) =
    let rest = nanoseconds zero acc s in if is_digit c then rest else none
nanoseconds (suc n) acc (c ∷ s) =
    let rest = nanoseconds n (acc * 10 + digit_value c) s in if is_digit c then rest else none

-- Behind the seconds: nothing, or a fraction, which the layout need not have.
unfoldable pub fraction : Text → Option ℕ
unfolding nanoseconds is_digit
fraction [] = some 0
fraction (c ∷ []) = none
fraction (c ∷ (d ∷ s)) =
    if (c == b'.' || c == b',') && is_digit d then nanoseconds 9 0 (d ∷ s) else none

-- The seconds and the nanoseconds since `00:00:00`; `none` is an error.
unfoldable pub parse_time : Text → Option (ℕ × ℕ)
unfolding getnum_below strip_prefix fraction
parse_time s = do
  (hour, s1) ← getnum_below false 24 s
  s2 ← strip_prefix s1 (codes ":")
  (minute, s3) ← getnum_below true 60 s2
  s4 ← strip_prefix s3 (codes ":")
  (second, s5) ← getnum_below true 60 s4
  nsec ← fraction s5
  some (hour * 3600 + minute * 60 + second, nsec)

-- `strings.Replace(s, "d", "", 1)`
unfoldable pub remove_first : ℕ → Text → Text
remove_first b [] = []
remove_first b (c ∷ s) = let rest = remove_first b s in if c == b then s else c ∷ rest

module _ {F : Type 0} (fl : Float64 F) where
  -- The days and the text of the time.
  unfoldable pub days_of : Text → List Text → Option (F × Text)
  unfolding remove_first
  days_of value (days ∷ (hms ∷ [])) = do d ← fl.parse_float (remove_first b'd' days); some (d, hms)
  days_of value _ = some (fl.decimal 0 0, value)

  -- `(days * 86400) + t1.Sub(t2).Seconds()`
  abbrev pub total_seconds : F → ℕ × ℕ → F
  total_seconds days (sec, nsec) =
      fl.add (fl.mul days (fl.decimal 86400 0))
        (fl.add (fl.decimal sec 0) (fl.div (fl.decimal nsec 0) (fl.decimal 1000000000 0)))

  unfoldable pub parse_uptime : Text → Option F
  unfolding days_of split parse_time
  parse_uptime value = do
    (days, hms) ← days_of value (split value b'-')
    t ← parse_time hms
    some (total_seconds days t)
