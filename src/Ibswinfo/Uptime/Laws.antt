-- ===== src/Ibswinfo/Uptime/Laws.antt =====
-- The uptime that is printed is the one that is read.
use infiniband_exporter.Prelude.{
  ℕ, ◌+◌, ◌*◌, ◌/◌, ◌%◌, ◌<◌, ◌≡◌, refl, Bool, true, false, Option, none, some, [], ◌∷◌, ◌++◌, ltb,
  arith, if_holds, append_assoc, if◌then◌else◌,
}
use infiniband_exporter.Text.{Text, is_digit, split, strip_prefix}
use infiniband_exporter.Text.Cut.{Lacks, split-Lacks, split-append, Lacks-append}
use infiniband_exporter.Float.{Float64}
use infiniband_exporter.Discover.Names.{◌>>=◌}
use infiniband_exporter.Ibswinfo.Uptime.{
  getnum, getnum_below, fraction, parse_time, remove_first, days_of, total_seconds, parse_uptime,
}

-- A number below 100 with two digits.
abbrev pub two_digits : ℕ → Text
two_digits n = (b'0' + n / 10) ∷ (b'0' + n % 10) ∷ []

-- A number below 100 with no zero before it.
abbrev pub plain_digits : ℕ → Text
plain_digits n = if ltb n 10 then (b'0' + n) ∷ [] else two_digits n

getnum-two_digits :
    (fixed : Bool) (n : ℕ) (s : Text) → n < 100 → getnum fixed (two_digits n ++ s) ≡ some (n, s)
unfolding getnum is_digit
getnum-two_digits fixed n s h = ground arith

getnum-plain_digits :
    (n : ℕ) (s : Text) → n < 100 → getnum false (plain_digits n ++ b':' ∷ s) ≡ some (n, b':' ∷ s)
unfolding getnum is_digit
getnum-plain_digits n s h = ground arith

getnum_below-two_digits :
    (fixed : Bool) (bound n : ℕ) (s : Text)
    → n < bound
    → bound < 100
    → getnum_below fixed bound (two_digits n ++ s) ≡ some (n, s)
unfolding getnum_below
getnum_below-two_digits fixed bound n s h k =
    let below : ltb n bound ≡ true = ground arith in
    rw (getnum-two_digits fixed n s (omega arith), below) refl

getnum_below-plain_digits :
    (bound n : ℕ) (s : Text)
    → n < bound
    → bound < 100
    → getnum_below false bound (plain_digits n ++ b':' ∷ s) ≡ some (n, b':' ∷ s)
unfolding getnum_below
getnum_below-plain_digits bound n s h k =
    let below : ltb n bound ≡ true = ground arith in
    rw (getnum-plain_digits n s (omega arith), below) refl

-- The hour with or without a zero before it.
abbrev pub hour_digits : Bool → ℕ → Text
hour_digits padded n = if padded then two_digits n else plain_digits n

abbrev pub print_time : Bool → ℕ → ℕ → ℕ → Text
print_time padded hour minute second =
    hour_digits padded hour ++ b':' ∷ (two_digits minute ++ b':' ∷ two_digits second)

parse_time-print_time :
    (padded : Bool) (hour minute second : ℕ)
    → hour < 24
    → minute < 60
    → second < 60
    → parse_time (print_time padded hour minute second)
      ≡ some (hour * 3600 + minute * 60 + second, 0)
unfolding parse_time strip_prefix fraction
parse_time-print_time true hour minute second h m s =
    rw
      (
        getnum_below-two_digits false 24 hour
            (b':' ∷ (two_digits minute ++ b':' ∷ two_digits second)) h (omega arith),
        getnum_below-two_digits true 60 minute (b':' ∷ two_digits second) m (omega arith),
        getnum_below-two_digits true 60 second [] s (omega arith),
      )
      refl
parse_time-print_time false hour minute second h m s =
    rw
      (
        getnum_below-plain_digits 24 hour (two_digits minute ++ b':' ∷ two_digits second) h
            (omega arith),
        getnum_below-two_digits true 60 minute (b':' ∷ two_digits second) m (omega arith),
        getnum_below-two_digits true 60 second [] s (omega arith),
      )
      refl

Lacks-two_digits : (n : ℕ) → Lacks b'-' (two_digits n)
Lacks-two_digits n = (λ e. omega (arith, e), (λ e. omega (arith, e), tt))

Lacks-hour_digits : (padded : Bool) (n : ℕ) → Lacks b'-' (hour_digits padded n)
Lacks-hour_digits true n = Lacks-two_digits n
Lacks-hour_digits false n =
    if_holds (Lacks b'-') (ltb n 10) ((b'0' + n) ∷ []) (two_digits n) ((λ e. omega (arith, e)), tt)
      (Lacks-two_digits n)

Lacks-print_time :
    (padded : Bool) (hour minute second : ℕ) → Lacks b'-' (print_time padded hour minute second)
Lacks-print_time padded hour minute second =
    let seconds : Lacks b'-' (b':' ∷ two_digits second) =
      ((λ e. omega (arith, e)), Lacks-two_digits second) in
    let minutes : Lacks b'-' (b':' ∷ (two_digits minute ++ b':' ∷ two_digits second)) = (
      (λ e. omega (arith, e)),
      Lacks-append b'-' (two_digits minute) (b':' ∷ two_digits second) (Lacks-two_digits minute)
          seconds,
    ) in
    Lacks-append b'-' (hour_digits padded hour) _ (Lacks-hour_digits padded hour) minutes

remove_first-append : (b : ℕ) (s : Text) → Lacks b s → remove_first b (s ++ b ∷ []) ≡ s
unfolding remove_first
remove_first-append b [] h = ground arith
remove_first-append b (c ∷ s) (hc, h) = ground (arith, remove_first-append b s h)

-- What `ibswinfo` prints of an uptime: the days, if any, before the time of the day.
abbrev pub print_uptime : Text → Text → Text
print_uptime days time = days ++ b'd' ∷ b'-' ∷ time

module _ {F : Type 0} (fl : Float64 F) where
  split-print_uptime :
      (days time : Text)
      → Lacks b'-' days
      → Lacks b'-' time
      → split (print_uptime days time) b'-' ≡ (days ++ b'd' ∷ []) ∷ (time ∷ [])
  split-print_uptime days time hd ht =
      let front : Lacks b'-' (days ++ b'd' ∷ []) =
        Lacks-append b'-' days (b'd' ∷ []) hd ((λ e. omega (arith, e)), tt) in
      rw
        (
          ← append_assoc days (b'd' ∷ []) (b'-' ∷ time),
          split-append (days ++ b'd' ∷ []) time b'-' front,
          split-Lacks time b'-' ht,
        )
        refl

  -- Some days and a whole number of seconds, in seconds.
  abbrev pub in_seconds : F → ℕ → F
  in_seconds days seconds =
      fl.add (fl.mul days (fl.decimal 86400 0))
        (fl.add (fl.decimal seconds 0) (fl.div (fl.decimal 0 0) (fl.decimal 1000000000 0)))

  after_days :
      (o : Option F) (time : Text) (seconds : ℕ × ℕ)
      → parse_time time ≡ some seconds
      → (do
        (days, hms) ← (do d ← o; some (d, time))
        t ← parse_time hms
        some (total_seconds fl days t))
        ≡ (do d ← o; some (total_seconds fl d seconds))
  after_days none time seconds e = refl
  after_days (some d) time seconds e = rw e refl

  -- An uptime of some days, whose text has no `d` and no `-`, and a time of the day is read as 86400
  -- times the days and 3600, 60 and 1 times the hour, the minute and the second, in floats, if the
  -- days are a number, and as no uptime otherwise; an uptime without days as the same of 0 days. The hour may have a zero before it or not.
  pub parse_uptime-print_uptime :
      (padded : Bool) (days : Text) (hour minute second : ℕ)
      → Lacks b'-' days
      → Lacks b'd' days
      → hour < 24
      → minute < 60
      → second < 60
      → let time = print_time padded hour minute second in
        let seconds = hour * 3600 + minute * 60 + second in
        (parse_uptime fl (print_uptime days time)
          ≡ (do d ← fl.parse_float days; some (in_seconds d seconds)))
        × (parse_uptime fl time ≡ some (in_seconds (fl.decimal 0 0) seconds))
  unfolding parse_uptime days_of
  parse_uptime-print_uptime padded days hour minute second no_dash no_d h m s =
      let time = print_time padded hour minute second in
      let dashless = Lacks-print_time padded hour minute second in
      let parsed = parse_time-print_time padded hour minute second h m s in
      (
        rw (split-print_uptime days time no_dash dashless, remove_first-append b'd' days no_d)
            (after_days (fl.parse_float days) time _ parsed),
        rw (split-Lacks time b'-' dashless, parsed) refl,
      )
