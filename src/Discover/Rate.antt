-- ===== src/Discover/Rate.antt =====
-- `parseRate` and the table `laneRates`.
use Prim.Native.String.{String}
use infiniband_exporter.Prelude.{Option, none, some, [], ◌∷◌, if◌then◌else◌}
use infiniband_exporter.Text.{Text, codes, is_digit}
use infiniband_exporter.Dict.{Dict, get}
use infiniband_exporter.Float.{Float64}

-- The digits at the start of a text.
unfoldable pub digit_run : Text → Text
unfolding is_digit
digit_run [] = []
digit_run (c ∷ s) = let rest = digit_run s in if is_digit c then c ∷ rest else []

-- `FindAllString(width, 1)` for `[0-9]+`
unfoldable pub first_digits : Text → Option Text
unfolding is_digit digit_run
first_digits [] = none
first_digits (c ∷ s) =
    let later = first_digits s in if is_digit c then some (digit_run (c ∷ s)) else later

-- A lane rate: the signalling and the effective one, in Gbps.
pub record LaneRate (F : Type 0) : Type 0 where
  pub raw : F
  pub effective : F

pub data RateError : Type 0 where
  no_width unknown_rate : RateError

module _ {F : Type 0} (fl : Float64 F) where
  abbrev lane : String → F → F → Text × LaneRate F
  lane name raw effective = (codes name, record { raw = raw; effective = effective })

  abbrev pub lane_rates : Dict (LaneRate F)
  lane_rates =
      lane "SDR" (fl.decimal 25 1) (fl.decimal 2 0)
      ∷ lane "DDR" (fl.decimal 5 0) (fl.decimal 4 0)
      ∷ lane "QDR" (fl.decimal 10 0) (fl.decimal 8 0)
      ∷ lane "FDR10" (fl.decimal 103125 4) (fl.decimal 10 0)
      ∷ lane "FDR" (fl.decimal 140625 4) (fl.decimal 1364 2)
      ∷ lane "EDR" (fl.decimal 2578125 5) (fl.decimal 25 0)
      ∷ lane "HDR" (fl.decimal 50 0) (fl.decimal 50 0)
      ∷ lane "NDR" (fl.decimal 100 0) (fl.decimal 100 0)
      ∷ lane "XDR" (fl.decimal 250 0) (fl.decimal 250 0)
      ∷ []

  -- The raw and the effective rate in bytes per second, or an error.
  pub data Rate : Type 0 where
    rates : F → F → Rate
    rate_error : RateError → Rate

  abbrev pub scale : Text → Option (LaneRate F) → Rate
  scale width none = rate_error unknown_rate
  scale width (some lane) =
      let base = fl.div (fl.mul (fl.of_digits width) (fl.decimal 1000000000 0)) (fl.decimal 8 0) in
      rates (fl.mul lane.raw base) (fl.mul lane.effective base)

  abbrev with_width : Text → Option Text → Rate
  unfolding get
  with_width rate none = rate_error no_width
  with_width rate (some width) = scale width (get rate lane_rates)

  unfoldable pub parse_rate : Text → Text → Rate
  unfolding first_digits get
  parse_rate width rate = with_width rate (first_digits width)
