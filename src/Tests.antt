-- ===== src/Tests.antt =====
-- Concrete numbers, devices and answers of the tools, for the examples of the child modules.
mod Counters
mod Pools
mod Collecting
mod Topologies
mod Scrapes
mod Swinfos
mod Turns
mod Uptimes
mod Calls
mod Vitals
mod Fulls
mod Disks
mod Exporting
use infiniband_exporter.Prelude.{
  ℕ, ◌+◌, ◌-◌, ◌*◌, ◌/◌, ◌≡◌, refl, ap, Bool, true, false, Option, none, some, List, [], ◌∷◌, Perm,
  arith, if◌then◌else◌,
}
use mathlib.Core.List.Perm
use infiniband_exporter.Prelude.Int.{ℤ, pos}
use infiniband_exporter.Text.{Text, codes, is_digit}
use infiniband_exporter.Dict.{RangeOrder}
use infiniband_exporter.Float.{Float64}
use infiniband_exporter.Device.{InfinibandDevice}

abbrev pub on_both : (ℕ → ℕ → ℕ) → Option ℕ → Option ℕ → Option ℕ
on_both f none y = none
on_both f (some x) none = none
on_both f (some x) (some y) = some (f x y)

abbrev pub is_none : Option ℕ → Bool
is_none none = true
is_none (some n) = false

abbrev pub digits_from : ℕ → Text → Option (Option ℕ)
unfolding is_digit
digits_from n [] = some (some n)
digits_from n (c ∷ cs) =
    let rest = digits_from (n * 10 + (c - b'0')) cs in if is_digit c then rest else none

abbrev pub or_nan : Option (Option ℕ) → Option ℕ
or_nan none = none
or_nan (some x) = x

-- Whole numbers and NaN in place of the floats.
abbrev pub numbers : Float64 (Option ℕ)
numbers = record {
  nan = none;
  is_nan = is_none;
  decimal = λ m k. some m;
  add = on_both (λ x y. x + y);
  sub = on_both (λ x y. x - y);
  mul = on_both (λ x y. x * y);
  div = on_both (λ x y. x / y);
  parse_float = digits_from 0;
  of_digits = λ t. or_nan (digits_from 0 t);
  is_nan-nan = refl;
  is_nan-decimal = λ m k. refl;
  sub_zero = λ n. ap some (omega arith);
  sub_self = λ n. ap some (omega arith);
}

abbrev pub in_order : RangeOrder
in_order = record { arrange = λ ks. ks; arrange-perm = λ ks. Perm.refl ks }

abbrev pub device : InfinibandDevice (Option ℕ)
device = record {
  type = codes "SW";
  lid = codes "1719";
  guid = codes "0x7cfe";
  rate = some 0;
  raw_rate = some 0;
  name = codes "ib-i4l1s01";
  uplinks = [];
  switch = [];
  down_ports = [];
}
