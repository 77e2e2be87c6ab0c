-- ===== src/Ibswinfo/Worker.antt =====
-- One goroutine of `collect`, the steps that it takes, and the runs of `collect`.
pub mod Flags
pub mod FullFlags
pub mod Up
pub mod Schedule
pub mod InTurn
use infiniband_exporter.Prelude.{
  ℕ, Bool, true, false, Option, none, some, List, [], ◌∷◌, ◌++◌, ◌≡◌, ltb, if◌then◌else◌,
}
use infiniband_exporter.Prelude.Int.{ℤ, pos_part}
use infiniband_exporter.Text.{Text, codes}
use infiniband_exporter.Dict.{RangeOrder, put}
use infiniband_exporter.Float.{Float64}
use infiniband_exporter.Device.{InfinibandDevice}
use infiniband_exporter.Exec.{Outcome, Run, deadline_exceeded, exit_error, command_line}
use infiniband_exporter.Pool.{Pool, start, Steps, IsDone}
use infiniband_exporter.Collect.Events.{add_u64}
use infiniband_exporter.Ibswinfo.{Ibswinfo}
use infiniband_exporter.Ibswinfo.Vitals.{parse_ibswinfo_vitals}
use infiniband_exporter.Ibswinfo.Full.{parse_ibswinfo}
use infiniband_exporter.Ibswinfo.Cache.{
  IbswinfoCacheEntry, StaticCache, use_vitals_for_guid, entry_of, restore, evict,
}

abbrev vitals_args : Bool → List Text
vitals_args true = codes "-o" ∷ codes "vitals" ∷ []
vitals_args false = []

unfoldable pub ibswinfo_args : Bool → Text → Text → Bool → Text × List Text
ibswinfo_args use_sudo path lid vitals =
    command_line use_sudo path (codes "-d" ∷ (codes "lid-" ++ lid) ∷ vitals_args vitals)

-- The end of `ibswinfo`: the standard error is the output of a run that fails.
abbrev pub ibswinfo_failed : Run → Option Text → Outcome
ibswinfo_failed r none = (r.stdout, none)
ibswinfo_failed r (some e) = (r.stderr, some (exit_error e))

unfoldable pub ibswinfo : Run → Outcome
ibswinfo r = if r.deadline then ([], some deadline_exceeded) else ibswinfo_failed r r.error

-- What the code does not decide: the answer of `IbswinfoExec` to a LID in a mode, the seconds it
-- took, the clock at the test of the age and at the store, and the order of `range`.
pub record SwitchFabric (F : Type 0) : Type 0 where
  pub exec : Text → Bool → Outcome
  pub elapsed : Text → Bool → F
  pub checked : Text → ℕ
  pub stored : Text → ℕ
  pub order : RangeOrder

-- A step of a goroutine that others can see.
pub data SwinfoEvent (F : Type 0) : Type 0 where
  count_timeout : SwinfoEvent F
  count_error : SwinfoEvent F
  store_entry : Text → IbswinfoCacheEntry → SwinfoEvent F
  append_swinfo : Ibswinfo F → SwinfoEvent F

pub record Swinfos (F : Type 0) : Type 0 where
  pub swinfos : List (Ibswinfo F)
  pub cache : StaticCache
  pub errors_total : ℕ
  pub timeouts_total : ℕ

module _ {F : Type 0} where
  unfoldable pub apply_swinfo : Swinfos F → SwinfoEvent F → Swinfos F
  unfolding put
  apply_swinfo s count_timeout = record s { timeouts_total = add_u64 s.timeouts_total 1 }
  apply_swinfo s count_error = record s { errors_total = add_u64 s.errors_total 1 }
  apply_swinfo s (store_entry guid entry) = record s { cache = put guid entry s.cache }
  apply_swinfo s (append_swinfo swinfo) = record s { swinfos = s.swinfos ++ swinfo ∷ [] }

  unfoldable pub apply_swinfos : Swinfos F → List (SwinfoEvent F) → Swinfos F
  unfolding apply_swinfo
  apply_swinfos s [] = s
  apply_swinfos s (e ∷ es) = apply_swinfos (apply_swinfo s e) es

module _ {F : Type 0} (fl : Float64 F) (ttl : ℤ) (fabric : SwitchFabric F) where
  -- `Ibswinfo{duration: …}`; its device, which the code sets at the end, is read by nothing before.
  abbrev pub new_ibswinfo : InfinibandDevice F → F → Ibswinfo F
  new_ibswinfo device duration = record {
    device = device;
    part_number = [];
    serial_number = [];
    psid = [];
    firmware_version = [];
    uptime = fl.decimal 0 0;
    power_supplies = [];
    temp = fl.decimal 0 0;
    fan_status = [];
    fans = [];
    duration = duration;
    error = fl.decimal 0 0;
    timeout = fl.decimal 0 0;
  }

  -- `if parseErr == nil && *ibswinfoStaticCacheTTL > 0`
  unfoldable pub store_full : InfinibandDevice F → Ibswinfo F → List (SwinfoEvent F)
  unfolding entry_of
  store_full device swinfo =
      if ltb 0 (pos_part ttl)
      then store_entry device.guid (entry_of swinfo (fabric.stored device.guid)) ∷ []
      else []

  -- Behind the parsers.
  unfoldable pub full_result : InfinibandDevice F → Option (Ibswinfo F) → List (SwinfoEvent F)
  unfolding store_full
  full_result device none = count_error ∷ []
  full_result device (some swinfo) =
      store_full device swinfo ++ append_swinfo (record swinfo { device = device }) ∷ []

  -- On an error the flag is set in the local value alone, which is not appended.
  unfoldable pub swinfo_result :
      InfinibandDevice F → Option IbswinfoCacheEntry → Ibswinfo F → Outcome → List (SwinfoEvent F)
  unfolding parse_ibswinfo_vitals parse_ibswinfo restore full_result
  swinfo_result device cached swinfo (out, some deadline_exceeded) = count_timeout ∷ []
  swinfo_result device cached swinfo (out, some (exit_error e)) = count_error ∷ []
  swinfo_result device (some entry) swinfo (out, none) =
      append_swinfo (record (restore entry (parse_ibswinfo_vitals fl fabric.order out swinfo)) {
        device = device;
      })
      ∷ []
  swinfo_result device none swinfo (out, none) =
      full_result device (parse_ibswinfo fl fabric.order out swinfo)

  abbrev pub is_some : Option IbswinfoCacheEntry → Bool
  is_some none = false
  is_some (some entry) = true

  -- A goroutine, on the cache as it finds it: only it writes the entry of its switch.
  unfoldable pub collect_switch : StaticCache → InfinibandDevice F → List (SwinfoEvent F)
  unfolding swinfo_result use_vitals_for_guid
  collect_switch cache device =
      let cached = use_vitals_for_guid ttl (fabric.checked device.guid) cache device.guid in
      swinfo_result device cached (new_ibswinfo device (fabric.elapsed device.lid (is_some cached)))
        (fabric.exec device.lid (is_some cached))

  unfoldable pub switch_tasks :
      StaticCache → List (InfinibandDevice F) → List (List (SwinfoEvent F))
  unfolding collect_switch
  switch_tasks cache [] = []
  switch_tasks cache (d ∷ ds) = collect_switch cache d ∷ switch_tasks cache ds

  -- `collect` may end with `result`: some run of the pool has come to its end, and the cache was
  -- then swept.
  pub record CollectsSwinfos (limit : ℕ) (devices : List (InfinibandDevice F))
      (before result : Swinfos F) : Type 0 where
    pub pool : Pool (SwinfoEvent F)
    pub steps : Steps limit (start (switch_tasks before.cache devices)) pool
    pub done : IsDone pool
    pub swept :
        let after = apply_swinfos (record before { swinfos = [] }) pool.trace in
        result ≡ record after { cache = evict ttl devices after.cache }
