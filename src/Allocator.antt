-- ===== src/Allocator.antt =====
-- `TimeIndependentRtlResource` (hwtHls/allocator/time_independent_rtl_resource.py): a value that is
-- read in several clock periods, and the chain of registers that carries it there. A register is
-- told by the clock period that its name says and by what drives it; creating it in the allocator is
-- hwt's work.

pub mod Delays
pub mod Persistence
pub mod Stages
pub mod Synonyms
pub mod Returns
use hwt_hls.Prelude.{
  ℕ, zero, suc, ◌+◌, ◌-◌, Bool, true, false, not, ◌||◌, Option, none, some, List, [], ◌∷◌, ◌++◌,
  ltb, ◌==◌, if◌then◌else◌, length, get_elem?,
}
use hwt_hls.Prelude.Result.{Result, ok, err, index, assertion_error}
use hwt_hls.Clock.{start_clk}

-- `original` is the item of the data that the resource was made with.
pub data TimeIndependentRtlResourceItem : Type 0 where
  original : TimeIndependentRtlResourceItem
  reg : (delay_to : ℕ) (driver : TimeIndependentRtlResourceItem) → TimeIndependentRtlResourceItem

-- `time_offset` is `none` for INVARIANT_TIME; `is_sync` says that the original data is a
-- RtlSyncSignal.
pub record TimeIndependentRtlResource : Type 0 where
  pub is_sync : Bool
  pub time_offset : Option ℕ
  pub values_in_time : List TimeIndependentRtlResourceItem
  pub persistence_ranges : List (ℕ × ℕ)

abbrev pub is_rlt_register : Bool → TimeIndependentRtlResourceItem → Bool
is_rlt_register is_sync original = is_sync
is_rlt_register is_sync (reg delay_to driver) = true

-- `_isInPersistenceRanges`
unfoldable pub is_in_persistence_ranges : List (ℕ × ℕ) → ℕ → Bool
is_in_persistence_ranges [] clk_i = false
is_in_persistence_ranges ((low, high) ∷ ranges) clk_i =
    let later = is_in_persistence_ranges ranges clk_i in
    if ltb clk_i low then later else not (ltb high clk_i)

-- The result of a call, and `valuesInTime` after it.
abbrev pub Got : Type 0
Got = Result TimeIndependentRtlResourceItem × List TimeIndependentRtlResourceItem

-- A step of the loop, and the rest of it.
abbrev pub append_item :
    (TimeIndependentRtlResourceItem → List TimeIndependentRtlResourceItem → Got)
    → Result TimeIndependentRtlResourceItem
    → List TimeIndependentRtlResourceItem
    → Got
append_item rest (ok cur) values = rest cur (values ++ cur ∷ [])
append_item rest (err e) values = (err e, values)

-- `valuesInTime[-1]`
abbrev pub last_item :
    TimeIndependentRtlResourceItem
    → List TimeIndependentRtlResourceItem
    → TimeIndependentRtlResourceItem
last_item x [] = x
last_item x (y ∷ ys) = last_item y ys

module _ (is_sync : Bool) (ranges : List (ℕ × ℕ)) where
  -- what the loop makes for a clock period, after `prev`
  unfoldable pub next_item :
      ℕ → TimeIndependentRtlResourceItem → Result TimeIndependentRtlResourceItem
  unfolding is_in_persistence_ranges
  next_item clk_i prev =
      if is_in_persistence_ranges ranges clk_i
      then (if is_rlt_register is_sync prev then ok prev else err assertion_error)
      else ok (reg clk_i prev)

  -- `for i in reversed(range(regsToAdd))`
  unfoldable pub add_regs :
      ℕ → ℕ → TimeIndependentRtlResourceItem → List TimeIndependentRtlResourceItem → Got
  unfolding next_item
  add_regs dst zero cur values = (ok cur, values)
  add_regs dst (suc i) prev values = append_item (add_regs dst i) (next_item (dst - i) prev) values

  -- The value of the clock period `dst`, `index` periods after the first one.
  unfoldable pub look_up :
      ℕ → ℕ → Option TimeIndependentRtlResourceItem → List TimeIndependentRtlResourceItem → Got
  unfolding add_regs
  look_up dst index (some found) values = (ok found, values)
  look_up dst index none values =
      add_regs dst (index + 1 - length values) (last_item original values) values

-- `get`, after `time` has been moved by the scheduler's epsilon
unfoldable pub get_now : ℕ → TimeIndependentRtlResource → ℕ → Option ℕ → Got
unfolding look_up
get_now clk_period r now none = (index r.values_in_time 0, r.values_in_time)
get_now clk_period r now (some offset) =
    let dst = start_clk now clk_period in
    let first = start_clk offset clk_period in
    if offset == now
    then (index r.values_in_time 0, r.values_in_time)
    else if ltb dst first
    then (err assertion_error, r.values_in_time)
    else look_up r.is_sync r.persistence_ranges dst (dst - first)
        (get_elem? r.values_in_time (dst - first)) r.values_in_time

unfoldable pub get : ℕ → ℕ → TimeIndependentRtlResource → ℕ → Got
unfolding get_now
get clk_period epsilon r time = get_now clk_period r (time + epsilon) r.time_offset

-- `checkIfExistsInClockCycle`; a negative index and one after the last value find nothing
unfoldable pub check_if_exists_in_clock_cycle :
    ℕ → TimeIndependentRtlResource → ℕ → Option TimeIndependentRtlResourceItem
check_if_exists_in_clock_cycle clk_period r clk_i = elim r.time_offset [
  | none ↦ get_elem? r.values_in_time 0
  | some offset ↦
      let first = start_clk offset clk_period in
      if ltb clk_i first then none else get_elem? r.values_in_time (clk_i - first)
]
