-- ===== src/Examples/Allocator.antt =====
-- A value that is there at 3, read at 25 with a clock period of 10.
use hwt_hls.Prelude.{zero, suc, ◌≡◌, refl, false, some, List, [], ◌∷◌, arith}
use hwt_hls.Prelude.Result.{ok}
use hwt_hls.Clock.{start_clk}
use hwt_hls.Allocator.{
  TimeIndependentRtlResourceItem, original, reg, TimeIndependentRtlResource,
  is_in_persistence_ranges, get,
}
use hwt_hls.Allocator.Delays.{delay, IsDelayed}
use hwt_hls.Allocator.Persistence.{at_first, IsHeldBack, HoldsBack, get-HoldsBack}
use hwt_hls.Allocator.Returns.{get_returns}

abbrev value : TimeIndependentRtlResource
value = record {
  is_sync = false;
  time_offset = some 3;
  values_in_time = original ∷ [];
  persistence_ranges = [];
}

value-IsDelayed : IsDelayed [] 0 value.values_in_time
value-IsDelayed zero x h = cc
value-IsDelayed (suc i) x h = cc

read_later :
    get 10 1 value 24
    ≡ (ok (reg 2 (reg 1 original)), original ∷ reg 1 original ∷ reg 2 (reg 1 original) ∷ [])
unfolding get start_clk
read_later = refl

-- Read in the periods 1 and 2, of which it persists in the second one: a register is made for period
-- 1 and used again in period 2.
abbrev held : TimeIndependentRtlResource
held = record value { persistence_ranges = (2, 5) ∷ [] }

read_held :
    get 10 1 held 24 ≡ (ok (reg 1 original), original ∷ reg 1 original ∷ reg 1 original ∷ [])
unfolding get start_clk
read_held = refl

-- The period 7 lies behind the first range, so the second one is not looked at.
second_range_ignored : is_in_persistence_ranges ((2, 5) ∷ (6, 9) ∷ []) 7 ≡ false
unfolding is_in_persistence_ranges
second_range_ignored = refl

held-IsHeldBack : IsHeldBack ((2, 5) ∷ []) 0 held.values_in_time
held-IsHeldBack zero x h = let same : original ≡ x = cc in rw (← same) at_first
held-IsHeldBack (suc i) x h = cc

get-HoldsBack_example : HoldsBack ((2, 5) ∷ []) 0 2 (get 10 1 held 24)
unfolding start_clk
get-HoldsBack_example = get-HoldsBack 10 1 held 3 24 0 refl refl held-IsHeldBack

get_returns_example :
    (y : TimeIndependentRtlResourceItem) × (values : List TimeIndependentRtlResourceItem) × (get 10
        1 value 24
      ≡ (ok y, values))
    × (delay y ≡ 2)
unfolding start_clk
get_returns_example =
    get_returns 10 1 value 3 24 original [] refl refl refl value-IsDelayed (omega arith)
