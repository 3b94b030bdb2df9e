-- ===== src/Scheduler/Clocks.antt =====
-- `HlsNetNode.iterScheduledClocks` (hwtHls/netlist/nodes/node.py): the clock periods that a scheduled
-- node takes up.
use hwt_hls.Prelude.{ℕ, zero, suc, ◌+◌, ◌-◌, ◌/◌, List, [], ◌∷◌, leb, if◌then◌else◌}
use hwt_hls.Clock.{start_clk}
use hwt_hls.Scheduler.State.{Scheduled}

-- `range(first, first + count)`
unfoldable pub range_from : (count first : ℕ) → List ℕ
range_from zero first = []
range_from (suc count) first = first ∷ range_from count (suc first)

-- `min` and `max` over a list, from a first value
abbrev pub least : ℕ → List ℕ → ℕ
least best [] = best
least best (t ∷ ts) = least (if leb best t then best else t) ts

abbrev pub greatest : ℕ → List ℕ → ℕ
greatest best [] = best
greatest best (t ∷ ts) = greatest (if leb best t then t else best) ts

abbrev pub begin_time : List ℕ → ℕ → ℕ
begin_time [] end_time = end_time
begin_time (t ∷ ts) end_time = least t ts

unfoldable pub iter_scheduled_clocks : ℕ → Scheduled → List ℕ
unfolding range_from start_clk
iter_scheduled_clocks clk_period v =
    let end_time = greatest 0 v.scheduled_out in
    let start_clk_i = start_clk (begin_time v.scheduled_in end_time) clk_period in
    range_from (end_time / clk_period + 1 - start_clk_i) start_clk_i
