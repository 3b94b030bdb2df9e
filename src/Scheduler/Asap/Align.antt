-- ===== src/Scheduler/Asap/Align.antt =====
-- The moment at which ASAP scheduling lets an input start (`align`): the first one from which the
-- operation is over before the next clock edge.
use hwt_hls.Prelude.{ℕ, ◌+◌, ◌≤◌, ◌<◌, arith}
use hwt_hls.Clock.{start_of_next_clk_period}
use hwt_hls.Clock.Bounds.{
  start_of_next_clk_period_bounds, start_of_next_clk_period_twice, start_of_next_clk_period_same,
}
use hwt_hls.Scheduler.Asap.{align}

pub le-align : (clk time in_delay : ℕ) → 0 < clk → time ≤ align clk time in_delay
unfolding align
le-align clk time in_delay pos = ground (arith, start_of_next_clk_period_bounds time clk pos)

-- An input whose delay is less than a clock period is over before the next clock edge, it never
-- starts before the value is available, and it waits for no more than its delay.
pub align_fits :
    (clk time in_delay : ℕ)
    → in_delay < clk
    → (time ≤ align clk time in_delay)
      × (align clk time in_delay + in_delay
          < start_of_next_clk_period (align clk time in_delay) clk)
      × (align clk time in_delay ≤ time + in_delay)
unfolding align
align_fits clk time in_delay h =
    ground
      (arith, start_of_next_clk_period_bounds time clk, start_of_next_clk_period_twice time clk)

-- For a delay below the clock period, no start that is both possible and over before its clock
-- edge is sooner than the aligned one.
pub align_least :
    (clk time in_delay start : ℕ)
    → in_delay < clk
    → time ≤ start
    → start + in_delay < start_of_next_clk_period start clk
    → align clk time in_delay ≤ start
unfolding align
align_least clk time in_delay start h le fits =
    ground (
      arith,
      start_of_next_clk_period_bounds time clk,
      start_of_next_clk_period_same time start clk,
    )

pub align_mono :
    (clk a b in_delay : ℕ) → in_delay < clk → a ≤ b → align clk a in_delay ≤ align clk b in_delay
align_mono clk a b in_delay h le =
    omega (arith, align_fits clk b in_delay h, align_least clk a in_delay (align clk b in_delay) h)
