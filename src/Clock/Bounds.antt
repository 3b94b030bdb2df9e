-- ===== src/Clock/Bounds.antt =====
-- Where the next clock period begins.
use native.Mathlib.Nat.{
  div-mul-le_self, le-div_iff_mul-le, div-lt_iff_lt-mul, le_trans, mul-div_left,
}
use hwt_hls.Prelude.{ℕ, ◌+◌, ◌/◌, ◌≤◌, ◌<◌, ◌≡◌, arith}
use hwt_hls.Clock.{start_clk, start_of_next_clk_period}

pub start_clk_mono : (a b clk : ℕ) → 0 < clk → a ≤ b → start_clk a clk ≤ start_clk b clk
unfolding start_clk
start_clk_mono a b clk pos h = (le-div_iff_mul-le pos).1 (le_trans (div-mul-le_self a clk) h)

-- The next period starts after `time`, by one period at most.
pub start_of_next_clk_period_bounds :
    (time clk : ℕ)
    → 0 < clk
    → (time < start_of_next_clk_period time clk) × (start_of_next_clk_period time clk ≤ time + clk)
unfolding start_of_next_clk_period
start_of_next_clk_period_bounds time clk h = grind arith

pub start_of_next_clk_period_mono :
    (a b clk : ℕ)
    → 0 < clk
    → a ≤ b
    → start_of_next_clk_period a clk ≤ start_of_next_clk_period b clk
unfolding start_of_next_clk_period
start_of_next_clk_period_mono a b clk pos h = grind (arith, start_clk_mono a b clk pos h)

-- The period that follows a start of a period is a whole one.
pub start_of_next_clk_period_twice :
    (time clk : ℕ)
    → 0 < clk
    → start_of_next_clk_period (start_of_next_clk_period time clk) clk
      ≡ start_of_next_clk_period time clk + clk
unfolding start_of_next_clk_period start_clk
start_of_next_clk_period_twice time clk pos = grind (arith, mul-div_left (time / clk + 1) pos)

-- Up to the start of the next period, the next period is the same.
pub start_of_next_clk_period_same :
    (a b clk : ℕ)
    → 0 < clk
    → a ≤ b
    → b < start_of_next_clk_period a clk
    → start_of_next_clk_period b clk ≡ start_of_next_clk_period a clk
unfolding start_of_next_clk_period start_clk
start_of_next_clk_period_same a b clk pos h k =
    let low : a / clk ≤ b / clk = start_clk_mono a b clk pos h in
    let high : b / clk < a / clk + 1 = (div-lt_iff_lt-mul pos).1 k in
    let same : b / clk ≡ a / clk = omega arith in rw same
