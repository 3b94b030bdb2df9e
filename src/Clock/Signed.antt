-- ===== src/Clock/Signed.antt =====
-- The functions of hwtHls/clk_math.py on times that may lie before 0, as in ALAP scheduling.
use hwt_hls.Prelude.{ℕ, ◌<◌, arith}
use hwt_hls.Prelude.Int.{ℤ, pos, negsuc, ◌+ℤ◌, ◌≤ℤ◌, scale}
use hwt_hls.Clock.{start_clk}

-- Python's `//` rounds down, also below 0.
unfoldable pub start_clk_int : ℤ → ℕ → ℤ
unfolding start_clk
start_clk_int (pos time) clk_period = pos (start_clk time clk_period)
start_clk_int (negsuc time) clk_period = negsuc (start_clk time clk_period)

unfoldable pub start_of_next_clk_period_int : ℤ → ℕ → ℤ
unfolding start_clk_int ◌+ℤ◌ scale
start_of_next_clk_period_int time clk_period =
    scale (start_clk_int time clk_period +ℤ pos 1) clk_period

-- A clock period does not start after a time that lies in it.
pub start_clk_int-le : (t : ℤ) (clk : ℕ) → 0 < clk → scale (start_clk_int t clk) clk ≤ℤ t
unfolding start_clk_int scale
start_clk_int-le (pos n) clk h = grind arith
start_clk_int-le (negsuc n) clk h = grind arith
