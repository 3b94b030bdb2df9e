-- ===== src/Clock.antt =====
-- hwtHls/clk_math.py
pub mod Bounds
pub mod Signed
use hwt_hls.Prelude.{ℕ, ◌+◌, ◌*◌, ◌/◌}

-- floor
unfoldable pub start_clk : ℕ → ℕ → ℕ
start_clk time clk_period = time / clk_period

unfoldable pub start_of_next_clk_period : ℕ → ℕ → ℕ
unfolding start_clk
start_of_next_clk_period time clk_period = (start_clk time clk_period + 1) * clk_period
