-- ===== src/Examples/IoLimit.antt =====
-- A read at 34 in clock periods of 10, with 2 for the store into a register: it moves to 28.
use hwt_hls.Prelude.{◌≡◌, refl, [], ◌∷◌, arith}
use hwt_hls.Prelude.Int.{ℤ, pos, ◌+ℤ◌, ◌-ℤ◌}
use hwt_hls.Prelude.Result.{ok}
use hwt_hls.Clock.Signed.{start_clk_int, start_of_next_clk_period_int}
use hwt_hls.Scheduler.Alap.{Times}
use hwt_hls.Scheduler.IoLimit.{shift_times, first_port_time, move_to_previous_clk}
use hwt_hls.Scheduler.IoLimit.Moves.{move_to_previous_clk-before}

abbrev late : Times
late = record { scheduled_in = []; scheduled_out = pos 34 ∷ [] }

moved :
    move_to_previous_clk 10 2 late ≡ ok (record { scheduled_in = []; scheduled_out = pos 28 ∷ [] })
unfolding move_to_previous_clk start_of_next_clk_period_int ◌+ℤ◌ ◌-ℤ◌
moved = refl

late_first : first_port_time late ≡ ok (pos 34)
unfolding first_port_time
late_first = refl

move_to_previous_clk-before_example :
    (off : ℤ) × (move_to_previous_clk 10 2 late ≡ ok (shift_times off late))
    × (start_clk_int (pos 34 +ℤ off) 10 ≡ start_clk_int (pos 34) 10 -ℤ pos 1)
    × (start_clk_int (pos 34 +ℤ off +ℤ pos 2) 10 ≡ start_clk_int (pos 34) 10)
move_to_previous_clk-before_example =
    move_to_previous_clk-before 10 2 late (pos 34) (omega arith) (omega arith) late_first
