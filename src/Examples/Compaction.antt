-- ===== src/Examples/Compaction.antt =====
-- The pair of nodes that ALAP scheduling puts at 14, in clock periods of 10, is shifted to 4.
use hwt_hls.Prelude.{ℕ, ◌+◌, ◌≡◌, refl, some, [], ◌∷◌, arith}
use hwt_hls.Prelude.Int.{pos, ◌+ℤ◌, ◌-ℤ◌}
use hwt_hls.Prelude.Result.{Result, ok, or_raise, type_error, ◌>>=◌}
use hwt_hls.Clock.{start_clk}
use hwt_hls.Clock.Signed.{start_of_next_clk_period_int}
use hwt_hls.Scheduler.Alap.{Times, AlapSchedule, schedule_alap}
use hwt_hls.Scheduler.Compaction.{offset, schedule_alap_compaction}
use hwt_hls.Scheduler.Compaction.Shift.{shifted, shifted-first}
use hwt_hls.Examples.Alap.{pair, nothing}

abbrev times_at : ℕ → Result AlapSchedule → Result Times
times_at n r = r >>= λ s. or_raise type_error (s n)

compacted_sink :
    times_at 1 (schedule_alap_compaction pair (schedule_alap pair 2) nothing)
    ≡ ok (record { scheduled_in = pos 4 ∷ []; scheduled_out = pos 8 ∷ [] })
unfolding schedule_alap_compaction schedule_alap ◌+ℤ◌ ◌-ℤ◌ start_of_next_clk_period_int
compacted_sink = refl

shifted-first_example :
    (u v : ℕ) × (shifted (offset 10 (some (pos 34))) (pos 34) ≡ pos u)
    × (shifted (offset 10 (some (pos 34))) (pos 57) ≡ pos v)
    × (start_clk u 10 ≡ 0)
    × (v + 34 ≡ u + 57)
shifted-first_example = shifted-first 10 34 57 (omega arith) (omega arith)
