-- ===== src/Examples/Alap.antt =====
-- A source that drives a sink, compacted from the schedule that puts the source at 3 and the sink at
-- 10: the source moves to the end of the first clock period of the sink.
use hwt_hls.Prelude.{ℕ, zero, ◌≡◌, refl, none, some, [], ◌∷◌, arith}
use hwt_hls.Prelude.Int.{ℤ, pos, ◌+ℤ◌, ◌-ℤ◌, ◌≤ℤ◌}
use hwt_hls.Clock.Signed.{start_of_next_clk_period_int}
use hwt_hls.Netlist.{HlsNetNode, operator, write}
use hwt_hls.Scheduler.State.{Scheduled}
use hwt_hls.Scheduler.Methods.{IsPlain}
use hwt_hls.Scheduler.Alap.{Times, AlapSchedule, AlapContext, schedule_alap}
use hwt_hls.Scheduler.Alap.Rule.{Takes, AlapInv}
use hwt_hls.Scheduler.Alap.Correct.{schedule_alap-PlacedLate}
use hwt_hls.Scheduler.Alap.Needed.{scheduled_out-Needed}
use hwt_hls.Scheduler.Alap.InTime.{nothing_scheduled, schedule_alap_in_time}

abbrev pub driver : HlsNetNode
driver = record {
  kind = operator;
  depends_on = [];
  used_by = (record { obj = 1; in_i = 0 } ∷ []) ∷ [];
  in_cycles_offset = [];
  latency_pre = [];
  latency_post = 2 ∷ [];
  cycles_latency = 0 ∷ [];
}

abbrev pub sink : HlsNetNode
sink = record {
  kind = write;
  depends_on = record { obj = 0; out_i = 0 } ∷ [];
  used_by = [] ∷ [];
  in_cycles_offset = 0 ∷ [];
  latency_pre = 4 ∷ [];
  latency_post = 0 ∷ [];
  cycles_latency = 0 ∷ [];
}

abbrev pub pair_node : ℕ → HlsNetNode
pair_node zero = driver
pair_node _ = sink

abbrev pub pair_asap : ℕ → Scheduled
pair_asap zero = record { scheduled_in = []; scheduled_out = 3 ∷ [] }
pair_asap _ = record { scheduled_in = 10 ∷ []; scheduled_out = 14 ∷ [] }

abbrev pub pair : AlapContext
pair = record {
  hls = record {
    normalized_clk_period = 10;
    inputs = [];
    nodes = 0 ∷ [];
    outputs = 1 ∷ [];
    node = pair_node;
  };
  asap = pair_asap;
  ffdelay = 1;
  epsilon = 1;
}

abbrev pub nothing : AlapSchedule
nothing n = none

nothing-AlapInv : AlapInv pair nothing
nothing-AlapInv n v h = cc

abbrev driver_times : Times
driver_times = record { scheduled_in = []; scheduled_out = pos 14 ∷ [] }

abbrev sink_times : Times
sink_times = record { scheduled_in = pos 14 ∷ []; scheduled_out = pos 18 ∷ [] }

abbrev moved : AlapSchedule
unfolding schedule_alap
moved = (schedule_alap pair 2 0 nothing).1

moved_driver : moved 0 ≡ some driver_times
unfolding moved ◌+ℤ◌ ◌-ℤ◌ start_of_next_clk_period_int
moved_driver = refl

moved_sink : moved 1 ≡ some sink_times
unfolding moved ◌+ℤ◌ ◌-ℤ◌ start_of_next_clk_period_int
moved_sink = refl

moved-AlapInv : AlapInv pair moved
unfolding moved schedule_alap
moved-AlapInv = (schedule_alap-PlacedLate pair 2 0 nothing nothing-AlapInv).0

scheduled_out-Needed_example : pos 14 ≤ℤ pos 14
scheduled_out-Needed_example =
    scheduled_out-Needed pair moved 0 0 0 3 driver_times (record { obj = 1; in_i = 0 } ∷ [])
      (record { obj = 1; in_i = 0 }) (pos 14) (pos 14) moved-AlapInv (omega arith) moved_driver refl
      refl refl refl (sink_times, moved_sink, refl) refl

-- The same with an operator as the sink.
abbrev plain : AlapContext
plain = record pair {
  hls = record pair.hls { node = λ n. record (pair_node n) { kind = operator } };
}

plain-IsPlain : IsPlain plain.hls
plain-IsPlain n = refl

plain_driver : (schedule_alap plain 2 0 nothing_scheduled).1 0 ≡ some driver_times
unfolding schedule_alap ◌+ℤ◌ ◌-ℤ◌ start_of_next_clk_period_int
plain_driver = refl

schedule_alap_in_time_example :
    (b : ℤ) × Takes (schedule_alap plain 2 0 nothing_scheduled).1 (record { obj = 1; in_i = 0 }) b
    × (pos 14 ≤ℤ b)
schedule_alap_in_time_example =
    schedule_alap_in_time plain 2 0 0 0 0 3 driver_times (record { obj = 1; in_i = 0 } ∷ [])
      (record { obj = 1; in_i = 0 }) (pos 14) plain-IsPlain (omega arith) plain_driver refl refl
      refl refl refl
