-- ===== src/Examples/Fsm.antt =====
-- Two reads of one interface in the clock periods 0 and 1, and a node between them that takes up both
-- periods, with a clock period of 10.
use hwt_hls.Prelude.{ℕ, zero, suc, ◌≡◌, refl, Bool, true, false, [], ◌∷◌, length}
use hwt_hls.Prelude.Result.{ok}
use hwt_hls.Netlist.{HlsNetNode, read, operator, HlsPipeline}
use hwt_hls.Graph.Distinct.{Distinct}
use hwt_hls.Scheduler.State.{Scheduled}
use hwt_hls.Scheduler.Clocks.{range_from, iter_scheduled_clocks}
use hwt_hls.Analysis.Fsm.{whole, new_fsm}
use hwt_hls.Analysis.Fsm.Discover.{Building, add_accesses}
use hwt_hls.Analysis.Fsm.Discover.States.{IsNumbered, add_accesses-IsNumbered}
use hwt_hls.Analysis.Pipeline.{Stages, first_time, add_node_to_pipeline}
use hwt_hls.Analysis.Pipeline.Contents.{IsAdded, add_node_to_pipeline-IsAdded}

abbrev pair_nodes : ℕ → HlsNetNode
pair_nodes zero = record {
  kind = read;
  depends_on = [];
  used_by = (record { obj = 1; in_i = 0 } ∷ []) ∷ [];
  in_cycles_offset = [];
  latency_pre = [];
  latency_post = [];
  cycles_latency = [];
}
pair_nodes (suc zero) = record {
  kind = operator;
  depends_on = record { obj = 0; out_i = 0 } ∷ [];
  used_by = (record { obj = 2; in_i = 0 } ∷ []) ∷ [];
  in_cycles_offset = [];
  latency_pre = [];
  latency_post = [];
  cycles_latency = [];
}
pair_nodes (suc (suc zero)) = record {
  kind = read;
  depends_on = record { obj = 1; out_i = 0 } ∷ [];
  used_by = [];
  in_cycles_offset = [];
  latency_pre = [];
  latency_post = [];
  cycles_latency = [];
}
pair_nodes _ = record {
  kind = operator;
  depends_on = [];
  used_by = [];
  in_cycles_offset = [];
  latency_pre = [];
  latency_post = [];
  cycles_latency = [];
}

abbrev pair_times : ℕ → Scheduled
pair_times zero = record { scheduled_in = []; scheduled_out = 3 ∷ [] }
pair_times (suc zero) = record { scheduled_in = 4 ∷ []; scheduled_out = 11 ∷ [] }
pair_times _ = record { scheduled_in = 12 ∷ []; scheduled_out = [] }

abbrev pair : HlsPipeline
pair = record {
  normalized_clk_period = 10;
  inputs = 0 ∷ 2 ∷ [];
  nodes = 1 ∷ [];
  outputs = [];
  node = pair_nodes;
}

abbrev follow_all : ℕ → Bool
follow_all n = true

abbrev unbuilt : Building
unbuilt = record { fsm = new_fsm 7; seen_clks = []; already_used = [] }

unbuilt-IsNumbered : IsNumbered unbuilt
unfolding range_from
unbuilt-IsNumbered = record { numbers = refl; clks = refl; one_each = tt }

abbrev follow_none : ℕ → Bool
follow_none n = false

abbrev built : Building
built = record {
  fsm = record {
    intf = 7;
    states = (whole 0 ∷ []) ∷ (whole 2 ∷ []) ∷ [];
    state_clk_i = (0, 0) ∷ (1, 1) ∷ [];
    transition_table = [];
  };
  seen_clks = (0, 0 ∷ []) ∷ (1, 2 ∷ []) ∷ [];
  already_used = 2 ∷ 0 ∷ [];
}

two_states : add_accesses pair pair_times follow_none 5 ((3, 0) ∷ (12, 2) ∷ []) unbuilt ≡ ok built
unfolding add_accesses
two_states = refl

add_accesses-IsNumbered_example : IsNumbered built
add_accesses-IsNumbered_example =
    add_accesses-IsNumbered pair pair_times follow_none 5 ((3, 0) ∷ (12, 2) ∷ []) unbuilt built
      two_states unbuilt-IsNumbered

-- The node of the two clock periods is twice in the first stage.
added_twice : add_node_to_pipeline 10 1 (pair_times 1) [] ≡ ok ((1 ∷ 1 ∷ []) ∷ [])
unfolding add_node_to_pipeline
added_twice = refl

add_node_to_pipeline-IsAdded_example :
    (q : Stages) × (add_node_to_pipeline 10 1 (pair_times 1) [] ≡ ok q)
    × IsAdded 10 1 4 (length (iter_scheduled_clocks 10 (pair_times 1))) [] q
unfolding first_time
add_node_to_pipeline-IsAdded_example = add_node_to_pipeline-IsAdded 10 1 4 (pair_times 1) [] refl
