-- ===== src/Examples/Asap.antt =====
-- Two netlists for ASAP scheduling: a source that drives an operation, and an operation that drives
-- itself.
use hwt_hls.Prelude.{ℕ, zero, suc, ◌≤◌, ◌<◌, ◌≡◌, refl, [], ◌∷◌, All, length, arith}
use hwt_hls.Prelude.Result.{ok, err, cycle_error}
use hwt_hls.Clock.{start_of_next_clk_period}
use hwt_hls.Netlist.{HlsNetNode, HlsPipeline, operator, const_node}
use hwt_hls.Scheduler.State.{Scheduled, Schedule, unscheduled, assign}
use hwt_hls.Scheduler.Check.{check_all_nodes_scheduled}
use hwt_hls.Scheduler.Asap.{
  normalized_time, place, place_source, zip_inputs, zip_with, inputs_of, run_asap,
}
use hwt_hls.Scheduler.Methods.{IsPlain}
use hwt_hls.Scheduler.Asap.Correct.{run_asap-check}
use hwt_hls.Scheduler.Asap.Earliest.{IsFeasible, InputTaken, run_asap_earliest, run_asap_feasible}
use hwt_hls.Scheduler.Asap.Total.{IsSchedulable, run_asap_returns}
use hwt_hls.Scheduler.Asap.Cycle.{Walk, run_asap_cycle}

abbrev source : HlsNetNode
source = record {
  kind = const_node;
  depends_on = [];
  used_by = [];
  in_cycles_offset = [];
  latency_pre = [];
  latency_post = 3 ∷ [];
  cycles_latency = 0 ∷ [];
}

-- It needs 9 before the next clock edge, so it does not fit into the rest of the first period.
abbrev adder : HlsNetNode
adder = record {
  kind = operator;
  depends_on = record { obj = 0; out_i = 0 } ∷ [];
  used_by = [];
  in_cycles_offset = 0 ∷ [];
  latency_pre = 9 ∷ [];
  latency_post = 0 ∷ [];
  cycles_latency = 0 ∷ [];
}

abbrev chain_node : ℕ → HlsNetNode
chain_node (suc zero) = adder
chain_node _ = source

abbrev chain : HlsPipeline
chain = record {
  normalized_clk_period = 10;
  inputs = [];
  nodes = 0 ∷ 1 ∷ [];
  outputs = [];
  node = chain_node;
}

abbrev source_times : Scheduled
source_times = record { scheduled_in = []; scheduled_out = 3 ∷ [] }

abbrev adder_times : Scheduled
adder_times = record { scheduled_in = 10 ∷ []; scheduled_out = 19 ∷ [] }

abbrev chain_schedule : Schedule
chain_schedule = assign (assign unscheduled 0 source_times) 1 adder_times

run_asap-chain : run_asap chain 5 unscheduled ≡ (ok tt, chain_schedule)
unfolding run_asap normalized_time
run_asap-chain = refl

abbrev loop : HlsPipeline
loop = record chain { node = λ n. adder; nodes = 0 ∷ [] }

run_asap-loop : run_asap loop 5 unscheduled ≡ (err (cycle_error 0), unscheduled)
unfolding run_asap
run_asap-loop = refl

run_asap-check_example : check_all_nodes_scheduled chain_schedule chain ≡ ok tt
run_asap-check_example = run_asap-check chain 5 chain_schedule run_asap-chain

run_asap_cycle_example : Walk loop 0 0
run_asap_cycle_example = run_asap_cycle loop 5 0 unscheduled run_asap-loop

chain-IsPlain : IsPlain chain
chain-IsPlain zero = refl
chain-IsPlain (suc zero) = refl
chain-IsPlain (suc (suc n)) = refl

chain_acyclic : (n : ℕ) → All (λ d. d.obj < n) (chain_node n).depends_on
chain_acyclic zero = tt
chain_acyclic (suc zero) = omega arith
chain_acyclic (suc (suc n)) = tt

chain_linked :
    (n : ℕ) → All (λ d. d.out_i < length (chain_node d.obj).latency_post) (chain_node n).depends_on
chain_linked zero = tt
chain_linked (suc zero) = omega arith
chain_linked (suc (suc n)) = tt

chain_realized : (n : ℕ) → length (chain_node n).cycles_latency ≡ length (chain_node n).latency_post
chain_realized zero = refl
chain_realized (suc zero) = refl
chain_realized (suc (suc n)) = refl

chain_fast : (n : ℕ) → All (λ l. l < 10) (chain_node n).latency_pre
chain_fast zero = tt
chain_fast (suc zero) = omega arith
chain_fast (suc (suc n)) = tt

chain-IsSchedulable : IsSchedulable chain (λ n. n)
chain-IsSchedulable = record {
  plain = chain-IsPlain;
  acyclic = chain_acyclic;
  linked = chain_linked;
  realized = chain_realized;
  fast = chain_fast;
}

run_asap_returns_example : (t : Schedule) × (run_asap chain 5 unscheduled ≡ (ok tt, t))
run_asap_returns_example = run_asap_returns chain (λ n. n) chain-IsSchedulable 5 (omega arith)

-- Another feasible schedule starts the operation a period later.
abbrev late : ℕ → ℕ
late n = 29

late-IsFeasible : IsFeasible chain late
unfolding zip_inputs place_source start_of_next_clk_period
late-IsFeasible zero = tt
late-IsFeasible (suc zero) = ((3, refl, 20, omega arith, omega arith, omega arith), tt)
late-IsFeasible (suc (suc n)) = tt

run_asap_earliest_example : 19 ≤ 29
unfolding place zip_with
run_asap_earliest_example =
    run_asap_earliest chain (λ n. n) late 5 chain_schedule chain-IsPlain chain_acyclic
      late-IsFeasible run_asap-chain 1 adder_times 0 19 29 refl refl refl

run_asap_feasible_example :
    (time : ℕ) × (adder_times ≡ place 10 adder time)
    × All (InputTaken chain chain_schedule time) (inputs_of chain 1)
run_asap_feasible_example =
    run_asap_feasible chain 5 chain_schedule run_asap-chain 1 adder_times refl (λ e. cc)
