-- ===== src/Scheduler/Bitwise/Free.antt =====
-- What an operator takes that is not the first one of its cluster.
use hwt_hls.Prelude.{ℕ, zero, suc, ◌≡◌, refl, ◌-◌, ◌/◌, ◌<◌, false, map, length, arith}
use hwt_hls.Prelude.Int.{ℤ, pos, sub_ℕ}
use hwt_hls.Prelude.Result.{Result, ok}
use hwt_hls.Scheduler.Asap.{zip_with}
use hwt_hls.Scheduler.Bitwise.{
  each, OpRealizationMeta, Operator, BitwiseOperator, for_each, number_for_each,
  number_for_each_normalized, total_inputs, is_first, assign_realization, realize_next,
  resolve_subnode_realization,
}

-- A realization with one number for all ports, as platforms give it.
abbrev pub scalar : (offset pre post cycles : ℕ) → OpRealizationMeta
scalar offset pre post cycles = record {
  in_cycles_offset = each offset;
  latency_pre = each pre;
  latency_post = each post;
  cycles_latency = each cycles;
}

length-zip_with : (n v : ℕ) → length (zip_with (λ a b. a - b) (for_each n v) (for_each n v)) ≡ n
unfolding zip_with
length-zip_with zero v = refl
length-zip_with (suc n) v = rw (length-zip_with n v) refl

no_difference :
    (resolution n v : ℕ)
    → 0 < resolution
    → map (λ d. d / resolution) (zip_with (λ a b. a - b) (for_each n v) (for_each n v))
      ≡ for_each n 0
unfolding zip_with
no_difference resolution zero v h = refl
no_difference resolution (suc n) v h = rw (no_difference resolution n v h) (ground arith)

-- If the platform gives one number for all ports, an operator that is not the first one of its
-- cluster gets a latency of 0 for each input, whatever the platform says that it takes, and the
-- rest from the realization with all inputs.
pub resolve_subnode_realization-for_each :
    (get_op_realization : Operator → ℕ → ℤ → Result OpRealizationMeta) (resolution : ℕ)
    (n : BitwiseOperator) (inputs offset pre post cycles offset' pre' post' cycles' : ℕ)
    → 0 < resolution
    → is_first n.operator (total_inputs n.operator inputs) ≡ false
    → get_op_realization n.operator n.bit_length (pos (total_inputs n.operator inputs))
      ≡ ok (scalar offset pre post cycles)
    → get_op_realization n.operator n.bit_length (sub_ℕ (total_inputs n.operator inputs) 2)
      ≡ ok (scalar offset' pre' post' cycles')
    → resolve_subnode_realization get_op_realization resolution n inputs
      ≡ ok (record {
        in_cycles_offset = for_each n.input_cnt offset;
        latency_pre = for_each n.input_cnt 0;
        latency_post = for_each n.output_cnt (post / resolution);
        cycles_latency = for_each n.output_cnt (cycles / resolution);
      })
unfolding resolve_subnode_realization realize_next assign_realization number_for_each
    number_for_each_normalized
resolve_subnode_realization-for_each get_op_realization resolution n inputs offset pre post cycles
      offset' pre' post' cycles' r first with_this without_this =
    rw (with_this, first, without_this)
      (rw (length-zip_with n.input_cnt pre', no_difference resolution n.input_cnt pre' r)
        (ground arith))
