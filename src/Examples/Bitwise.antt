-- ===== src/Examples/Bitwise.antt =====
-- The cluster of the nodes 1, with the inputs from the nodes 7 and 8, and 2, with the results of 1 and 9.
use hwt_hls.Prelude.{
  ℕ, zero, suc, ◌≡◌, refl, ◌<◌, ◌*◌, Bool, true, false, Option, none, some, List, [], ◌∷◌, ◌==◌,
  if◌then◌else◌, arith,
}
use hwt_hls.Prelude.Int.{ℤ, pos, negsuc, pos_part}
use hwt_hls.Prelude.Result.{Result, ok}
use hwt_hls.Netlist.{HlsNetNodeIn, HlsNetNodeOut}
use hwt_hls.Scheduler.Bitwise.{
  OpRealizationMeta, Operator, other_op, BitwiseOperator, BitwiseOps, for_each,
  resolve_subnode_realization,
}
use hwt_hls.Scheduler.Bitwise.Free.{scalar, resolve_subnode_realization-for_each}
use hwt_hls.Scheduler.Bitwise.Asap.{BitwiseState, schedule_asap_bitwise}
use hwt_hls.Scheduler.Bitwise.Alap.{CompactionState, schedule_alap_compaction_bitwise}

abbrev xor_op : BitwiseOperator
xor_op = record { operator = other_op; bit_length = 8; input_cnt = 2; output_cnt = 1 }

-- The platform takes 10 for each input of an operator.
abbrev platform : Operator → ℕ → ℤ → Result OpRealizationMeta
platform op width cnt = ok (scalar 0 (10 * pos_part cnt) 0 0)

resolve_subnode_realization-for_each_example :
    resolve_subnode_realization platform 1 xor_op 3
    ≡ ok (record {
      in_cycles_offset = for_each 2 0;
      latency_pre = for_each 2 0;
      latency_post = for_each 1 0;
      cycles_latency = for_each 1 0;
    })
resolve_subnode_realization-for_each_example =
    resolve_subnode_realization-for_each platform 1 xor_op 3 0 30 0 0 0 10 0 0 (ground arith) refl
      refl refl

abbrev out_of : ℕ → HlsNetNodeOut
out_of n = record { obj = n; out_i = 0 }

abbrev in_of : ℕ → ℕ → HlsNetNodeIn
in_of n i = record { obj = n; in_i = i }

abbrev xor_inputs : HlsNetNodeOut → List HlsNetNodeIn
xor_inputs o =
    if o.obj == 7 then in_of 1 0 ∷ [] else if o.obj == 8 then in_of 1 1 ∷ [] else in_of 2 1 ∷ []

abbrev xors : BitwiseOps
xors = record {
  id = 3;
  sub_nodes = 1 ∷ 2 ∷ [];
  sub_inputs = out_of 7 ∷ out_of 8 ∷ out_of 9 ∷ [];
  sub_outputs = out_of 2 ∷ [];
  inputs_dict = xor_inputs;
  sub_node = λ n. xor_op;
}

abbrev xor_drivers : ℕ → List HlsNetNodeOut
xor_drivers (suc zero) = out_of 7 ∷ out_of 8 ∷ []
xor_drivers (suc (suc zero)) = out_of 1 ∷ out_of 9 ∷ []
xor_drivers _ = []

abbrev xor_uses : ℕ → List (List HlsNetNodeIn)
xor_uses (suc zero) = (in_of 2 0 ∷ []) ∷ []
xor_uses (suc (suc zero)) = [] ∷ []
xor_uses (suc (suc (suc zero))) = (in_of 6 0 ∷ []) ∷ []
xor_uses _ = []

abbrev times_of : Result (List ℕ) × BitwiseState → Option (List ℕ × List ℕ)
times_of (r, s) = elim (s.schedule 3) [
  | none ↦ none
  | some v ↦ some (v.scheduled_in, v.scheduled_out)
]

-- The node 1 takes 20, and the node 2, with three inputs in all, nothing.
asap_times :
    times_of (
      schedule_asap_bitwise xors 100 1 xor_drivers
        (resolve_subnode_realization platform 1)
        (λ n s. (ok (5 ∷ []), s))
        9
        (record {
          schedule = λ n. none;
          total_input_cnt = λ n. none;
          realized = λ n. none;
          path_for_debug = some [];
        }))
    ≡ some (6 ∷ 6 ∷ 27 ∷ [], 27 ∷ [])
unfolding schedule_asap_bitwise resolve_subnode_realization
asap_times = refl

abbrev latest_of : Result (List ℤ) × CompactionState → Option (List ℤ)
latest_of (r, s) = s.scheduled_in 3

alap_times :
    latest_of (
      schedule_alap_compaction_bitwise xors 100 5 xor_drivers xor_uses
        (resolve_subnode_realization platform 1)
        (λ n s. (ok (pos 150 ∷ []), s))
        9
        (record { scheduled_in = λ n. none; scheduled_out = λ n. none; realized = λ n. none }))
    ≡ some (pos 130 ∷ pos 130 ∷ pos 130 ∷ [])
unfolding schedule_alap_compaction_bitwise resolve_subnode_realization hwt_hls.Prelude.Int.◌-ℤ◌
alap_times = refl
