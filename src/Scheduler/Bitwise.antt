-- ===== src/Scheduler/Bitwise.antt =====
-- HlsNetNodeBitwiseOps of hwtHls/netlist/nodes/aggregatedBitwiseOps.py: the nodes in a cluster of bitwise
-- operators, and what their operators take. A latency is told in a unit of which the resolution of the
-- scheduler is a multiple, and so is `cycles_latency`, as the code divides it by the resolution as well.
-- The platform, which knows the operators, is a parameter, and what it tells is a value: the code writes
-- into what it was told, and a platform that keeps it for the next question is not represented.
pub mod Asap
pub mod Alap
pub mod Free
use hwt_hls.Prelude.{
  ℕ, zero, suc, ◌+◌, ◌-◌, ◌/◌, Bool, true, false, ◌&&◌, ◌||◌, Option, none, some, List, [], ◌∷◌,
  map, length, ◌==◌, if◌then◌else◌,
}
use hwt_hls.Prelude.Int.{ℤ, pos, negsuc, sub_ℕ}
use hwt_hls.Prelude.Result.{Result, ok, err, require, ◌>>=◌, ◌>>◌, assertion_error, type_error}
use hwt_hls.Netlist.{HlsNetNodeIn, HlsNetNodeOut}
use hwt_hls.Scheduler.Asap.{zip_with}

-- One number for all ports, or one for each.
pub data PerPort : Type 0 where
  each : ℕ → PerPort
  per_port : List ℕ → PerPort

pub record OpRealizationMeta : Type 0 where
  pub in_cycles_offset : PerPort
  pub latency_pre : PerPort
  pub latency_post : PerPort
  pub cycles_latency : PerPort

-- What `assignRealization` sets of a node.
pub record Realized : Type 0 where
  pub in_cycles_offset : List ℕ
  pub latency_pre : List ℕ
  pub latency_post : List ℕ
  pub cycles_latency : List ℕ

pub data Operator : Type 0 where
  ternary not_op other_op : Operator

-- A node of a cluster.
pub record BitwiseOperator : Type 0 where
  pub operator : Operator
  pub bit_length : ℕ
  pub input_cnt : ℕ
  pub output_cnt : ℕ

-- The cluster: the aggregated node, and what `_subNodes` has.
pub record BitwiseOps : Type 0 where
  pub id : ℕ
  pub sub_nodes : List ℕ
  pub sub_inputs : List HlsNetNodeOut
  pub sub_outputs : List HlsNetNodeOut
  pub inputs_dict : HlsNetNodeOut → List HlsNetNodeIn
  pub sub_node : ℕ → BitwiseOperator

abbrev pub for_each : ℕ → ℕ → List ℕ
for_each zero v = []
for_each (suc n) v = v ∷ for_each n v

-- `HlsNetNode_numberForEachInput` and `HlsNetNode_numberForEachOutput`
unfoldable pub number_for_each : ℕ → PerPort → Result (List ℕ)
number_for_each n (each v) = ok (for_each n v)
number_for_each n (per_port vs) = do require (length vs == n) assertion_error; ok vs

-- The same, normalized to the resolution.
unfoldable pub number_for_each_normalized : ℕ → ℕ → PerPort → Result (List ℕ)
number_for_each_normalized resolution n (each v) = ok (for_each n (v / resolution))
number_for_each_normalized resolution n (per_port vs) = do
  require (length vs == n) assertion_error
  ok (map (λ v. v / resolution) vs)

abbrev pub first_two : List ℕ → List ℕ
first_two (a ∷ b ∷ vs) = a ∷ b ∷ []
first_two vs = vs

-- a latency, of which at most two are kept
abbrev pub latency_of_two : PerPort → PerPort
latency_of_two (each v) = each v
latency_of_two (per_port vs) = per_port (first_two vs)

-- The offset is replaced if there is one for each port: a number has no slice.
abbrev pub offset_of_two : PerPort → PerPort → Result PerPort
offset_of_two (each v) without = ok (each v)
offset_of_two (per_port vs) (each v) = err type_error
offset_of_two (per_port vs) (per_port ws) = ok (per_port (first_two ws))

abbrev pub total_inputs : Operator → ℕ → ℕ
total_inputs ternary n = n / 2 + 1
total_inputs _ n = n

-- whether an operator is the first one of its cluster
abbrev pub is_first : Operator → ℕ → Bool
is_first not_op n = (n == 1) || (n == 2)
is_first _ n = n == 2

module _ (get_op_realization : Operator → ℕ → ℤ → Result OpRealizationMeta) (resolution : ℕ) where
  -- `HlsNetNode.assignRealization`, but for the delays
  unfoldable pub assign_realization : BitwiseOperator → OpRealizationMeta → Result Realized
  unfolding number_for_each number_for_each_normalized
  assign_realization n r = do
    offset ← number_for_each n.input_cnt r.in_cycles_offset
    pre ← number_for_each_normalized resolution n.input_cnt r.latency_pre
    post ← number_for_each_normalized resolution n.output_cnt r.latency_post
    cycles ← number_for_each_normalized resolution n.output_cnt r.cycles_latency
    ok (record {
      in_cycles_offset = offset;
      latency_pre = pre;
      latency_post = post;
      cycles_latency = cycles;
    })

  -- The latency without the part that the operators before already have: what is subtracted from what
  -- is the same.
  unfoldable pub realize_next :
      BitwiseOperator → OpRealizationMeta → OpRealizationMeta → Result Realized
  unfolding assign_realization number_for_each zip_with
  realize_next n with_this_node without_this_node = do
    offset ← offset_of_two with_this_node.in_cycles_offset without_this_node.in_cycles_offset
    pre ← number_for_each n.input_cnt (latency_of_two without_this_node.latency_pre)
    assign_realization n (record with_this_node {
      in_cycles_offset = offset;
      latency_pre = per_port (zip_with (λ a b. a - b) pre pre);
    })

  -- `resolveSubnodeRealization`
  unfoldable pub resolve_subnode_realization : BitwiseOperator → ℕ → Result Realized
  unfolding realize_next assign_realization
  resolve_subnode_realization n inputs =
      let cnt = total_inputs n.operator inputs in
      do
        with_this_node ← get_op_realization n.operator n.bit_length (pos cnt)
        (if is_first n.operator cnt then assign_realization n with_this_node else do
          without_this_node ← get_op_realization n.operator n.bit_length (sub_ℕ cnt 2)
          realize_next n with_this_node without_this_node)
