-- ===== src/Netlist.antt =====
-- The netlist of hwtHls/netlist/nodes/node.py and hwtHls/netlist/nodes/ports.py. Nodes are named by
-- their `_id`, and the node objects are a function from identities to records.
pub mod OpCache
use hwt_hls.Prelude.{ℕ, List, ◌++◌}

-- An output port: the node that has it and its index there.
pub record HlsNetNodeOut : Type 0 where
  pub obj : ℕ
  pub out_i : ℕ

pub record HlsNetNodeIn : Type 0 where
  pub obj : ℕ
  pub in_i : ℕ

-- The classes of nodes that the modelled passes tell apart by `isinstance`.
pub data NodeKind : Type 0 where
  read write explicit_sync loop_gate const_node bitwise_ops operator : NodeKind

-- A node after `resolve_realization`, which is virtual and only fills in the four lists of numbers.
pub record HlsNetNode : Type 0 where
  pub kind : NodeKind
  pub depends_on : List HlsNetNodeOut
  pub used_by : List (List HlsNetNodeIn)
  pub in_cycles_offset : List ℕ
  pub latency_pre : List ℕ
  pub latency_post : List ℕ
  pub cycles_latency : List ℕ

-- The lists of hwtHls/hlsPipeline.py.
pub record HlsPipeline : Type 0 where
  pub normalized_clk_period : ℕ
  pub inputs : List ℕ
  pub nodes : List ℕ
  pub outputs : List ℕ
  pub node : ℕ → HlsNetNode

abbrev pub iter_all_nodes : HlsPipeline → List ℕ
iter_all_nodes hls = hls.inputs ++ hls.nodes ++ hls.outputs
