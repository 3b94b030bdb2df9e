-- ===== src/Examples/Cluster.antt =====
-- A chain of three nodes, of which the middle one is the cluster.
use hwt_hls.Prelude.{ℕ, zero, suc, ◌≡◌, refl, ◌⊎◌, Bool, List, [], ◌∷◌, ◌==◌, if◌then◌else◌}
use hwt_hls.Prelude.Result.{ok, err, recursion_error}
use hwt_hls.Netlist.{HlsNetNodeOut, HlsNetNodeIn, HlsNetNode, operator, HlsPipeline}
use hwt_hls.Analysis.Cluster.{Cluster, Search, new_cluster, discover, consystency_check}
use hwt_hls.Analysis.Cluster.Cycles.{split_to_prevent_outer_cycles}
use hwt_hls.Analysis.Cluster.Check.{discover_consistent}
use hwt_hls.Examples.UniqLists.{uniq_lists}

abbrev pub chain_node : List HlsNetNodeOut → List (List HlsNetNodeIn) → HlsNetNode
chain_node drivers uses = record {
  kind = operator;
  depends_on = drivers;
  used_by = uses;
  in_cycles_offset = [];
  latency_pre = [];
  latency_post = [];
  cycles_latency = [];
}

abbrev pub chain_nodes : ℕ → HlsNetNode
chain_nodes zero = chain_node [] ((record { obj = 1; in_i = 0 } ∷ []) ∷ [])
chain_nodes (suc zero) =
    chain_node (record { obj = 0; out_i = 0 } ∷ []) ((record { obj = 2; in_i = 0 } ∷ []) ∷ [])
chain_nodes _ = chain_node (record { obj = 1; out_i = 0 } ∷ []) []

abbrev pub chain : HlsPipeline
chain = record {
  normalized_clk_period = 10;
  inputs = [];
  nodes = 0 ∷ 1 ∷ 2 ∷ [];
  outputs = [];
  node = chain_nodes;
}

abbrev is_middle : ℕ → Bool
is_middle n = n == 1

abbrev unsearched : Search
unsearched = record { cluster = new_cluster; seen = [] }

abbrev middle : Search
middle = record {
  cluster = record {
    inputs = record { obj = 0; out_i = 0 } ∷ [];
    inputs_dict = (record { obj = 0; out_i = 0 }, record { obj = 1; in_i = 0 } ∷ []) ∷ [];
    outputs = record { obj = 1; out_i = 0 } ∷ [];
    nodes = 1 ∷ [];
  };
  seen = 1 ∷ [];
}

found_middle : discover chain uniq_lists is_middle 3 1 unsearched ≡ ok middle
unfolding discover
found_middle = refl

discover_consistent_example :
    (discover chain uniq_lists is_middle 3 1 unsearched ≡ err recursion_error)
    ⊎ ((s : Search) × (discover chain uniq_lists is_middle 3 1 unsearched ≡ ok s)
        × (consystency_check chain s.cluster ≡ ok tt))
discover_consistent_example = discover_consistent uniq_lists chain is_middle 3 1 []

-- The nodes 1 and 2 are a cluster, and 1 leads to 2 over the node 5 as well, which is not in it.
abbrev from_port : ℕ → HlsNetNodeOut
from_port n = record { obj = n; out_i = 0 }

abbrev at_port : ℕ → ℕ → HlsNetNodeIn
at_port n i = record { obj = n; in_i = i }

abbrev ring_node : ℕ → HlsNetNode
ring_node n =
    if n == 1
    then chain_node (from_port 0 ∷ []) ((at_port 2 0 ∷ at_port 5 0 ∷ []) ∷ [])
    else if n == 2
    then chain_node (from_port 1 ∷ from_port 5 ∷ []) ((at_port 6 0 ∷ []) ∷ [])
    else if n == 5
    then chain_node (from_port 1 ∷ []) ((at_port 2 1 ∷ []) ∷ [])
    else chain_node [] []

abbrev ring_cluster : Cluster
ring_cluster = record {
  inputs = from_port 0 ∷ from_port 5 ∷ [];
  inputs_dict = (from_port 0, at_port 1 0 ∷ []) ∷ (from_port 5, at_port 2 1 ∷ []) ∷ [];
  outputs = from_port 1 ∷ from_port 2 ∷ [];
  nodes = 1 ∷ 2 ∷ [];
}

split_ring :
    split_to_prevent_outer_cycles (record chain { node = ring_node }) uniq_lists 9 9 ring_cluster
    ≡ ok (
        record {
          inputs = from_port 0 ∷ [];
          inputs_dict = (from_port 0, at_port 1 0 ∷ []) ∷ [];
          outputs = from_port 1 ∷ [];
          nodes = 1 ∷ [];
        }
        ∷ record {
          inputs = from_port 5 ∷ from_port 1 ∷ [];
          inputs_dict = (from_port 5, at_port 2 1 ∷ []) ∷ (from_port 1, at_port 2 0 ∷ []) ∷ [];
          outputs = from_port 2 ∷ [];
          nodes = 2 ∷ [];
        }
        ∷ [])
unfolding split_to_prevent_outer_cycles
split_ring = refl
