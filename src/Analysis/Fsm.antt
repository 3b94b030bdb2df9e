-- ===== src/Analysis/Fsm.antt =====
-- `HlsNetlistAnalysisPassDiscoverFsm` (hwtHls/netlist/analysis/fsm.py). An interface that is accessed
-- several times gets a state machine, with one state for each clock period in which it is accessed,
-- and with the nodes that are tied to the access in that period.
pub mod Ring
pub mod Spread
pub mod Discover
use hwt_hls.Prelude.{
  ℕ, zero, suc, ◌+◌, ◌*◌, ◌/◌, ◌%◌, Bool, true, false, ◌&&◌, ◌||◌, Option, none, some, List, [],
  ◌∷◌, ◌++◌, map, length, get_elem?, contains, ltb, leb, ◌==◌, if◌then◌else◌,
}
use hwt_hls.Prelude.Result.{
  Result, ok, err, or_raise, index, require, ◌>>=◌, ◌>>◌, recursion_error, index_error,
  assertion_error,
}
use hwt_hls.Clock.{start_clk}
use hwt_hls.Netlist.{HlsNetNodeIn, HlsPipeline, NodeKind, read, write}
use hwt_hls.Graph.{add}
use hwt_hls.Scheduler.State.{Scheduled}
use hwt_hls.Scheduler.Clocks.{range_from, iter_scheduled_clocks}
use hwt_hls.Analysis.Io.{IoDict, accesses_of}

-- A node, or a HlsNetNodePartRef: the ports of a node that lie in one clock period.
pub data FsmNode : Type 0 where
  whole : ℕ → FsmNode
  part : (parent clk_i : ℕ) (inputs outputs : List ℕ) → FsmNode

abbrev pub node_of : FsmNode → ℕ
node_of (whole n) = n
node_of (part n clk_i inputs outputs) = n

pub record IoFsm : Type 0 where
  pub intf : ℕ
  pub states : List (List FsmNode)
  pub state_clk_i : List (ℕ × ℕ)
  pub transition_table : List (ℕ × List (ℕ × ℕ))

abbrev pub new_fsm : ℕ → IoFsm
new_fsm i = record { intf = i; states = []; state_clk_i = []; transition_table = [] }

unfoldable pub add_state : ℕ → IoFsm → IoFsm
add_state clk_i fsm = record fsm {
  state_clk_i = fsm.state_clk_i ++ (length fsm.states, clk_i) ∷ [];
  states = fsm.states ++ [] ∷ [];
}

-- `fsm.states[-1].append(n)`, for each of the nodes
abbrev pub extend_last : List FsmNode → List (List FsmNode) → List (List FsmNode)
extend_last ns [] = []
extend_last ns (state ∷ []) = (state ++ ns) ∷ []
extend_last ns (state ∷ next ∷ rest) = state ∷ extend_last ns (next ∷ rest)

-- `{i: {(i + 1) % stCnt: 1} for i in range(stCnt)}`
unfoldable pub transitions : ℕ → List (ℕ × List (ℕ × ℕ))
unfolding range_from
transitions st_cnt = map (λ i. (i, ((i + 1) % st_cnt, 1) ∷ [])) (range_from st_cnt 0)

-- The sets that `_floodNetInSameCycle` marks nodes in, and what it has yielded, the last node first.
pub record Flood : Type 0 where
  pub seen : List ℕ
  pub already_used : List ℕ
  pub found : List FsmNode

-- The indexes of the times in a clock period.
unfoldable pub in_clk : (clk_period clk_i i : ℕ) → List ℕ → List ℕ
unfolding start_clk
in_clk clk_period clk_i i [] = []
in_clk clk_period clk_i i (t ∷ ts) =
    let rest = in_clk clk_period clk_i (suc i) ts in
    if start_clk t clk_period == clk_i then i ∷ rest else rest

module _ (hls : HlsPipeline) (sched : ℕ → Scheduled) (clk_i : ℕ) where
  -- what is yielded for a node
  unfoldable pub fsm_node : ℕ → FsmNode
  unfolding in_clk iter_scheduled_clocks
  fsm_node n =
      let clk_period = hls.normalized_clk_period in
      if ltb 1 (length (iter_scheduled_clocks clk_period (sched n)))
      then part n clk_i (in_clk clk_period clk_i 0 (sched n).scheduled_in)
          (in_clk clk_period clk_i 0 (sched n).scheduled_out)
      else whole n

  abbrev pub users : List (List HlsNetNodeIn) → List (ℕ × Option ℕ)
  users [] = []
  users (us ∷ rest) =
      map (λ u. (u.obj, get_elem? (sched u.obj).scheduled_in u.in_i)) us ++ users rest

  -- the two loops, over the drivers and over the uses: a neighbour and the time of its port
  abbrev pub neighbours : ℕ → List (ℕ × Option ℕ)
  neighbours n =
      map (λ d. (d.obj, get_elem? (sched d.obj).scheduled_out d.out_i)) (hls.node n).depends_on
      ++ users (hls.node n).used_by

  module _ (predicate : ℕ → Bool) where
    unfoldable pub is_followed : Flood → ℕ → Option ℕ → Result Bool
    unfolding start_clk
    is_followed st n time =
        if contains st.seen n || contains st.already_used n then ok false else do
          t ← or_raise index_error time
          ok ((start_clk t hls.normalized_clk_period == clk_i) && predicate n)

    unfoldable pub flood_each :
        (ℕ → Flood → Result Flood) → List (ℕ × Option ℕ) → Flood → Result Flood
    unfolding is_followed
    flood_each visit [] st = ok st
    flood_each visit ((n, time) ∷ ns) st = do
      follow ← is_followed st n time
      st' ← (if follow then visit n st else ok st)
      flood_each visit ns st'

    -- `_floodNetInSameCycle`; the fuel is Python's recursion limit
    unfoldable pub flood : ℕ → ℕ → Flood → Result Flood
    unfolding flood_each fsm_node
    flood zero n st = err recursion_error
    flood (suc limit) n st = flood_each (flood limit) (neighbours n) (record {
      seen = add n st.seen;
      already_used = add n st.already_used;
      found = fsm_node n ∷ st.found;
    })
