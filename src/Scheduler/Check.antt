-- ===== src/Scheduler/Check.antt =====
-- `HlsScheduler._checkAllNodesScheduled` (hwtHls/scheduler/scheduler.py), the assertions that the
-- scheduler makes after each of its two passes.
use hwt_hls.Prelude.{ℕ, Option, none, some, List, [], ◌∷◌, leb}
use hwt_hls.Prelude.Result.{
  Result, ok, err, index, require, assertion_error, type_error, ◌>>=◌, ◌>>◌,
}
use hwt_hls.Netlist.{HlsNetNodeOut, HlsPipeline, iter_all_nodes}
use hwt_hls.Scheduler.State.{Scheduled, Schedule}

-- `dep.obj.scheduledOut`, which cannot be indexed while it is None
abbrev pub outs_of : Option Scheduled → Result (List ℕ)
outs_of none = err type_error
outs_of (some v) = ok v.scheduled_out

module _ (s : Schedule) where
  -- the loop over `zip(node._inputs, node.scheduledIn, node.dependsOn)`
  unfoldable pub check_inputs : List ℕ → List HlsNetNodeOut → Result (Unit {0})
  check_inputs (in_time ∷ ts) (dep ∷ ds) = do
    outs ← outs_of (s dep.obj)
    out_time ← index outs dep.out_i
    require (leb out_time in_time) assertion_error
    check_inputs ts ds
  check_inputs _ _ = ok tt

  abbrev pub check_scheduled : Option Scheduled → List HlsNetNodeOut → Result (Unit {0})
  check_scheduled none ds = err assertion_error
  check_scheduled (some v) ds = check_inputs v.scheduled_in ds

  unfoldable pub check_nodes : HlsPipeline → List ℕ → Result (Unit {0})
  unfolding check_inputs
  check_nodes hls [] = ok tt
  check_nodes hls (n ∷ ns) = do check_scheduled (s n) (hls.node n).depends_on; check_nodes hls ns

  unfoldable pub check_all_nodes_scheduled : HlsPipeline → Result (Unit {0})
  unfolding check_nodes
  check_all_nodes_scheduled hls = check_nodes hls (iter_all_nodes hls)
