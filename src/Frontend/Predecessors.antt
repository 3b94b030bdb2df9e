-- ===== src/Frontend/Predecessors.antt =====
-- `BlockPredecessorTracker` (hwtHls/ssa/translation/fromPython/blockPredecessorTracker.py), without the
-- copying of loop bodies: which blocks are known to be generated or not generated, and which ones have
-- all their predecessors known. A label is a number; the graph of networkx is its predecessors, its
-- successors and its nodes. A generator is the list of what it yields.
use hwt_hls.Prelude.{
  ℕ, zero, suc, Bool, true, false, not, ◌&&◌, ◌||◌, List, [], ◌∷◌, ◌++◌, contains, ◌==◌,
  if◌then◌else◌,
}
use hwt_hls.Prelude.Result.{Result, ok, err, require, ◌>>=◌, ◌>>◌, recursion_error, assertion_error}
use hwt_hls.Graph.{add}
pub mod Known
pub mod Marked

pub record DiGraph : Type 0 where
  pub nodes : List ℕ
  pub predecessors : ℕ → List ℕ
  pub successors : ℕ → List ℕ

pub record Tracker : Type 0 where
  pub generated : List ℕ
  pub not_generated : List ℕ
  pub not_generated_edges : List (ℕ × ℕ)

abbrev pub has_edge : List (ℕ × ℕ) → ℕ → ℕ → Bool
has_edge [] src dst = false
has_edge ((a, b) ∷ es) src dst = ((a == src) && (b == dst)) || has_edge es src dst

abbrev pub is_known : Tracker → ℕ → Bool
is_known t p = contains t.generated p || contains t.not_generated p

abbrev pub all_known : Tracker → List ℕ → Bool
all_known t [] = true
all_known t (p ∷ ps) = is_known t p && all_known t ps

abbrev pub all_not_generated : Tracker → List ℕ → Bool
all_not_generated t [] = true
all_not_generated t (p ∷ ps) = contains t.not_generated p && all_not_generated t ps

module _ (cfg : DiGraph) where
  -- `hasAllPredecessorsKnown`
  unfoldable pub has_all_predecessors_known : Tracker → ℕ → Bool
  has_all_predecessors_known t block_label = all_known t (cfg.predecessors block_label)

  -- `checkAllNewlyResolvedBlocks`
  unfoldable pub check_all_newly_resolved_blocks : Tracker → ℕ → List ℕ
  check_all_newly_resolved_blocks t block =
      if all_known t (cfg.predecessors block) then block ∷ [] else []

  unfoldable pub check_generated : Tracker → List ℕ → List ℕ
  unfolding check_all_newly_resolved_blocks
  check_generated t [] = []
  check_generated t (suc_block ∷ rest) =
      (if contains t.generated suc_block then check_all_newly_resolved_blocks t suc_block else [])
      ++ check_generated t rest

  -- `addGenerated`
  unfoldable pub add_generated : ℕ → Tracker → Result (List ℕ × Tracker)
  unfolding check_generated
  add_generated block t = do
    require (not (contains t.generated block)) assertion_error
    require (not (contains t.not_generated block)) assertion_error
    let t' : Tracker = record t { generated = add block t.generated }
    ok (check_all_newly_resolved_blocks t' block ++ check_generated t' (cfg.successors block), t')

  -- whether the loop over the predecessors of `dst` ends without an early return
  unfoldable pub all_edges_reported : Tracker → ℕ → List ℕ → Bool
  all_edges_reported t dst [] = true
  all_edges_reported t dst (pred ∷ preds) =
      has_edge t.not_generated_edges pred dst && all_edges_reported t dst preds

  abbrev pub Visit : Type 0
  Visit = ℕ → ℕ → Tracker → Result (List ℕ × Tracker)

  -- a turn of the loop over the successors of a block that is not generated
  unfoldable pub resolve_successor : Visit → ℕ → ℕ → Tracker → Result (List ℕ × Tracker)
  unfolding check_all_newly_resolved_blocks
  resolve_successor visit dst suc_block t =
      if all_known t (cfg.predecessors suc_block)
      then (if contains t.generated suc_block
          then ok (check_all_newly_resolved_blocks t suc_block, t)
          else if all_not_generated t (cfg.predecessors suc_block)
          then visit dst suc_block t
          else ok ([], t))
      else ok ([], t)

  unfoldable pub resolve_successors : Visit → ℕ → List ℕ → Tracker → Result (List ℕ × Tracker)
  unfolding resolve_successor
  resolve_successors visit dst [] t = ok ([], t)
  resolve_successors visit dst (s ∷ rest) t = do
    first ← resolve_successor visit dst s t
    more ← resolve_successors visit dst rest first.1
    ok (first.0 ++ more.0, more.1)

  -- after the edge was reported
  unfoldable pub mark_not_generated : Visit → ℕ → Tracker → Result (List ℕ × Tracker)
  unfolding all_edges_reported resolve_successors
  mark_not_generated visit dst t =
      if contains cfg.nodes dst && all_edges_reported t dst (cfg.predecessors dst)
      then resolve_successors visit dst (cfg.successors dst)
          (record t { not_generated = add dst t.not_generated })
      else ok ([], t)

  -- `addNotGenerated`; the fuel is Python's recursion limit
  unfoldable pub add_not_generated : ℕ → Visit
  unfolding mark_not_generated
  add_not_generated zero src dst t = err recursion_error
  add_not_generated (suc limit) src dst t = do
    require (not (has_edge t.not_generated_edges src dst)) assertion_error
    require (not (contains t.not_generated dst)) assertion_error
    mark_not_generated (add_not_generated limit) dst
        (record t { not_generated_edges = (src, dst) ∷ t.not_generated_edges })
