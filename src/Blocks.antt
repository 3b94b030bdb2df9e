-- ===== src/Blocks.antt =====
-- `collect_all_blocks` (hwtHls/ssa/transformation/utils/blockAnalysis.py): the blocks that a block
-- leads to, as the passes over the SSA visit them. A generator is the list of what it yields, the
-- last block first; that is also the set `seen_blocks`.
pub mod Collect
use hwt_hls.Prelude.{ℕ, List, []}
use hwt_hls.Prelude.Result.{Result}
use hwt_hls.Graph.{walk}

-- `successors b` stands for `b.successors.iterBlocks()`.
unfoldable pub collect_all_blocks : (ℕ → List ℕ) → ℕ → ℕ → Result (List ℕ)
unfolding walk
collect_all_blocks successors limit start = walk successors limit start []
