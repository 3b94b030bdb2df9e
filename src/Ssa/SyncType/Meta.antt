-- ===== src/Ssa/SyncType/Meta.antt =====
-- The meta data of a block of hwtHls/ssa/analysis/blockSyncType.py, from the threads in it and around it.
use hwt_hls.Prelude.{
  ℕ, ◌+◌, Bool, true, false, not, ◌&&◌, ◌||◌, Option, none, some, List, [], ◌∷◌, length, reverse,
  contains, ltb, ◌==◌, if◌then◌else◌,
}
use hwt_hls.Prelude.Result.{Result, ok, or_raise, ◌>>=◌, key_error}
use hwt_hls.Hwt.{UniqListOps}
use hwt_hls.Blocks.{collect_all_blocks}
use hwt_hls.Ssa.{Operand}
use hwt_hls.Ssa.Blocks.{iter_blocks, targets_of}
use hwt_hls.Ssa.Threads.{is_empty, ThreadsPerBlock, mine_threads}
use hwt_hls.Ssa.SyncType.{
  BlockMeta, Metas, SyncContext, collect_cycles, collect_live_in_vars_with_multiple_src_blocks,
  mark_initializations, meta_of, on_block_needs_control, predecessors_of, set_meta, successors_of,
}

abbrev pub sum_threads : ThreadsPerBlock → List ℕ → Result ℕ
sum_threads threads [] = ok 0
sum_threads threads (b ∷ bs) = do
  ts ← or_raise key_error (threads b)
  n ← sum_threads threads bs
  ok (length ts + n)

abbrev pub has_condition : List (Option Operand × ℕ) → Bool
has_condition [] = false
has_condition ((none, b) ∷ ts) = has_condition ts
has_condition ((some c, b) ∷ ts) = true

abbrev pub without : List ℕ → List ℕ → List ℕ
without seen [] = []
without seen (t ∷ ts) = let rest = without seen ts in if contains seen t then rest else t ∷ rest

module _ (l : UniqListOps) (ctx : SyncContext) where
  abbrev pub any_needs_control : Metas → List ℕ → Result Bool
  any_needs_control metas [] = ok false
  any_needs_control metas (b ∷ bs) = do
    m ← meta_of metas b
    rest ← (if m.needs_control then ok true else any_needs_control metas bs)
    ok rest

  -- The first test of a header of a cycle whose need for control is not known yet.
  unfoldable pub cycle_needs_control : ThreadsPerBlock → ℕ → List ℕ → Result Bool
  cycle_needs_control threads block ts =
      if ltb 1 (length ts)
        || (ltb 2 (length (predecessors_of l ctx block)) || not (is_empty (ctx.ssa.phis block)))
      then ok true
      else if has_condition (targets_of (ctx.ssa.user (ctx.branch_of block)))
      then ok true
      else do suc_threads ← sum_threads threads (successors_of l ctx block); ok (ltb 1 suc_threads)

  abbrev pub starts_there : ThreadsPerBlock → List ℕ → List ℕ → Result (List ℕ)
  starts_there threads ts [] = ok ts
  starts_there threads ts (pred ∷ preds) = do
    before ← or_raise key_error (threads pred)
    starts_there threads (without before ts) preds

  unfoldable pub meta_of_cycle : ℕ → ThreadsPerBlock → ℕ → List ℕ → BlockMeta → Metas → Result Metas
  unfolding cycle_needs_control on_block_needs_control
  meta_of_cycle limit threads block ts m metas = do
    needed ← (if m.needs_control then ok true else cycle_needs_control threads block ts)
    let metas' =
        set_meta block
          (record m {
            needs_control = needed;
            requires_starter =
                if needed then length (predecessors_of l ctx block) == 1 else m.requires_starter;
          })
          metas
    (if not m.needs_control && needed
        then on_block_needs_control l ctx limit block metas'
        else ok metas')

  -- whether a block that is no header of a cycle needs control, where this is not known yet
  unfoldable pub block_needs_control :
      Metas → ℕ → (requires_starter : Bool) → (threads starting : List ℕ) → Result Bool
  block_needs_control metas block requires_starter ts starting =
      if requires_starter || ltb 1 (length starting)
      then ok true
      else if is_empty ts
      then ok false
      else do
        by_pred ← any_needs_control metas (predecessors_of l ctx block)
        (if by_pred then ok true else any_needs_control metas (successors_of l ctx block))

  unfoldable pub meta_of_block :
      ℕ → ℕ → (threads starting : List ℕ) → BlockMeta → Metas → Result Metas
  unfolding block_needs_control on_block_needs_control
  meta_of_block limit block ts starting m metas = do
    let starter =
        is_empty (predecessors_of l ctx block)
        && (not (is_empty starting) || not (length (successors_of l ctx block) == 1))
    let metas' = set_meta block (record m { requires_starter = starter }) metas
    (if m.needs_control then ok metas' else do
      needed ← block_needs_control metas' block starter ts starting
      let metas'' =
          set_meta block (record m { requires_starter = starter; needs_control = needed }) metas
      (if needed then on_block_needs_control l ctx limit block metas'' else ok metas''))

  -- `_get_SsaBasicBlock_meta`
  unfoldable pub get_block_meta : ℕ → ThreadsPerBlock → ℕ → Metas → Result Metas
  unfolding meta_of_cycle meta_of_block
  get_block_meta limit threads block metas = do
    m ← meta_of metas block
    ts ← or_raise key_error (threads block)
    starting ← starts_there threads ts (predecessors_of l ctx block)
    (if m.is_cycle_entry_point
        then meta_of_cycle limit threads block ts m metas
        else meta_of_block limit block ts starting m metas)

  unfoldable pub get_each_meta : ℕ → ThreadsPerBlock → List ℕ → Metas → Result Metas
  unfolding get_block_meta
  get_each_meta limit threads [] metas = ok metas
  get_each_meta limit threads (b ∷ bs) metas = do
    metas' ← get_block_meta limit threads b metas
    get_each_meta limit threads bs metas'

  unfoldable pub first_metas : List ℕ → Metas → Metas
  unfolding collect_cycles collect_live_in_vars_with_multiple_src_blocks
  first_metas [] metas = metas
  first_metas (b ∷ bs) metas = first_metas bs (
      set_meta b
        (collect_cycles l ctx b (record {
          is_cycle_entry_point = false;
          needs_control = false;
          requires_starter = false;
          is_initialization = false;
          phi_cyclic_args = [];
          live_vars_with_multiple_src_blocks =
              collect_live_in_vars_with_multiple_src_blocks l ctx b;
        }))
        metas)

  -- `apply`
  unfoldable pub apply_sync_type : ℕ → ℕ → Result Metas
  unfolding mine_threads collect_all_blocks first_metas mark_initializations get_each_meta
      iter_blocks
  apply_sync_type limit turns = do
    mined ← mine_threads ctx.ssa ctx.branch_of ctx.out_of_pipeline_edges limit ctx.start_block
    seen ← collect_all_blocks (successors_of l ctx) limit ctx.start_block
    let blocks = reverse seen
    metas ← mark_initializations l ctx turns ctx.start_block (first_metas blocks (λ b. none))
    get_each_meta limit mined.1 blocks metas
