-- ===== src/Examples/SyncType.antt =====
-- The loop of the example of the threads.
use hwt_hls.Prelude.{ℕ, ◌+◌, ◌≡◌, refl, true, false, Option, none, some, [], ◌∷◌, arith}
use hwt_hls.Prelude.Result.{Result, ok, err}
use hwt_hls.Ssa.Blocks.{iter_blocks}
use hwt_hls.Ssa.SyncType.{BlockMeta, Metas, SyncContext, on_block_needs_control}
use hwt_hls.Ssa.SyncType.Meta.{apply_sync_type}
use hwt_hls.Ssa.SyncType.Control.{Spreads, Closed}
use hwt_hls.Ssa.SyncType.Ends.{IsRegion, on_block_needs_control-Spreads}
use hwt_hls.Examples.UniqLists.{uniq_lists}
use hwt_hls.Examples.Threads.{loop_code}

abbrev loop_context : SyncContext
loop_context = record {
  ssa = loop_code;
  branch_of = λ b. b + 10;
  start_block = 0;
  out_of_pipeline_edges = (1, 1) ∷ [];
  edge_var_live = (0, 1, 5) ∷ (1, 1, 5) ∷ (1, 1, 4) ∷ [];
}

abbrev plain_meta : BlockMeta
plain_meta = record {
  is_cycle_entry_point = false;
  needs_control = false;
  requires_starter = false;
  is_initialization = false;
  phi_cyclic_args = [];
  live_vars_with_multiple_src_blocks = [];
}

abbrev plain_metas : Metas
plain_metas b = some plain_meta

loop-IsRegion : IsRegion uniq_lists loop_context (0 ∷ 1 ∷ 2 ∷ [])
unfolding iter_blocks
loop-IsRegion =
    ((tt, (refl, tt)), (((refl, (refl, tt)), (refl, (refl, tt))), (((refl, tt), tt), tt)))

on_block_needs_control-Spreads_example :
    (after : Metas) × (on_block_needs_control uniq_lists loop_context 4 1 plain_metas ≡ ok after)
    × Spreads uniq_lists loop_context plain_metas after
    × Closed uniq_lists loop_context after 1
on_block_needs_control-Spreads_example =
    on_block_needs_control-Spreads uniq_lists loop_context (0 ∷ 1 ∷ 2 ∷ []) 4 1 plain_metas
      loop-IsRegion refl (refl, (refl, (refl, tt))) (ground arith)

abbrev meta_at : Result Metas → ℕ → Option BlockMeta
meta_at (ok metas) b = metas b
meta_at (err e) b = none

-- The header needs control, and so do the blocks around it; the loop variable goes around.
loop_header :
    meta_at (apply_sync_type uniq_lists loop_context 9 9) 1
    ≡ some (record plain_meta {
      is_cycle_entry_point = true;
      needs_control = true;
      phi_cyclic_args = 4 ∷ [];
      live_vars_with_multiple_src_blocks = 5 ∷ [];
    })
unfolding apply_sync_type
loop_header = refl
