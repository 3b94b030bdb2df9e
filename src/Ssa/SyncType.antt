-- ===== src/Ssa/SyncType.antt =====
-- hwtHls/ssa/analysis/blockSyncType.py: which blocks need a control channel, which ones a provider of the
-- first token, and which ones run just once.
pub mod Meta
pub mod Control
pub mod Ends
use hwt_hls.Prelude.{
  ℕ, zero, suc, ◌+◌, Bool, true, false, not, ◌&&◌, ◌||◌, Option, none, some, List, [], ◌∷◌, ◌++◌,
  map, length, reverse, contains, ltb, leb, ◌==◌, if◌then◌else◌,
}
use hwt_hls.Prelude.Result.{
  Result, ok, err, or_raise, require, ◌>>=◌, ◌>>◌, key_error, recursion_error,
}
use hwt_hls.Hwt.{UniqListOps}
use hwt_hls.Graph.{add}
use hwt_hls.Blocks.{collect_all_blocks}
use hwt_hls.Ssa.{Operand, SsaUser, Ssa, set_at}
use hwt_hls.Ssa.Blocks.{iter_blocks, targets_of}
use hwt_hls.Ssa.Liveness.{EdgeLiveness}
use hwt_hls.Ssa.Threads.{is_out_of_pipeline, is_empty, ThreadsPerBlock, mine_threads}

pub record BlockMeta : Type 0 where
  pub is_cycle_entry_point : Bool
  pub needs_control : Bool
  pub requires_starter : Bool
  pub is_initialization : Bool
  pub phi_cyclic_args : List ℕ
  pub live_vars_with_multiple_src_blocks : List ℕ

abbrev pub Metas : Type 0
Metas = ℕ → Option BlockMeta

-- `self._blockMeta[block]`
abbrev pub meta_of : Metas → ℕ → Result BlockMeta
meta_of metas b = or_raise key_error (metas b)

abbrev pub set_meta : ℕ → BlockMeta → Metas → Metas
set_meta b m metas = set_at metas b (some m)

-- `edge_var_live[src][dst]`
abbrev pub live_on : EdgeLiveness → ℕ → ℕ → List ℕ
live_on [] src dst = []
live_on ((a, b, v) ∷ live) src dst =
    let rest = live_on live src dst in if (a == src) && (b == dst) then v ∷ rest else rest

-- The arguments of the constructor, with the field `successors` of the blocks.
pub record SyncContext : Type 0 where
  pub ssa : Ssa
  pub branch_of : ℕ → ℕ
  pub start_block : ℕ
  pub out_of_pipeline_edges : List (ℕ × ℕ)
  pub edge_var_live : EdgeLiveness

module _ (l : UniqListOps) (ctx : SyncContext) where
  abbrev pub successors_of : ℕ → List ℕ
  successors_of b = iter_blocks (ctx.ssa.user (ctx.branch_of b))

  abbrev pub predecessors_of : ℕ → List ℕ
  predecessors_of b = ctx.ssa.predecessors b

  abbrev pub split_seen : List ℕ → List ℕ × List ℕ → List ℕ × List ℕ
  split_seen [] (seen, multiple) = (seen, multiple)
  split_seen (v ∷ vs) (seen, multiple) =
      split_seen vs
        (if contains seen v then (seen, l.append multiple v) else (l.append seen v, multiple))

  abbrev pub live_from : ℕ → List ℕ → List ℕ × List ℕ → List ℕ
  live_from block [] (seen, multiple) = multiple
  live_from block (pred ∷ preds) r =
      live_from block preds (split_seen (live_on ctx.edge_var_live pred block) r)

  -- `collectLiveInVarsWithMultipleSrcBlocks`
  unfoldable pub collect_live_in_vars_with_multiple_src_blocks : ℕ → List ℕ
  collect_live_in_vars_with_multiple_src_blocks block =
      live_from block (predecessors_of block) ([], [])

  abbrev pub live_in : ℕ → List ℕ → List ℕ
  live_in block [] = []
  live_in block (pred ∷ preds) = live_on ctx.edge_var_live pred block ++ live_in block preds

  abbrev pub live_out : ℕ → List ℕ → List ℕ
  live_out block [] = []
  live_out block (s ∷ sucs) = live_on ctx.edge_var_live block s ++ live_out block sucs

  abbrev pub is_defined_in : ℕ → ℕ → Bool
  is_defined_in block v = elim (ctx.ssa.block v) [ none ↦ false | some b ↦ b == block ]

  abbrev pub cyclic_args : ℕ → List ℕ → List ℕ → List ℕ → List ℕ
  cyclic_args block outs [] args = args
  cyclic_args block outs (v ∷ ins) args =
      cyclic_args block outs ins
        (if contains outs v && is_defined_in block v then add v args else args)

  -- `collectPhiCyclicArgs`; that the edges are keys of `edge_var_live` is left to its construction
  unfoldable pub collect_phi_cyclic_args : ℕ → BlockMeta → BlockMeta
  collect_phi_cyclic_args block m = record m {
    phi_cyclic_args =
        cyclic_args block (live_out block (successors_of block))
          (live_in block (predecessors_of block)) m.phi_cyclic_args;
  }

  abbrev pub any_back_edge : ℕ → List ℕ → Bool
  any_back_edge block [] = false
  any_back_edge block (pred ∷ preds) =
      is_out_of_pipeline ctx.out_of_pipeline_edges pred block || any_back_edge block preds

  -- `collectCycles`
  unfoldable pub collect_cycles : ℕ → BlockMeta → BlockMeta
  unfolding collect_phi_cyclic_args
  collect_cycles block m =
      if any_back_edge block (predecessors_of block)
      then collect_phi_cyclic_args block (record m { is_cycle_entry_point = true })
      else if m.is_cycle_entry_point
      then collect_phi_cyclic_args block m
      else m

  -- `markInitializations`, on fuel: the chain of the blocks that follow is not bounded by the code
  unfoldable pub mark_initializations : ℕ → ℕ → Metas → Result Metas
  mark_initializations zero block metas = err recursion_error
  mark_initializations (suc turns) block metas = elim (leb (length (predecessors_of block)) 1) [
    | false ↦ ok metas
    | true ↦ do
      m ← meta_of metas block
      let metas' = set_meta block (record m { is_initialization = true }) metas
      elim (successors_of block) [
        | [] ↦ ok metas'
        | b ∷ bs ↦ elim bs [ [] ↦ mark_initializations turns b metas' | c ∷ cs ↦ ok metas' ]
      ]
  ]

  abbrev pub Spread : Type 0
  Spread = ℕ → Metas → Result Metas

  -- The loop over the predecessors; `visit` is the recursive call.
  unfoldable pub mark_predecessors : Spread → List ℕ → Metas → Result Metas
  mark_predecessors visit [] metas = ok metas
  mark_predecessors visit (pred ∷ preds) metas = do
    m ← meta_of metas pred
    metas' ←
        (if m.needs_control
          then ok metas
          else visit pred (
              set_meta pred
                (record m {
                  needs_control = true;
                  requires_starter = m.requires_starter || is_empty (predecessors_of pred);
                })
                metas))
    mark_predecessors visit preds metas'

  unfoldable pub mark_successors : Spread → List ℕ → Metas → Result Metas
  mark_successors visit [] metas = ok metas
  mark_successors visit (b ∷ bs) metas = do
    m ← meta_of metas b
    metas' ←
        (if m.needs_control
          then ok metas
          else visit b (set_meta b (record m { needs_control = true }) metas))
    mark_successors visit bs metas'

  -- `_onBlockNeedsControl`; the fuel is Python's recursion limit
  unfoldable pub on_block_needs_control : ℕ → Spread
  unfolding mark_predecessors mark_successors
  on_block_needs_control zero block metas = err recursion_error
  on_block_needs_control (suc limit) block metas = do
    metas' ← mark_predecessors (on_block_needs_control limit) (predecessors_of block) metas
    mark_successors (on_block_needs_control limit) (successors_of block) metas'
