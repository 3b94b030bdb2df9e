-- ===== src/Ssa/Liveness.antt =====
-- hwtHls/ssa/analysis/liveness.py: the values that are live on the edges between blocks. An instruction
-- and a phi are named as the value that they define; `live` is the list of the values in the sets
-- `live[src][dst]`. The lists without duplicates that are filled here only are kept by a parameter.
pub mod Spread
pub mod Edges
use hwt_hls.Prelude.{
  ℕ, zero, suc, Bool, true, false, ◌&&◌, ◌||◌, Option, none, some, List, [], ◌∷◌, ◌++◌, reverse,
  contains, ◌==◌, if◌then◌else◌,
}
use hwt_hls.Prelude.Result.{Result, ok, err, require, ◌>>=◌, ◌>>◌, recursion_error, key_error}
use hwt_hls.Hwt.{UniqListOps}
use hwt_hls.Blocks.{collect_all_blocks}
use hwt_hls.Ssa.{Operand, const, value, SsaUser, instr, branch, phi, Ssa}
use hwt_hls.Ssa.Blocks.{iter_blocks, operands_of}

abbrev pub EdgeLiveness : Type 0
EdgeLiveness = List (ℕ × ℕ × ℕ)

-- `v in live[src][dst]`
abbrev pub is_live : EdgeLiveness → ℕ → ℕ → ℕ → Bool
is_live [] src dst v = false
is_live ((a, b, w) ∷ live) src dst v =
    ((a == src) && ((b == dst) && (w == v))) || is_live live src dst v

-- A value that a block requires, and the predecessor from which, or `none` for all of them.
abbrev pub Requires : Type 0
Requires = List (ℕ × Option ℕ)

abbrev pub inputs_of : SsaUser → List Operand
inputs_of (instr operands) = operands
inputs_of _ = []

module _ (l : UniqListOps) (append_required : Requires → ℕ × Option ℕ → Requires) where
  unfoldable pub require_phi : List (Operand × ℕ) → Requires → Requires
  require_phi [] requires = requires
  require_phi ((const c, b) ∷ os) requires = require_phi os requires
  require_phi ((value v, b) ∷ os) requires = require_phi os (append_required requires (v, some b))

  unfoldable pub collect_phis : Ssa → List ℕ → List ℕ × Requires → List ℕ × Requires
  unfolding require_phi
  collect_phis s [] (provides, requires) = (provides, requires)
  collect_phis s (p ∷ ps) (provides, requires) =
      collect_phis s ps (l.append provides p, require_phi (operands_of (s.user p)) requires)

  unfoldable pub require_inputs : List ℕ → List Operand → Requires → Requires
  require_inputs provides [] requires = requires
  require_inputs provides (const c ∷ os) requires = require_inputs provides os requires
  require_inputs provides (value v ∷ os) requires =
      require_inputs provides os
        (if contains provides v then requires else append_required requires (v, none))

  unfoldable pub collect_body : Ssa → List ℕ → List ℕ × Requires → List ℕ × Requires
  unfolding require_inputs
  collect_body s [] (provides, requires) = (provides, requires)
  collect_body s (i ∷ is) (provides, requires) =
      let provided = l.append provides i in
      collect_body s is (provided, require_inputs provided (inputs_of (s.user i)) requires)

  unfoldable pub collect_direct_provieds_and_requires : Ssa → ℕ → List ℕ × Requires
  unfolding collect_phis collect_body
  collect_direct_provieds_and_requires s block =
      collect_body s (s.body block) (collect_phis s (s.phis block) ([], []))

-- The blocks that were collected, their successors and predecessors, and what they provide.
pub record FlowGraph : Type 0 where
  pub blocks : List ℕ
  pub successors : ℕ → List ℕ
  pub predecessors : ℕ → List ℕ
  pub provides : ℕ → List ℕ
  pub requires : ℕ → Requires

module _ (g : FlowGraph) where
  -- `live[src][dst]` is there
  abbrev pub has_edge : ℕ → ℕ → Bool
  has_edge src dst = contains g.blocks src && contains (g.successors src) dst

  -- the loop over `src.predecessors`; `visit` is the recursive call
  unfoldable pub add_from_predecessors :
      (ℕ → ℕ → EdgeLiveness → Result EdgeLiveness) → ℕ → List ℕ → EdgeLiveness → Result EdgeLiveness
  add_from_predecessors visit block [] live = ok live
  add_from_predecessors visit block (pred ∷ preds) live = do
    live' ← visit pred block live
    add_from_predecessors visit block preds live'

  -- the fuel is Python's recursion limit
  unfoldable pub recursively_add_edge_requirement_var :
      ℕ → ℕ → ℕ → ℕ → EdgeLiveness → Result EdgeLiveness
  unfolding add_from_predecessors
  recursively_add_edge_requirement_var v zero src dst live = err recursion_error
  recursively_add_edge_requirement_var v (suc limit) src dst live = do
    require (has_edge src dst) key_error
    (if is_live live src dst v
        then ok live
        else if contains (g.provides src) v
        then ok ((src, dst, v) ∷ live)
        else add_from_predecessors (recursively_add_edge_requirement_var v limit) src
            (g.predecessors src) ((src, dst, v) ∷ live))

  unfoldable pub add_requires : ℕ → ℕ → Requires → EdgeLiveness → Result EdgeLiveness
  unfolding add_from_predecessors recursively_add_edge_requirement_var
  add_requires limit block [] live = ok live
  add_requires limit block ((v, none) ∷ rest) live = do
    live' ←
        add_from_predecessors (recursively_add_edge_requirement_var v limit) block
          (g.predecessors block) live
    add_requires limit block rest live'
  add_requires limit block ((v, some b) ∷ rest) live = do
    live' ← recursively_add_edge_requirement_var v limit b block live
    add_requires limit block rest live'

  -- the transitive enclosure
  unfoldable pub add_all_requires : ℕ → List ℕ → EdgeLiveness → Result EdgeLiveness
  unfolding add_requires
  add_all_requires limit [] live = ok live
  add_all_requires limit (block ∷ blocks) live = do
    live' ← add_requires limit block (g.requires block) live
    add_all_requires limit blocks live'

-- `branch_of` is the field `successors` of a block.
unfoldable pub ssa_liveness_edge_variables :
    UniqListOps
    → (Requires → ℕ × Option ℕ → Requires)
    → (branch_of : ℕ → ℕ) → Ssa
    → ℕ
    → ℕ
    → Result EdgeLiveness
unfolding collect_direct_provieds_and_requires add_all_requires collect_all_blocks iter_blocks
ssa_liveness_edge_variables l append_required branch_of s limit start =
    let successors : ℕ → List ℕ = λ b. iter_blocks (s.user (branch_of b)) in
    do
      seen ← collect_all_blocks successors limit start
      add_all_requires
          (record {
            blocks = seen;
            successors = successors;
            predecessors = s.predecessors;
            provides = λ b. (collect_direct_provieds_and_requires l append_required s b).0;
            requires = λ b. (collect_direct_provieds_and_requires l append_required s b).1;
          })
          limit (reverse seen) []
