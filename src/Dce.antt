-- ===== src/Dce.antt =====
-- `HlsNetlistPassDCE` (hwtHls/netlist/transformation/dce.py), for netlists without aggregated bitwise
-- operators: of those the pass also cuts the insides (`_reduceCompositeNodeIo`), and repeats.
pub mod Live
use hwt_hls.Prelude.{
  ℕ, ◌+◌, Bool, true, false, List, [], ◌∷◌, ◌++◌, map, length, contains, ◌==◌, if◌then◌else◌,
}
use hwt_hls.Prelude.Result.{Result, ok, ◌>>=◌}
use hwt_hls.Netlist.{
  HlsNetNodeIn, HlsNetNodeOut, NodeKind, read, write, loop_gate, explicit_sync, HlsNetNode,
  HlsPipeline,
}
use hwt_hls.Graph.{walk_roots}

-- `isinstance(n, (HlsNetNodeRead, HlsNetNodeWrite, HlsLoopGate, HlsNetNodeExplicitSync))`
abbrev pub is_io : NodeKind → Bool
is_io read = true
is_io write = true
is_io loop_gate = true
is_io explicit_sync = true
is_io _ = false

-- `[x for x in xs if p(x)]`
abbrev pub select {ℓ} : {A : Type ℓ} → (A → Bool) → List A → List A
select p [] = []
select p (x ∷ xs) = let rest = select p xs in if p x then x ∷ rest else rest

module _ (hls : HlsPipeline) where
  abbrev pub drivers : ℕ → List ℕ
  drivers n = map (λ d. d.obj) (hls.node n).depends_on

  -- what the loop of `apply` walks from
  abbrev pub roots : List ℕ
  roots = hls.inputs ++ hls.outputs ++ select (λ n. is_io (hls.node n).kind) hls.nodes

  unfoldable pub used_nodes : ℕ → Result (List ℕ)
  unfolding walk_roots
  used_nodes limit = walk_roots drivers limit roots []

  -- a node that is kept: its uses and drivers that are not used are dropped
  abbrev pub strip : List ℕ → HlsNetNode → HlsNetNode
  strip used n = record n {
    used_by = map (select (λ u. contains used u.obj)) n.used_by;
    depends_on = select (λ d. contains used d.obj) n.depends_on;
  }

  unfoldable pub remove_unused : List ℕ → HlsPipeline
  remove_unused used =
      let kept = select (contains used) hls.nodes in
      if length used == length hls.nodes + length hls.inputs + length hls.outputs
      then hls
      else record hls {
        nodes = kept;
        node = λ n. if contains kept n then strip used (hls.node n) else hls.node n;
      }

  unfoldable pub apply : ℕ → Result HlsPipeline
  unfolding used_nodes remove_unused
  apply limit = do used ← used_nodes limit; ok (remove_unused used)
