-- ===== src/Examples/Bytecode.antt =====
-- A loop: the branch at 2 leaves it for 8, and the jump at 6 leads back to 2.
use hwt_hls.Prelude.{
  ℕ, zero, suc, ◌≡◌, refl, Bool, true, false, List, [], ◌∷◌, map, All, ◌==◌, if◌then◌else◌,
}
use hwt_hls.Prelude.Result.{Result, ok, err, assertion_error}
use hwt_hls.Frontend.Predecessors.{DiGraph}
use hwt_hls.Frontend.Loops.{detect_loops}
use hwt_hls.Frontend.Bytecode.{
  OpKind, jump, branch, plain, Instruction, Block, extract_bytecode_blocks,
}
use hwt_hls.Frontend.Bytecode.Cut.{IsBasicBlock, extract_bytecode_blocks-IsBasicBlock}

abbrev at : ℕ → OpKind → ℕ → Bool → Instruction
at offset kind argval target = record {
  kind = kind;
  offset = offset;
  argval = argval;
  is_jump_target = target;
}

abbrev loop_rest : List Instruction
loop_rest = at 2 branch 8 true ∷ at 4 plain 0 false ∷ at 6 jump 2 false ∷ at 8 plain 0 true ∷ []

abbrev edges_of : Result (List Block × List (ℕ × ℕ)) → List (ℕ × ℕ)
edges_of (ok r) = r.1
edges_of (err e) = []

abbrev firsts_of : Result (List Block × List (ℕ × ℕ)) → List ℕ
firsts_of (ok r) = map (λ b. b.first) r.0
firsts_of (err e) = []

loop_edges :
    edges_of (extract_bytecode_blocks (at 0 plain 0 false ∷ loop_rest))
    ≡ (0, 2) ∷ (2, 8) ∷ (2, 4) ∷ (4, 2) ∷ []
unfolding extract_bytecode_blocks
loop_edges = refl

loop_firsts :
    firsts_of (extract_bytecode_blocks (at 0 plain 0 false ∷ loop_rest)) ≡ 0 ∷ 2 ∷ 4 ∷ 8 ∷ []
unfolding extract_bytecode_blocks
loop_firsts = refl

extract_bytecode_blocks-IsBasicBlock_example :
    (blocks : List Block) × (edges : List (ℕ × ℕ)) × (extract_bytecode_blocks
        (at 0 plain 0 false ∷ loop_rest)
      ≡ ok (blocks, edges))
    × All IsBasicBlock blocks
extract_bytecode_blocks-IsBasicBlock_example =
    extract_bytecode_blocks-IsBasicBlock (at 0 plain 0 false) loop_rest refl
      (refl, (refl, (refl, (refl, tt))))

-- Two loops, the block 2 inside of the blocks 1 to 3; networkx finds the components of this graph.
abbrev nested_predecessors : ℕ → List ℕ
nested_predecessors (suc zero) = 0 ∷ 3 ∷ []
nested_predecessors (suc (suc zero)) = 1 ∷ 2 ∷ []
nested_predecessors (suc (suc (suc zero))) = 2 ∷ []
nested_predecessors _ = []

abbrev nested_successors : ℕ → List ℕ
nested_successors zero = 1 ∷ []
nested_successors (suc zero) = 2 ∷ []
nested_successors (suc (suc zero)) = 2 ∷ 3 ∷ []
nested_successors (suc (suc (suc zero))) = 1 ∷ []
nested_successors _ = []

abbrev nested : DiGraph
nested = record {
  nodes = 0 ∷ 1 ∷ 2 ∷ 3 ∷ [];
  predecessors = nested_predecessors;
  successors = nested_successors;
}

-- Of the whole graph, of the body of the outer loop, and of that of the inner one.
abbrev components_of : List ℕ → List (List ℕ)
components_of (zero ∷ bs) = (3 ∷ 2 ∷ 1 ∷ []) ∷ (0 ∷ []) ∷ []
components_of (suc b ∷ []) = (suc b ∷ []) ∷ []
components_of _ = (3 ∷ []) ∷ (2 ∷ []) ∷ (1 ∷ []) ∷ []

abbrev components : DiGraph → List (List ℕ)
components cfg = components_of cfg.nodes

nested_loops :
    detect_loops components 9 nested
    ≡ ok (
        record { entry_point = 1; all_blocks = 3 ∷ 2 ∷ 1 ∷ []; backedges = 3 ∷ [] }
        ∷ record { entry_point = 2; all_blocks = 2 ∷ []; backedges = 2 ∷ [] }
        ∷ [])
unfolding detect_loops
nested_loops = refl

-- A loop of the block 1 whose entry has two predecessors outside is refused.
two_outside :
    detect_loops
      (λ cfg. (0 ∷ []) ∷ (2 ∷ []) ∷ (1 ∷ []) ∷ [])
      9
      (record {
        nodes = 0 ∷ 2 ∷ 1 ∷ [];
        predecessors = λ b. if b == 1 then 0 ∷ 2 ∷ 1 ∷ [] else [];
        successors = λ b. 1 ∷ [];
      })
    ≡ err assertion_error
unfolding detect_loops
two_outside = refl
