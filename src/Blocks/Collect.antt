-- ===== src/Blocks/Collect.antt =====
-- Which blocks are collected.
use hwt_hls.Prelude.{ℕ, ◌≤◌, ◌<◌, ◌≡◌, refl, ◌↔◌, List, [], ◌∷◌, All, Memᴰ, arith}
use hwt_hls.Prelude.Result.{ok}
use hwt_hls.Graph.Walks.{In, Reach, walk-Walked, Walked-Reach}
use hwt_hls.Graph.Ends.{walk-Returns, unmarked-le}
use hwt_hls.Graph.Distinct.{Distinct, walk-Distinct}
use hwt_hls.Blocks.{collect_all_blocks}

-- Where all blocks that are numbered below a bound have successors below it, and the start is
-- below it: with a recursion limit of at least the bound, `collect_all_blocks` returns, and
-- yields exactly the blocks that the start leads to, each of them once.
pub collect_all_blocks-Reach :
    (successors : ℕ → List ℕ) (bound limit start : ℕ)
    → ((b : ℕ) → b < bound → All (λ c. c < bound) (successors b))
    → start < bound
    → bound ≤ limit
    → (blocks : List ℕ) × (collect_all_blocks successors limit start ≡ ok blocks)
      × Distinct blocks
      × ((b : ℕ) → In b blocks ↔ ∥ ((r : ℕ) × Memᴰ r (start ∷ []) × Reach successors r b) ∥₁)
unfolding collect_all_blocks
collect_all_blocks-Reach successors bound limit start bounded h le =
    let few = unmarked-le bound in
    let (blocks, e) = walk-Returns successors bound bounded limit start [] h refl (omega arith) in
    (
      blocks,
      e,
      walk-Distinct successors limit start [] blocks e tt,
      λ b.
          Walked-Reach successors (start ∷ []) blocks b
            (walk-Walked successors limit start [] blocks e),
    )
