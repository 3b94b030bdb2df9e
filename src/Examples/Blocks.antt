-- ===== src/Examples/Blocks.antt =====
-- The blocks of a loop.
use hwt_hls.Prelude.{ℕ, zero, suc, ◌<◌, ◌≡◌, ◌↔◌, refl, List, [], ◌∷◌, All, Memᴰ, arith}
use hwt_hls.Prelude.Result.{ok}
use hwt_hls.Graph.Walks.{In, Reach}
use hwt_hls.Graph.Distinct.{Distinct}
use hwt_hls.Blocks.{collect_all_blocks}
use hwt_hls.Blocks.Collect.{collect_all_blocks-Reach}

-- Block 0 leads to the loop of 1 and 2, and 1 leads out of it, to 3.
abbrev loop : ℕ → List ℕ
loop zero = 1 ∷ []
loop (suc zero) = 2 ∷ 3 ∷ []
loop (suc (suc zero)) = 1 ∷ []
loop _ = []

loop_bounded : (b : ℕ) → b < 4 → All (λ c. c < 4) (loop b)
loop_bounded zero h = ground arith
loop_bounded (suc zero) h = ground arith
loop_bounded (suc (suc zero)) h = ground arith
loop_bounded (suc (suc (suc b))) h = tt

loop_blocks : collect_all_blocks loop 4 0 ≡ ok (3 ∷ 2 ∷ 1 ∷ 0 ∷ [])
unfolding collect_all_blocks
loop_blocks = refl

collect_all_blocks-Reach_example :
    (blocks : List ℕ) × (collect_all_blocks loop 4 0 ≡ ok blocks)
    × Distinct blocks
    × ((b : ℕ) → In b blocks ↔ ∥ ((r : ℕ) × Memᴰ r (0 ∷ []) × Reach loop r b) ∥₁)
collect_all_blocks-Reach_example =
    collect_all_blocks-Reach loop 4 4 0 loop_bounded (omega arith) (omega arith)
