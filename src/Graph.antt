-- ===== src/Graph.antt =====
-- The depth-first walk that several passes share: `_walkDependencies` of
-- hwtHls/netlist/transformation/dce.py and `collect_all_blocks` of
-- hwtHls/ssa/transformation/utils/blockAnalysis.py. Both mark a node when they enter it and enter
-- what is not marked yet. A set is the list of its members, the last one first.
pub mod Walks
pub mod Ends
pub mod Distinct
use hwt_hls.Prelude.{ℕ, zero, suc, List, [], ◌∷◌, contains, if◌then◌else◌}
use hwt_hls.Prelude.Result.{Result, ok, err, recursion_error, ◌>>=◌}

-- `seen.add(n)`
abbrev pub add : ℕ → List ℕ → List ℕ
add n seen = if contains seen n then seen else n ∷ seen

module _ (next : ℕ → List ℕ) where
  -- The loop over the neighbours; `visit` is the recursive call.
  unfoldable pub walk_each : (ℕ → List ℕ → Result (List ℕ)) → List ℕ → List ℕ → Result (List ℕ)
  walk_each visit [] seen = ok seen
  walk_each visit (n ∷ ns) seen = do
    seen' ← (if contains seen n then ok seen else visit n seen)
    walk_each visit ns seen'

  -- `limit` is Python's recursion limit.
  unfoldable pub walk : ℕ → ℕ → List ℕ → Result (List ℕ)
  unfolding walk_each
  walk zero n seen = err recursion_error
  walk (suc limit) n seen = walk_each (walk limit) (next n) (add n seen)

  -- A walk from each root in turn, without a test whether it is marked.
  unfoldable pub walk_roots : ℕ → List ℕ → List ℕ → Result (List ℕ)
  unfolding walk
  walk_roots limit [] seen = ok seen
  walk_roots limit (n ∷ ns) seen = do seen' ← walk limit n seen; walk_roots limit ns seen'
