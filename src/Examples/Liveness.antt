-- ===== src/Examples/Liveness.antt =====
-- Block 0 defines the value 5 and leads to 1, which leads to 2, where the value is used.
use hwt_hls.Prelude.{
  ℕ, zero, suc, ◌+◌, ◌≡◌, ◌==◌, if◌then◌else◌, ◌++◌, refl, true, none, some, List, [], ◌∷◌, Memᴰ,
  arith,
}
use mathlib.Core.List.Memᴰ
use hwt_hls.Prelude.Result.{ok}
use hwt_hls.Ssa.{value, SsaUser, instr, branch, Ssa}
use hwt_hls.Ssa.Liveness.{
  Requires, FlowGraph, has_edge, add_all_requires, ssa_liveness_edge_variables,
}
use hwt_hls.Ssa.Liveness.Spread.{Live, Good, Needed, HasEdges}
use hwt_hls.Ssa.Liveness.Edges.{add_all_requires-Needed}
use hwt_hls.Examples.UniqLists.{uniq_lists}

abbrev line_preds : ℕ → List ℕ
line_preds (suc zero) = 0 ∷ []
line_preds (suc (suc zero)) = 1 ∷ []
line_preds _ = []

abbrev line_succs : ℕ → List ℕ
line_succs zero = 1 ∷ []
line_succs (suc zero) = 2 ∷ []
line_succs _ = []

abbrev line_requires : ℕ → Requires
line_requires (suc (suc zero)) = (5, none) ∷ []
line_requires _ = []

abbrev line_provides : ℕ → List ℕ
line_provides zero = 5 ∷ []
line_provides _ = []

abbrev line : FlowGraph
line = record {
  blocks = 2 ∷ 1 ∷ 0 ∷ [];
  successors = line_succs;
  predecessors = line_preds;
  provides = line_provides;
  requires = line_requires;
}

line_live : add_all_requires line 9 (0 ∷ 1 ∷ 2 ∷ []) [] ≡ ok ((0, 1, 5) ∷ (1, 2, 5) ∷ [])
unfolding add_all_requires
line_live = refl

-- The same from the blocks: the branches are the objects 10, 11 and 12, and 6 uses the value 5.
abbrev line_user : ℕ → SsaUser
line_user n =
    if n == 6
    then instr (value 5 ∷ [])
    else if n == 10
    then branch 0 ((none, 1) ∷ [])
    else if n == 11
    then branch 1 ((none, 2) ∷ [])
    else instr []

abbrev line_body : ℕ → List ℕ
line_body zero = 5 ∷ []
line_body (suc (suc zero)) = 6 ∷ []
line_body _ = []

abbrev line_code : Ssa
line_code = record {
  user = line_user;
  users = λ v. [];
  block = λ v. none;
  replaced_by = λ v. none;
  predecessors = line_preds;
  phis = λ b. [];
  body = line_body;
}

live_in_code :
    ssa_liveness_edge_variables uniq_lists (λ rs r. rs ++ r ∷ []) (λ b. b + 10) line_code 9 0
    ≡ ok ((0, 1, 5) ∷ (1, 2, 5) ∷ [])
unfolding ssa_liveness_edge_variables
live_in_code = refl

into_line : (d p : ℕ) → Memᴰ p (line_preds d) → has_edge line p d ≡ true
into_line zero p m = absurd (Memᴰ.not-nil m)
into_line (suc zero) p (Memᴰ.head e) = rw e refl
into_line (suc zero) p (Memᴰ.tail m) = absurd (Memᴰ.not-nil m)
into_line (suc (suc zero)) p (Memᴰ.head e) = rw e refl
into_line (suc (suc zero)) p (Memᴰ.tail m) = absurd (Memᴰ.not-nil m)
into_line (suc (suc (suc d))) p m = absurd (Memᴰ.not-nil m)

not_from_one : (d p v : ℕ) → Memᴰ (v, some p) (line_requires d) → has_edge line p d ≡ true
not_from_one zero p v m = absurd (Memᴰ.not-nil m)
not_from_one (suc zero) p v m = absurd (Memᴰ.not-nil m)
not_from_one (suc (suc zero)) p v (Memᴰ.head e) = cc
not_from_one (suc (suc zero)) p v (Memᴰ.tail m) = absurd (Memᴰ.not-nil m)
not_from_one (suc (suc (suc d))) p v m = absurd (Memᴰ.not-nil m)

line-HasEdges : HasEdges line
line-HasEdges = (λ d p b m. into_line d p m, λ d p v b m. not_from_one d p v m)

add_all_requires-Needed_example :
    Good
      (λ live.
        (s d v : ℕ) → (Live live s d v → Needed line v s d) × (Needed line v s d → Live live s d v))
      (add_all_requires line 9 (0 ∷ 1 ∷ 2 ∷ []) [])
add_all_requires-Needed_example =
    add_all_requires-Needed line line-HasEdges 9 (0 ∷ 1 ∷ 2 ∷ []) (refl, (refl, (refl, tt)))
      (λ b h. ground arith)
