-- ===== src/Examples/Predecessors.antt =====
-- Block 0 branches to 1 and 2, which both lead to 3.
use hwt_hls.Prelude.{ℕ, zero, suc, ◌≡◌, refl, List, [], ◌∷◌}
use hwt_hls.Prelude.Result.{ok}
use hwt_hls.Frontend.Predecessors.{DiGraph, Tracker, add_not_generated}
use hwt_hls.Frontend.Predecessors.Marked.{
  IsReported, add_not_generated-IsReported, add_not_generated_waits,
}

abbrev preds : ℕ → List ℕ
preds (suc zero) = 0 ∷ []
preds (suc (suc zero)) = 0 ∷ []
preds (suc (suc (suc zero))) = 1 ∷ 2 ∷ []
preds _ = []

abbrev succs : ℕ → List ℕ
succs zero = 1 ∷ 2 ∷ []
succs (suc zero) = 3 ∷ []
succs (suc (suc zero)) = 3 ∷ []
succs _ = []

abbrev diamond : DiGraph
diamond = record { nodes = 0 ∷ 1 ∷ 2 ∷ 3 ∷ []; predecessors = preds; successors = succs }

abbrev entered : Tracker
entered = record { generated = 0 ∷ []; not_generated = []; not_generated_edges = [] }

abbrev one_skipped : Tracker
one_skipped = record {
  generated = 0 ∷ [];
  not_generated = 1 ∷ [];
  not_generated_edges = (0, 1) ∷ [];
}

-- Both successors of 0 are skipped, and so is every way to 3, but 3 is not marked: that would take a
-- report of the edge from 1 to 3 and of the one from 2 to 3.
abbrev both_skipped : Tracker
both_skipped = record {
  generated = 0 ∷ [];
  not_generated = 2 ∷ 1 ∷ [];
  not_generated_edges = (2, 3) ∷ (0, 2) ∷ (0, 1) ∷ [];
}

skip_one : add_not_generated diamond 5 0 1 entered ≡ ok ([], one_skipped)
unfolding add_not_generated
skip_one = refl

skip_both : add_not_generated diamond 5 0 2 one_skipped ≡ ok ([], both_skipped)
unfolding add_not_generated
skip_both = refl

entered-IsReported : IsReported diamond entered
entered-IsReported m p h k = cc

add_not_generated-IsReported_example : IsReported diamond one_skipped
add_not_generated-IsReported_example =
    add_not_generated-IsReported diamond 5 0 1 entered one_skipped [] entered-IsReported skip_one

add_not_generated_waits_example :
    add_not_generated diamond 5 2 3 (record {
      generated = 0 ∷ [];
      not_generated = 2 ∷ 1 ∷ [];
      not_generated_edges = (0, 2) ∷ (0, 1) ∷ [];
    })
    ≡ ok ([], both_skipped)
add_not_generated_waits_example =
    add_not_generated_waits diamond 4 2 3 1
      (record {
        generated = 0 ∷ [];
        not_generated = 2 ∷ 1 ∷ [];
        not_generated_edges = (0, 2) ∷ (0, 1) ∷ [];
      })
      refl refl refl refl refl
