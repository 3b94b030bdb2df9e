-- ===== src/Analysis/Pipeline.antt =====
-- The stages of `HlsNetlistAnalysisPassDiscoverPipelines` (hwtHls/netlist/analysis/pipeline.py).
pub mod Contents
use hwt_hls.Prelude.{
  ℕ, zero, suc, ◌+◌, ◌-◌, ◌<◌, ◌≡◌, refl, ap, sym, ◌∙◌, Bool, Option, none, some, List, [], ◌∷◌,
  ◌++◌, length, length-append, get_elem?, ltb, leb, ◌==◌, if◌then◌else◌, Bool-cases, inl, inr,
  append_assoc, append-nil, arith,
}
use hwt_hls.Prelude.Result.{Result, ok, err, or_raise, index_error, index, ◌>>=◌}
use hwt_hls.Clock.{start_clk}
use hwt_hls.Scheduler.State.{Scheduled}
use hwt_hls.Scheduler.Clocks.{iter_scheduled_clocks}

abbrev pub Stages : Type 0
Stages = List (List ℕ)

abbrev pub empty_stages : ℕ → Stages
empty_stages zero = []
empty_stages (suc n) = [] ∷ empty_stages n

-- `_extendIfRequired`
unfoldable pub extend_if_required : Stages → ℕ → Stages
extend_if_required stages last_index =
    if leb (length stages) last_index
    then stages ++ empty_stages (last_index - length stages + 1)
    else stages

-- `pipeline[i].append(node)`
unfoldable pub append_at : ℕ → ℕ → Stages → Option Stages
append_at i node [] = none
append_at zero node (stage ∷ stages) = some ((stage ++ node ∷ []) ∷ stages)
append_at (suc i) node (stage ∷ stages) = elim (append_at i node stages) [
  | none ↦ none
  | some rest ↦ some (stage ∷ rest)
]

-- `node.scheduledIn[0] if node.scheduledIn else node.scheduledOut[0]`
unfoldable pub first_time : Scheduled → Result ℕ
first_time v = elim v.scheduled_in [ [] ↦ index v.scheduled_out 0 | t ∷ ts ↦ ok t ]

-- The loop of `_addNodeToPipeline` over the clock periods of the node.
unfoldable pub add_for_clks : ℕ → ℕ → Scheduled → List ℕ → Stages → Result Stages
unfolding first_time extend_if_required append_at start_clk
add_for_clks clk_period node v [] stages = ok stages
add_for_clks clk_period node v (clk ∷ clks) stages = do
  t ← first_time v
  added ←
      or_raise index_error (
        append_at (start_clk t clk_period) node
          (extend_if_required stages (start_clk t clk_period)))
  add_for_clks clk_period node v clks added

unfoldable pub add_node_to_pipeline : ℕ → ℕ → Scheduled → Stages → Result Stages
unfolding add_for_clks iter_scheduled_clocks
add_node_to_pipeline clk_period node v stages =
    add_for_clks clk_period node v (iter_scheduled_clocks clk_period v) stages
