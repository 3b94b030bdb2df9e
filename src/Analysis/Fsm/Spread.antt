-- ===== src/Analysis/Fsm/Spread.antt =====
-- Flooding the net within a clock period is a walk over the neighbours that lie in it.
use hwt_hls.Prelude.{
  ℕ, ◌≡◌, Bool, true, false, ◌&&◌, Option, none, some, List, [], ◌∷◌, ◌++◌, map, contains, ◌==◌,
  if◌then◌else◌, All,
}
use hwt_hls.Prelude.Result.{Result, ok, err}
use hwt_hls.Clock.{start_clk}
use hwt_hls.Netlist.{HlsPipeline}
use hwt_hls.Graph.Distinct.{Distinct}
use hwt_hls.Scheduler.State.{Scheduled}
use hwt_hls.Analysis.Fsm.{node_of, Flood, neighbours}

-- What a flood marks is what it marked before and what it yields.
abbrev pub IsFlood : List ℕ → Flood → Type 0
IsFlood base st =
    (st.already_used ≡ map node_of st.found ++ base)
    × ((m : ℕ) → contains st.seen m ≡ true → contains st.already_used m ≡ true)

module _ (hls : HlsPipeline) (sched : ℕ → Scheduled) (clk_i : ℕ) (predicate : ℕ → Bool) where
  abbrev is_tied : ℕ → Option ℕ → Bool
  is_tied n none = false
  is_tied n (some t) = (start_clk t hls.normalized_clk_period == clk_i) && predicate n

  abbrev tied_of : List (ℕ × Option ℕ) → List ℕ
  tied_of [] = []
  tied_of ((n, time) ∷ ns) = let rest = tied_of ns in if is_tied n time then n ∷ rest else rest

  -- The neighbours of a node in the clock period that satisfy the predicate.
  abbrev pub tied : ℕ → List ℕ
  tied n = tied_of (neighbours hls sched clk_i n)

  abbrev pub IsTimed : List (ℕ × Option ℕ) → Type 0
  IsTimed ns = All (λ (m : ℕ × Option ℕ). (t : ℕ) × (m.1 ≡ some t)) ns

  -- The flood and the walk return together, or raise the same.
  abbrev Agrees : List ℕ → Result Flood → Result (List ℕ) → Type 0
  Agrees base (ok st) (ok used) = (st.already_used ≡ used) × IsFlood base st
  Agrees base (err e) (err f) = e ≡ f
  Agrees base _ _ = ⊥
