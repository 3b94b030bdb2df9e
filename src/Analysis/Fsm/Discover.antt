-- ===== src/Analysis/Fsm/Discover.antt =====
-- `run` of hwtHls/netlist/analysis/fsm.py: the states of the machine of one interface. The loop runs
-- over the accesses in the order of their times; of a HlsNetNodePartRef the asserts about its inside
-- are left out.
pub mod States
use hwt_hls.Prelude.{
  ℕ, zero, suc, ◌+◌, Bool, true, false, ◌&&◌, Option, none, some, List, [], ◌∷◌, ◌++◌, map, length,
  reverse, ltb, leb, ◌==◌, if◌then◌else◌,
}
use hwt_hls.Prelude.Result.{Result, ok, err, index, require, ◌>>=◌, ◌>>◌, assertion_error}
use hwt_hls.Clock.{start_clk}
use hwt_hls.Netlist.{HlsPipeline, NodeKind, read, write}
use hwt_hls.Scheduler.State.{Scheduled}
use hwt_hls.Analysis.Io.{IoDict, accesses_of}
use hwt_hls.Analysis.Fsm.{
  FsmNode, whole, part, IoFsm, new_fsm, add_state, extend_last, transitions, Flood, flood,
}

-- `floodPredicateExcludeOtherIoWithOwnFsm`
unfoldable pub is_alone : (ℕ → ℕ) → IoDict → ℕ → Bool
is_alone interface io n = elim (accesses_of (interface n) io) [
  | none ↦ true
  | some ops ↦ leb (length ops) 1
]

unfoldable pub may_follow : (src dst : ℕ → ℕ) → IoDict → NodeKind → ℕ → Bool
unfolding is_alone
may_follow src dst io read n = is_alone src io n
may_follow src dst io write n = is_alone dst io n
may_follow src dst io other n = true

abbrev pub flood_predicate : (src dst : ℕ → ℕ) → IoDict → HlsPipeline → ℕ → Bool
flood_predicate src dst io hls n = may_follow src dst io (hls.node n).kind n

-- The time of an access: of its first input, or of its first output where it has no input.
unfoldable pub access_time : Scheduled → Result ℕ
access_time v = elim v.scheduled_in [ [] ↦ index v.scheduled_out 0 | t ∷ ts ↦ ok t ]

-- `sorted(accesses, key=...)`, which keeps the order of accesses at the same time
unfoldable pub insert_access : ℕ → ℕ → List (ℕ × ℕ) → List (ℕ × ℕ)
insert_access t a [] = (t, a) ∷ []
insert_access t a ((u, b) ∷ rest) =
    if ltb t u then (t, a) ∷ (u, b) ∷ rest else (u, b) ∷ insert_access t a rest

unfoldable pub sort_accesses : (ℕ → Scheduled) → List ℕ → List (ℕ × ℕ) → Result (List (ℕ × ℕ))
unfolding access_time insert_access
sort_accesses sched [] sorted = ok sorted
sort_accesses sched (a ∷ accesses) sorted = do
  t ← access_time (sched a)
  sort_accesses sched accesses (insert_access t a sorted)

abbrev pub SeenClks : Type 0
SeenClks = List (ℕ × List ℕ)

unfoldable pub seen_in : ℕ → SeenClks → Option (List ℕ)
seen_in clk_i [] = none
seen_in clk_i ((k, seen) ∷ rest) = if k == clk_i then some seen else seen_in clk_i rest

-- `seenClks[clkI] = seen`
unfoldable pub set_seen : ℕ → List ℕ → SeenClks → SeenClks
set_seen clk_i seen [] = (clk_i, seen) ∷ []
set_seen clk_i seen ((k, before) ∷ rest) =
    if k == clk_i then (k, seen) ∷ rest else (k, before) ∷ set_seen clk_i seen rest

pub record Building : Type 0 where
  pub fsm : IoFsm
  pub seen_clks : SeenClks
  pub already_used : List ℕ

-- the set of nodes seen in a clock period, with a new state where there is none yet
abbrev pub enter_clk : Option (List ℕ) → ℕ → IoFsm → List ℕ × IoFsm
enter_clk none clk_i fsm = ([], add_state clk_i fsm)
enter_clk (some seen) clk_i fsm = (seen, fsm)

-- what a flood has marked and found
abbrev pub add_found : ℕ → IoFsm → Flood → Building → Building
add_found clk_i fsm st b = record {
  fsm = record fsm { states = extend_last (reverse st.found) fsm.states };
  seen_clks = set_seen clk_i st.seen b.seen_clks;
  already_used = st.already_used;
}

unfoldable pub all_in_clk : (clk_period clk_i : ℕ) → List ℕ → Bool
unfolding start_clk
all_in_clk clk_period clk_i [] = true
all_in_clk clk_period clk_i (t ∷ ts) =
    (start_clk t clk_period == clk_i) && all_in_clk clk_period clk_i ts

module _ (hls : HlsPipeline) (sched : ℕ → Scheduled) (predicate : ℕ → Bool) (limit : ℕ) where
  unfoldable pub check_nodes_in_clk : ℕ → List FsmNode → Result (Unit {0})
  unfolding all_in_clk
  check_nodes_in_clk clk_i [] = ok tt
  check_nodes_in_clk clk_i (part n c inputs outputs ∷ rest) = check_nodes_in_clk clk_i rest
  check_nodes_in_clk clk_i (whole n ∷ rest) = do
    require (all_in_clk hls.normalized_clk_period clk_i (sched n).scheduled_in) assertion_error
    require (all_in_clk hls.normalized_clk_period clk_i (sched n).scheduled_out) assertion_error
    check_nodes_in_clk clk_i rest

  -- a turn of the loop over the accesses of an interface
  unfoldable pub add_access : ℕ → ℕ → Building → Result Building
  unfolding seen_in add_state flood check_nodes_in_clk set_seen
  add_access clk_i a b =
      let entered = enter_clk (seen_in clk_i b.seen_clks) clk_i b.fsm in
      do
        st ←
            flood hls sched clk_i predicate limit a
              (record { seen = entered.0; already_used = b.already_used; found = [] })
        check_nodes_in_clk clk_i (reverse st.found)
        ok (add_found clk_i entered.1 st b)

  unfoldable pub add_accesses : List (ℕ × ℕ) → Building → Result Building
  unfolding add_access start_clk
  add_accesses [] b = ok b
  add_accesses ((t, a) ∷ rest) b = do
    b' ← add_access (start_clk t hls.normalized_clk_period) a b
    add_accesses rest b'

  -- A machine with one state is left out.
  unfoldable pub finish_fsm : IoFsm → List IoFsm → List IoFsm
  unfolding transitions
  finish_fsm fsm fsms =
      let st_cnt = length fsm.states in
      if ltb 1 st_cnt
      then fsms ++ record fsm { transition_table = transitions st_cnt } ∷ []
      else fsms

  -- the loop over the interfaces, which are sorted by the names of their signals
  unfoldable pub discover_fsms : IoDict → List ℕ → List IoFsm → Result (List IoFsm)
  unfolding add_accesses sort_accesses finish_fsm
  discover_fsms [] used fsms = ok fsms
  discover_fsms ((i, ops) ∷ rest) used fsms = elim (ltb 1 (length ops)) [
    | false ↦ discover_fsms rest used fsms
    | true ↦ do
      sorted ← sort_accesses sched ops []
      b ← add_accesses sorted (record { fsm = new_fsm i; seen_clks = []; already_used = used })
      discover_fsms rest b.already_used (finish_fsm b.fsm fsms)
  ]
