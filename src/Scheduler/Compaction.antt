-- ===== src/Scheduler/Compaction.antt =====
-- `_scheduleAlapCompaction` of hwtHls/scheduler/scheduler.py: the terminators, the nodes and the
-- constants get their times, and then all times are shifted into the first clock period. `schedule` is
-- the method `scheduleAlapCompaction` of a node. Of a run that raises the schedule is not kept.
pub mod Shift
use hwt_hls.Prelude.{
  ℕ, zero, suc, ◌+◌, ◌*◌, ◌/◌, Bool, true, false, not, ◌&&◌, Option, none, some, List, [], ◌∷◌,
  ◌++◌, map, length, leb, ◌==◌, if◌then◌else◌,
}
use hwt_hls.Prelude.Int.{ℤ, pos, negsuc, ◌+ℤ◌, sub_ℕ, max_ℤ}
use hwt_hls.Prelude.Result.{
  Result, ok, err, index, require, or_raise, ◌>>=◌, ◌>>◌, assertion_error, type_error, value_error,
}
use hwt_hls.Netlist.{
  HlsNetNode, HlsNetNodeIn, NodeKind, loop_gate, const_node, HlsPipeline, iter_all_nodes,
}
use hwt_hls.Scheduler.State.{Scheduled, RunOn}
use hwt_hls.Scheduler.Alap.{Times, AlapSchedule, AlapContext, has_any, earlier}

abbrev pub is_loop_gate : NodeKind → Bool
is_loop_gate loop_gate = true
is_loop_gate _ = false

abbrev pub is_const : NodeKind → Bool
is_const const_node = true
is_const _ = false

-- `any(node.usedBy)`
abbrev pub any_use : List (List HlsNetNodeIn) → Bool
any_use [] = false
any_use ([] ∷ rest) = any_use rest
any_use ((u ∷ us) ∷ rest) = true

abbrev pub set_times : ℕ → Times → AlapSchedule → AlapSchedule
set_times n v s m = if n == m then some v else s m

-- A loop gate that nothing uses keeps the times of the ASAP schedule.
unfoldable pub place_terminators : AlapContext → List ℕ → AlapSchedule → AlapSchedule
place_terminators ctx [] s = s
place_terminators ctx (n ∷ ns) s = place_terminators ctx ns (
    if is_loop_gate (ctx.hls.node n).kind && not (any_use (ctx.hls.node n).used_by)
    then set_times n
        (record {
          scheduled_in = map pos (ctx.asap n).scheduled_in;
          scheduled_out = map pos (ctx.asap n).scheduled_out;
        })
        s
    else s)

-- `min(minTime, min(ts))`, where there are times
abbrev pub least_of : Option ℤ → List ℤ → Option ℤ
least_of best [] = best
least_of best (t ∷ ts) = least_of (some (earlier best t)) ts

abbrev pub least_time : Option ℤ → Option Times → Option ℤ
least_time best none = best
least_time best (some v) = least_of (least_of best v.scheduled_in) v.scheduled_out

abbrev pub schedule_missing :
    (ℕ → RunOn AlapSchedule (List ℤ)) → ℕ → AlapSchedule → Option Times → Result AlapSchedule
schedule_missing schedule n s none =
    let (r, s') = schedule n s in elim r [ ok ins ↦ ok s' | err e ↦ err e ]
schedule_missing schedule n s (some v) = ok s

-- The schedule, and `minTime`, which is `none` for `inf`.
abbrev pub Compaction : Type 0
Compaction = AlapSchedule × Option ℤ

-- the loop over the nodes, which leaves out the constants
unfoldable pub schedule_nodes :
    HlsPipeline → (ℕ → RunOn AlapSchedule (List ℤ)) → List ℕ → Compaction → Result Compaction
schedule_nodes hls schedule [] c = ok c
schedule_nodes hls schedule (n ∷ ns) (s, best) = elim (is_const (hls.node n).kind) [
  | true ↦ schedule_nodes hls schedule ns (s, best)
  | false ↦ do
    s' ← schedule_missing schedule n s (s n)
    schedule_nodes hls schedule ns (s', least_time best (s' n))
]

-- `min(u.obj.scheduledIn[u.in_i] for u in ...)`
unfoldable pub first_use : AlapSchedule → Option ℤ → List HlsNetNodeIn → Result ℤ
first_use s none [] = err value_error
first_use s (some best) [] = ok best
first_use s best (u ∷ us) = do
  v ← or_raise type_error (s u.obj)
  t ← index v.scheduled_in u.in_i
  first_use s (some (earlier best t)) us

abbrev pub last_outs : AlapSchedule → Option ℕ → List ℤ
last_outs s none = []
last_outs s (some n) = elim (s n) [ none ↦ [] | some v ↦ v.scheduled_out ]

-- The loop over the constants; `last` is the `node` that the loop before has left, whose times are the
-- ones that go into `minTime`.
unfoldable pub place_consts : HlsPipeline → Option ℕ → List ℕ → Compaction → Result Compaction
unfolding first_use
place_consts hls last [] c = ok c
place_consts hls last (n ∷ ns) (s, best) = elim (is_const (hls.node n).kind) [
  | false ↦ place_consts hls last ns (s, best)
  | true ↦ do
    require (length (hls.node n).used_by == 1) assertion_error
    require (not (has_any (hls.node n).depends_on)) assertion_error
    uses ← index (hls.node n).used_by 0
    t ← first_use s none uses
    let s' = set_times n (record { scheduled_in = []; scheduled_out = t ∷ [] }) s
    place_consts hls last ns (s', least_of best (last_outs s' last))
]

abbrev pub last_of : List ℕ → Option ℕ
last_of [] = none
last_of (n ∷ []) = some n
last_of (n ∷ m ∷ ns) = last_of (m ∷ ns)

-- `none` where the times stay; without any time there is nothing to shift
unfoldable pub offset : ℕ → Option ℤ → Option ℤ
offset clk_period none = none
offset clk_period (some (negsuc m)) = some (pos (suc m / clk_period * clk_period))
offset clk_period (some (pos m)) =
    if leb clk_period m then some (sub_ℕ 0 (m / clk_period * clk_period)) else none

-- `max(t + offset, 0)`
unfoldable pub shift_time : ℤ → ℤ → ℤ
shift_time off t = max_ℤ (t +ℤ off) (pos 0)

unfoldable pub shift_nodes : ℤ → List ℕ → AlapSchedule → Result AlapSchedule
unfolding shift_time
shift_nodes off [] s = ok s
shift_nodes off (n ∷ ns) s = do
  v ← or_raise type_error (s n)
  shift_nodes off ns (
      set_times n
        (record {
          scheduled_in = map (shift_time off) v.scheduled_in;
          scheduled_out = map (shift_time off) v.scheduled_out;
        })
        s)

abbrev pub shift_all : HlsPipeline → Option ℤ → AlapSchedule → Result AlapSchedule
shift_all hls none s = ok s
shift_all hls (some off) s = shift_nodes off (iter_all_nodes hls) s

unfoldable pub schedule_alap_compaction :
    AlapContext → (ℕ → RunOn AlapSchedule (List ℤ)) → AlapSchedule → Result AlapSchedule
unfolding place_terminators schedule_nodes place_consts offset shift_nodes
schedule_alap_compaction ctx schedule s =
    let hls = ctx.hls in
    let nodes = iter_all_nodes hls in
    do
      scheduled ← schedule_nodes hls schedule nodes (place_terminators ctx nodes s, none)
      placed ← place_consts hls (last_of nodes) nodes scheduled
      shift_all hls (offset hls.normalized_clk_period placed.1) placed.0
