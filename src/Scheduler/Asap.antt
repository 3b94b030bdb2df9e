-- ===== src/Scheduler/Asap.antt =====
-- `HlsNetNode.scheduleAsap` (hwtHls/netlist/nodes/node.py) and `HlsScheduler._scheduleAsap`
-- (hwtHls/scheduler/scheduler.py). Python's recursion limit is the fuel of the recursion: passing it
-- raises RecursionError. Times are ℕ. The recursion calls the method of HlsNetNode on every node: the
-- overrides of reads, writes and clusters of bitwise operators are not called.
mod Derivation
mod Rule
pub mod Align
mod Inputs
pub mod Total
pub mod Cycle
pub mod Earliest
pub mod Correct
use hwt_hls.Prelude.{
  ℕ, zero, suc, ◌+◌, ◌-◌, ◌*◌, Option, none, some, List, [], ◌∷◌, ltb, leb, contains, if◌then◌else◌,
}
use hwt_hls.Prelude.Result.{
  Result, ok, err, index, require, recursion_error, time_constraint_error, cycle_error,
}
use hwt_hls.Clock.{start_of_next_clk_period}
use hwt_hls.Netlist.{HlsNetNode, HlsNetNodeOut, HlsPipeline, iter_all_nodes}
use hwt_hls.Scheduler.State.{Scheduled, Schedule, assign, Run, pure, lift, ◌>>=◌, ◌>>◌}

-- One turn of the loop over the inputs: the driver, `in_delay` and `in_cycles`.
pub record InputTiming : Type 0 where
  pub dep : HlsNetNodeOut
  pub in_delay : ℕ
  pub in_cycles : ℕ

-- `zip(input_times, self.latency_pre, self.in_cycles_offset)`, the times still to be computed
unfoldable pub zip_inputs : List HlsNetNodeOut → List ℕ → List ℕ → List InputTiming
zip_inputs (d ∷ ds) (l ∷ ls) (c ∷ cs) =
    record { dep = d; in_delay = l; in_cycles = c } ∷ zip_inputs ds ls cs
zip_inputs _ _ _ = []

unfoldable pub zip_with : (ℕ → ℕ → ℕ) → List ℕ → List ℕ → List ℕ
zip_with f (x ∷ xs) (y ∷ ys) = f x y ∷ zip_with f xs ys
zip_with f _ _ = []

module _ (clk_period : ℕ) where
  -- The moment at which an input that is available at `time` can start an operation that takes
  -- `in_delay` before the next register: at once, or at the start of the next clock period.
  unfoldable pub align : (time in_delay : ℕ) → ℕ
  unfolding start_of_next_clk_period
  align time in_delay =
      let next_clk_time = start_of_next_clk_period time clk_period in
      if leb (next_clk_time - time) in_delay then next_clk_time else time

  unfoldable pub normalized_time : ℕ → InputTiming → ℕ
  unfolding align
  normalized_time available i = align available i.in_delay + i.in_delay + i.in_cycles * clk_period

  abbrev pub later : ℕ → ℕ → ℕ
  later best t = if leb best t then t else best

  -- `scheduledIn` and `scheduledOut` of a node whose operation takes all its inputs at `time`
  unfoldable pub place : HlsNetNode → ℕ → Scheduled
  unfolding zip_with
  place n time = record {
    scheduled_in =
        zip_with (λ in_delay in_cycles. time - (in_delay + in_cycles * clk_period)) n.latency_pre
          n.in_cycles_offset;
    scheduled_out =
        zip_with (λ out_delay out_cycles. time + out_delay + out_cycles * clk_period) n.latency_post
          n.cycles_latency;
  }

-- A node without inputs.
unfoldable pub place_source : HlsNetNode → Scheduled
place_source n = record { scheduled_in = []; scheduled_out = n.latency_post }

-- `pathForDebug`: the nodes on the recursion's stack. `pop` at the end undoes `append`.
unfoldable pub enter : Option (List ℕ) → ℕ → Result (Option (List ℕ))
enter none n = ok none
enter (some path) n = if contains path n then err (cycle_error n) else ok (some (n ∷ path))

module _ (hls : HlsPipeline) where
  abbrev pub latest : ℕ → ℕ → InputTiming → ℕ
  latest best available i =
      later hls.normalized_clk_period best (normalized_time hls.normalized_clk_period available i)

  -- The loop over the inputs; `visit` is the recursive call.
  unfoldable pub input_times : (ℕ → Run (List ℕ)) → ℕ → List InputTiming → Run ℕ
  input_times visit best [] = pure best
  input_times visit best (i ∷ is) = do
    outs ← visit i.dep.obj
    available ← lift (index outs i.dep.out_i)
    lift (require (ltb i.in_delay hls.normalized_clk_period) time_constraint_error)
    input_times visit (latest best available i) is

  abbrev pub inputs_of : ℕ → List InputTiming
  inputs_of n =
      zip_inputs (hls.node n).depends_on (hls.node n).latency_pre (hls.node n).in_cycles_offset

  abbrev pub record_schedule : ℕ → Scheduled → Run (List ℕ)
  record_schedule n v s = (ok v.scheduled_out, assign s n v)

  -- `if self.dependsOn:` and its two branches, for a node that is not scheduled yet
  abbrev pub node_body :
      (Option (List ℕ) → ℕ → Run (List ℕ)) → Option (List ℕ) → ℕ → List HlsNetNodeOut → Run (List ℕ)
  node_body visit path n [] = record_schedule n (place_source (hls.node n))
  node_body visit path n (_ ∷ _) = do
    path' ← lift (enter path n)
    time ← input_times (visit path') 0 (inputs_of n)
    record_schedule n (place hls.normalized_clk_period (hls.node n) time)

  unfoldable pub schedule_node :
      (Option (List ℕ) → ℕ → Run (List ℕ)) → Option (List ℕ) → ℕ → Run (List ℕ)
  unfolding enter input_times place place_source zip_inputs
  schedule_node visit path n = node_body visit path n (hls.node n).depends_on

  -- `if self.scheduledOut is None:`
  abbrev pub asap_body :
      (Option (List ℕ) → ℕ → Run (List ℕ)) → Option (List ℕ) → ℕ → Option Scheduled → Run (List ℕ)
  asap_body visit path n none s = schedule_node visit path n s
  asap_body visit path n (some v) s = (ok v.scheduled_out, s)

  unfoldable pub schedule_asap : ℕ → Option (List ℕ) → ℕ → Run (List ℕ)
  unfolding schedule_node
  schedule_asap zero path n s = (err recursion_error, s)
  schedule_asap (suc limit) path n s = asap_body (schedule_asap limit) path n (s n) s

  -- `for o in self.parentHls.iterAllNodes(): o.scheduleAsap(path)`
  unfoldable pub schedule_each : ℕ → Option (List ℕ) → List ℕ → Run (Unit {0})
  unfolding schedule_asap
  schedule_each limit path [] = pure tt
  schedule_each limit path (n ∷ ns) = do _ ← schedule_asap limit path n; schedule_each limit path ns

  -- The debug run follows a RecursionError, on what the first run left scheduled.
  unfoldable pub retry_for_debug : ℕ → Result (Unit {0}) × Schedule → Result (Unit {0}) × Schedule
  unfolding schedule_each
  retry_for_debug limit (err recursion_error, s) =
      schedule_each limit (some []) (iter_all_nodes hls) s
  retry_for_debug limit other = other

  unfoldable pub run_asap : ℕ → Run (Unit {0})
  unfolding retry_for_debug
  run_asap limit s = retry_for_debug limit (schedule_each limit none (iter_all_nodes hls) s)
