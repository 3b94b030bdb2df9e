-- ===== src/Scheduler/Bitwise/Asap.antt =====
-- ASAP scheduling of a cluster of bitwise operators (hwtHls/netlist/nodes/aggregatedBitwiseOps.py). The
-- fuel is Python's recursion limit; `outside` is `scheduleAsap` of a node that is not in the cluster.
use hwt_hls.Prelude.{
  ℕ, zero, suc, ◌+◌, ◌-◌, ◌*◌, Bool, true, false, ◌&&◌, Option, none, some, List, [], ◌∷◌, ◌++◌,
  contains, ltb, ◌==◌, if◌then◌else◌,
}
use hwt_hls.Prelude.Result.{
  Result, ok, err, index, or_raise, require, recursion_error, index_error, assertion_error,
  key_error, type_error, value_error, time_constraint_error, cycle_error,
}
use hwt_hls.Clock.{start_clk}
use hwt_hls.Netlist.{HlsNetNodeIn, HlsNetNodeOut}
use hwt_hls.Ssa.{set_at}
use hwt_hls.Scheduler.State.{Scheduled, Schedule, assign, RunOn, pure, lift, ◌>>=◌, ◌>>◌}
use hwt_hls.Scheduler.Asap.{zip_with, align, later}
use hwt_hls.Scheduler.Bitwise.{Realized, BitwiseOperator, BitwiseOps}

-- The path is shared by all calls; the last node comes first.
pub record BitwiseState : Type 0 where
  pub schedule : Schedule
  pub total_input_cnt : ℕ → Option ℕ
  pub realized : ℕ → Option Realized
  pub path_for_debug : Option (List ℕ)

abbrev pub Run : Type 0 → Type 0
Run A = RunOn BitwiseState A

-- `if node in pathForDebug: raise` and `pathForDebug.append(self)`
unfoldable pub enter_path : (node self : ℕ) → Run (Unit {0})
enter_path node self s = elim s.path_for_debug [
  | none ↦ (ok tt, s)
  | some path ↦
      if contains path node
      then (err (cycle_error node), s)
      else (ok tt, record s { path_for_debug = some (self ∷ path) })
]

unfoldable pub leave_path : Run (Unit {0})
leave_path s = elim s.path_for_debug [
  | none ↦ (ok tt, s)
  | some path ↦ elim path [
    | [] ↦ (err index_error, s)
    | n ∷ ns ↦ (ok tt, record s { path_for_debug = some ns })
  ]
]

-- the least time at which one of the inputs is used
unfoldable pub first_use : Schedule → Option ℕ → List HlsNetNodeIn → Result ℕ
first_use s none [] = err value_error
first_use s (some best) [] = ok best
first_use s best (u ∷ us) = elim (s u.obj) [
  | none ↦ err type_error
  | some v ↦ elim (index v.scheduled_in u.in_i) [
    | err e ↦ err e
    | ok t ↦ first_use s (some (elim best [ none ↦ t | some b ↦ if ltb t b then t else b ])) us
  ]
]

abbrev pub all_in_clk : ℕ → ℕ → List ℕ → Bool
all_in_clk clk_period out_time [] = true
all_in_clk clk_period out_time (t ∷ ts) =
    (start_clk out_time clk_period == start_clk t clk_period) && all_in_clk clk_period out_time ts

-- The assert on the times of a node, for every output and every input.
unfoldable pub in_one_clk : ℕ → List ℕ → List ℕ → Bool
unfolding start_clk
in_one_clk clk_period [] ins = true
in_one_clk clk_period (t ∷ outs) ins = all_in_clk clk_period t ins && in_one_clk clk_period outs ins

module _ (ops : BitwiseOps) (clk_period epsilon : ℕ) (depends_on : ℕ → List HlsNetNodeOut)
    (resolve : BitwiseOperator → ℕ → Result Realized) (outside : ℕ → Run (List ℕ)) where
  abbrev pub schedule_driver : (ℕ → Run (List ℕ × ℕ)) → ℕ → Run (List ℕ × ℕ)
  schedule_driver visit n = elim (contains ops.sub_nodes n) [
    | true ↦ visit n
    | false ↦ do outs ← outside n; pure (outs, 1)
  ]

  -- The loop over the drivers: their times, and the count of the inputs of the cluster behind them.
  unfoldable pub drivers_times :
      (ℕ → Run (List ℕ × ℕ)) → List HlsNetNodeOut → List ℕ × ℕ → Run (List ℕ × ℕ)
  drivers_times visit [] r = pure r
  drivers_times visit (d ∷ ds) (times, total) = do
    r ← schedule_driver visit d.obj
    t ← lift (index r.0 d.out_i)
    drivers_times visit ds (times ++ t ∷ [], total + r.1)

  -- The loop that finds the time when all inputs are present.
  unfoldable pub all_present : ℕ → (times latency_pre in_cycles_offset : List ℕ) → Result ℕ
  unfolding align
  all_present best (t ∷ ts) (d ∷ ds) (c ∷ cs) =
      if ltb d clk_period
      then all_present (later clk_period best (align clk_period t d + d + c * clk_period)) ts ds cs
      else err time_constraint_error
  all_present best _ _ _ = ok best

  unfoldable pub place_operator : Realized → ℕ → Scheduled
  unfolding zip_with
  place_operator r time = record {
    scheduled_in =
        zip_with (λ in_delay in_cycles. time - (in_delay + in_cycles * clk_period) + epsilon)
          r.latency_pre r.in_cycles_offset;
    scheduled_out =
        zip_with (λ out_delay out_cycles. time + out_delay + out_cycles * clk_period + epsilon)
          r.latency_post r.cycles_latency;
  }

  -- What is written of a node whose drivers are scheduled.
  unfoldable pub realize_operator : ℕ → List ℕ × ℕ → Run (List ℕ × ℕ)
  unfolding all_present place_operator in_one_clk
  realize_operator n (times, total) = do
    λ s. (ok tt, record s { total_input_cnt = set_at s.total_input_cnt n (some total) })
    r ← lift (resolve (ops.sub_node n) total)
    λ s. (ok tt, record s { realized = set_at s.realized n (some r) })
    time ← lift (all_present 0 times r.latency_pre r.in_cycles_offset)
    let v = place_operator r time
    λ s. (ok tt, record s { schedule = assign s.schedule n v })
    lift (require (in_one_clk clk_period v.scheduled_out v.scheduled_in) assertion_error)
    pure (v.scheduled_out, total)

  abbrev pub quantized_body : (ℕ → Run (List ℕ × ℕ)) → ℕ → Option Scheduled → Run (List ℕ × ℕ)
  quantized_body visit n (some v) s =
      (lift (or_raise key_error (s.total_input_cnt n)) >>= λ total. pure (v.scheduled_out, total)) s
  quantized_body visit n none s =
      (do
        enter_path n ops.id
        r ← drivers_times visit (depends_on n) ([], 0)
        placed ← realize_operator n r
        leave_path
        pure placed)
        s

  -- `scheduleAsapWithQuantization`
  unfoldable pub schedule_asap_with_quantization : ℕ → ℕ → Run (List ℕ × ℕ)
  unfolding enter_path leave_path drivers_times realize_operator
  schedule_asap_with_quantization zero n = lift (err recursion_error)
  schedule_asap_with_quantization (suc limit) n = do
    lift (require (contains ops.sub_nodes n) assertion_error)
    λ s. quantized_body (schedule_asap_with_quantization limit) n (s.schedule n) s

  unfoldable pub schedule_outputs : ℕ → List HlsNetNodeOut → List ℕ → Run (List ℕ)
  unfolding schedule_asap_with_quantization
  schedule_outputs limit [] outs = pure outs
  schedule_outputs limit (o ∷ os) outs = do
    r ← schedule_asap_with_quantization limit o.obj
    t ← lift (index r.0 0)
    schedule_outputs limit os (outs ++ t ∷ [])

  unfoldable pub inputs_times : List HlsNetNodeOut → List ℕ → Run (List ℕ)
  unfolding first_use
  inputs_times [] ins = pure ins
  inputs_times (i ∷ is) ins = do
    t ← λ s. lift (first_use s.schedule none (ops.inputs_dict i)) s
    inputs_times is (ins ++ t ∷ [])

  abbrev pub aggregated_body : ℕ → Option Scheduled → Run (List ℕ)
  aggregated_body limit (some v) = pure v.scheduled_out
  aggregated_body limit none = do
    enter_path ops.id ops.id
    outs ← schedule_outputs limit ops.sub_outputs []
    ins ← inputs_times ops.sub_inputs []
    λ s. (
      ok outs,
      record s {
        schedule = assign s.schedule ops.id (record { scheduled_in = ins; scheduled_out = outs });
      },
    )

  -- `scheduleAsap`, which leaves the node on the path
  unfoldable pub schedule_asap_bitwise : ℕ → Run (List ℕ)
  unfolding enter_path schedule_outputs inputs_times
  schedule_asap_bitwise limit s = aggregated_body limit (s.schedule ops.id) s
