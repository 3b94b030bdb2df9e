-- ===== src/Scheduler/Bitwise/Alap.antt =====
-- ALAP compaction of a cluster of bitwise operators (hwtHls/netlist/nodes/aggregatedBitwiseOps.py), from
-- its outputs to its inputs. The fuel is Python's recursion limit; `outside` is `scheduleAlapCompaction`
-- of a node that is not in the cluster.
use hwt_hls.Prelude.{
  ℕ, zero, suc, ◌+◌, Bool, true, false, not, ◌&&◌, ◌||◌, Option, none, some, List, [], ◌∷◌, map,
  length, ◌==◌, if◌then◌else◌,
}
use hwt_hls.Prelude.Int.{ℤ, pos, ◌-ℤ◌, leb_ℤ, min_ℤ, scale}
use hwt_hls.Prelude.Result.{
  Result, ok, err, index, require, recursion_error, assertion_error, type_error, value_error,
}
use hwt_hls.Clock.Signed.{start_clk_int}
use hwt_hls.Graph.{add}
use hwt_hls.Netlist.{HlsNetNodeIn, HlsNetNodeOut}
use hwt_hls.Ssa.{set_at}
use hwt_hls.Scheduler.State.{RunOn, pure, lift, ◌>>=◌, ◌>>◌}
use hwt_hls.Scheduler.Bitwise.{Realized, BitwiseOperator, BitwiseOps}

-- `scheduledOut` of an operator is set before its `scheduledIn` is.
pub record CompactionState : Type 0 where
  pub scheduled_in : ℕ → Option (List ℤ)
  pub scheduled_out : ℕ → Option (List ℤ)
  pub realized : ℕ → Option Realized

abbrev pub Run : Type 0 → Type 0
Run A = RunOn CompactionState A

abbrev pub same_out : HlsNetNodeOut → HlsNetNodeOut → Bool
same_out a b = (a.obj == b.obj) && (a.out_i == b.out_i)

abbrev pub has_out : List HlsNetNodeOut → HlsNetNodeOut → Bool
has_out [] o = false
has_out (p ∷ ps) o = same_out p o || has_out ps o

-- `internOutToOut.get(o)`, as the index of the output
abbrev pub outer_of : List HlsNetNodeOut → HlsNetNodeOut → ℕ → Option ℕ
outer_of [] o i = none
outer_of (p ∷ ps) o i = if same_out p o then some i else outer_of ps o (i + 1)

abbrev pub earliest : Option ℤ → ℤ → ℤ
earliest none t = t
earliest (some best) t = min_ℤ t best

abbrev pub get_out : CompactionState → HlsNetNodeOut → Result ℤ
get_out s o = elim (s.scheduled_out o.obj) [
  | none ↦ err type_error
  | some outs ↦ index outs o.out_i
]

abbrev pub get_in : CompactionState → HlsNetNodeIn → Result ℤ
get_in s i = elim (s.scheduled_in i.obj) [ none ↦ err type_error | some ins ↦ index ins i.in_i ]

-- The loop over the uses of an output in the cluster: no time if one of them has none.
unfoldable pub time_of_uses : CompactionState → Option ℤ → List HlsNetNodeIn → Result (Option ℤ)
time_of_uses s best [] = ok best
time_of_uses s best (u ∷ us) = elim (s.scheduled_in u.obj) [
  | none ↦ ok none
  | some ins ↦ elim (index ins u.in_i) [
    | err e ↦ err e
    | ok t ↦ time_of_uses s (some (earliest best t)) us
  ]
]

-- `min` of the times of all uses of an input
unfoldable pub least_use : CompactionState → Option ℤ → List HlsNetNodeIn → Result ℤ
least_use s none [] = err value_error
least_use s (some best) [] = ok best
least_use s best (u ∷ us) = elim (get_in s u) [
  | err e ↦ err e
  | ok t ↦ least_use s (some (earliest best t)) us
]

-- `parentOut.obj.scheduledOut is None or parentOut.obj.scheduledOut[0] == outT`
abbrev pub not_scheduled_else : CompactionState → ℕ → ℤ → Result Bool
not_scheduled_else s n t = elim (s.scheduled_out n) [
  | none ↦ ok true
  | some outs ↦ elim (index outs 0) [ err e ↦ err e | ok u ↦ ok (leb_ℤ u t && leb_ℤ t u) ]
]

abbrev pub set_out : ℕ → List ℤ → Run (Unit {0})
set_out n ts s = (ok tt, record s { scheduled_out = set_at s.scheduled_out n (some ts) })

abbrev pub set_in : ℕ → List ℤ → Run (Unit {0})
set_in n ts s = (ok tt, record s { scheduled_in = set_at s.scheduled_in n (some ts) })

abbrev pub no_uses : List HlsNetNodeIn → Bool
no_uses [] = true
no_uses (u ∷ us) = false

module _ (ops : BitwiseOps) (clk_period ffdelay : ℕ) (depends_on : ℕ → List HlsNetNodeOut)
    (used_by : ℕ → List (List HlsNetNodeIn)) (resolve : BitwiseOperator → ℕ → Result Realized)
    (outside : ℕ → Run (List ℤ)) where
  -- The list of the current inputs has those of some operators, by which it is told.
  abbrev pub count_inputs : List ℕ → ℕ
  count_inputs [] = 0
  count_inputs (n ∷ ns) = (ops.sub_node n).input_cnt + count_inputs ns

  abbrev pub resolve_at : ℕ → ℕ → Run Realized
  resolve_at n inputs = do
    r ← lift (resolve (ops.sub_node n) inputs)
    λ s. (ok tt, record s { realized = set_at s.realized n (some r) })
    pure r

  -- `min(u.obj.scheduleAlapCompaction(asapSchedule)[u.in_i] for u in ...)`
  unfoldable pub least_outside : Option ℤ → List HlsNetNodeIn → Run ℤ
  least_outside none [] = lift (err value_error)
  least_outside (some best) [] = pure best
  least_outside best (u ∷ us) = do
    ins ← outside u.obj
    t ← lift (index ins u.in_i)
    least_outside (some (earliest best t)) us

  -- `_getAlapOutsideOutTime`, of an output with its index
  unfoldable pub get_alap_outside_out_time : ℕ → Run ℤ
  unfolding least_outside
  get_alap_outside_out_time i = do
    uses ← lift (index (used_by ops.id) i)
    lift (require (not (no_uses uses)) assertion_error)
    least_outside none uses

  unfoldable pub time_outside : Option ℕ → Run (Option ℤ)
  unfolding get_alap_outside_out_time
  time_outside none = pure none
  time_outside (some i) = do t ← get_alap_outside_out_time i; pure (some t)

  -- The recursive call: an output, the boundary and the current inputs, which it returns.
  abbrev pub Visit : Type 0
  Visit = HlsNetNodeOut → ℤ → List ℕ → Run (List ℕ)

  -- A driver whose uses all have their times.
  unfoldable pub place_driver : Visit → HlsNetNodeOut → ℤ → List ℕ → ℤ → Run (List ℕ)
  unfolding start_clk_int scale
  place_driver visit parent boundary current t = do
    free ← λ s. lift (not_scheduled_else s parent.obj t) s
    lift (require free assertion_error)
    lift (require ((ops.sub_node parent.obj).output_cnt == 1) assertion_error)
    r ← resolve_at parent.obj (count_inputs current + (ops.sub_node parent.obj).input_cnt)
    latency ← lift (index r.latency_pre 0)
    elim (leb_ℤ (t -ℤ pos latency) boundary) [
      | true ↦ do
        set_out parent.obj ((boundary -ℤ pos ffdelay) ∷ [])
        visit parent (scale (start_clk_int t clk_period) clk_period -ℤ pos clk_period) []
            >>= λ others. pure current
      | false ↦ do set_out parent.obj (t ∷ []); visit parent boundary current
    ]

  unfoldable pub visit_driver : Visit → HlsNetNodeOut → ℤ → List ℕ → Run (List ℕ)
  unfolding time_outside time_of_uses place_driver
  visit_driver visit parent boundary current = do
    uses ← lift (index (used_by parent.obj) parent.out_i)
    out_time ← time_outside (outer_of ops.sub_outputs parent 0)
    t ← λ s. lift (time_of_uses s out_time uses) s
    elim t [ none ↦ pure current | some t ↦ place_driver visit parent boundary current t ]

  unfoldable pub visit_drivers : Visit → List HlsNetNodeOut → ℤ → List ℕ → Run (List ℕ)
  unfolding visit_driver
  visit_drivers visit [] boundary current = pure current
  visit_drivers visit (p ∷ ps) boundary current = elim (has_out ops.sub_inputs p) [
    | true ↦ visit_drivers visit ps boundary current
    | false ↦ do
      current' ← visit_driver visit p boundary current
      visit_drivers visit ps boundary current'
  ]

  abbrev pub latency_of : ℕ → CompactionState → Result (List ℕ)
  latency_of n s = elim (s.realized n) [ none ↦ err type_error | some r ↦ ok r.latency_pre ]

  -- `scheduleAlapCompactionForOutput`
  unfoldable pub schedule_alap_compaction_for_output : ℕ → Visit
  unfolding visit_drivers
  schedule_alap_compaction_for_output zero o boundary current = lift (err recursion_error)
  schedule_alap_compaction_for_output (suc limit) o boundary current = do
    t ← λ s. lift (get_out s o) s
    latency_pre ← λ s. lift (latency_of o.obj s) s
    set_in o.obj (map (λ latency. t -ℤ pos latency) latency_pre)
    visit_drivers (schedule_alap_compaction_for_output limit) (depends_on o.obj) boundary
        (add o.obj current)

  -- An output of the cluster that is not used inside, with its index.
  unfoldable pub place_output : ℕ → HlsNetNodeOut → ℕ → Run (Unit {0})
  unfolding get_alap_outside_out_time schedule_alap_compaction_for_output start_clk_int scale
  place_output limit o i = do
    t ← get_alap_outside_out_time i
    lift (require (length (used_by o.obj) == 1) assertion_error)
    r ← resolve_at o.obj (ops.sub_node o.obj).input_cnt
    latency ← lift (index r.latency_pre 0)
    let start = scale (start_clk_int t clk_period) clk_period
    let late = leb_ℤ (t -ℤ pos latency) start
    set_out o.obj ((if late then start -ℤ pos ffdelay else t) ∷ [])
    schedule_alap_compaction_for_output limit o (if late then start -ℤ pos clk_period else start) []
        >>= λ inputs. pure tt

  unfoldable pub place_outputs : ℕ → List HlsNetNodeOut → ℕ → Run (Unit {0})
  unfolding place_output
  place_outputs limit [] i = pure tt
  place_outputs limit (o ∷ os) i = do
    uses ← lift (index (used_by o.obj) o.out_i)
    (if no_uses uses then place_output limit o i else pure tt)
    place_outputs limit os (i + 1)

  unfoldable pub inputs_times : List HlsNetNodeOut → Run (List ℤ)
  unfolding least_use
  inputs_times [] = pure []
  inputs_times (i ∷ is) = do
    t ← λ s. lift (least_use s none (ops.inputs_dict i)) s
    ts ← inputs_times is
    pure (t ∷ ts)

  unfoldable pub outputs_times : List HlsNetNodeOut → Run (List ℤ)
  outputs_times [] = pure []
  outputs_times (o ∷ os) = do t ← λ s. lift (get_out s o) s; ts ← outputs_times os; pure (t ∷ ts)

  abbrev pub compaction_body : ℕ → Option (List ℤ) → Run (List ℤ)
  compaction_body limit (some ins) = pure ins
  compaction_body limit none = do
    place_outputs limit ops.sub_outputs 0
    ins ← inputs_times ops.sub_inputs
    set_in ops.id ins
    outs ← outputs_times ops.sub_outputs
    set_out ops.id outs
    pure ins

  -- `scheduleAlapCompaction`
  unfoldable pub schedule_alap_compaction_bitwise : ℕ → Run (List ℤ)
  unfolding place_outputs inputs_times outputs_times
  schedule_alap_compaction_bitwise limit s = compaction_body limit (s.scheduled_in ops.id) s
