-- ===== src/Scheduler/Alap.antt =====
-- `HlsNetNode.scheduleAlapCompaction` (hwtHls/netlist/nodes/node.py). Each node is placed by the times
-- at which its users take its outputs. Times are integers, since the pass may move nodes before 0;
-- Python's recursion limit is the fuel. The recursion calls the method of HlsNetNode on every node: the
-- overrides of reads, writes and clusters of bitwise operators are not called.
pub mod Rule
pub mod Correct
pub mod Needed
pub mod InTime
use hwt_hls.Prelude.{
  ℕ, zero, suc, ◌+◌, ◌*◌, Bool, true, false, Option, none, some, List, [], ◌∷◌, ltb, ◌==◌,
  if◌then◌else◌,
}
use hwt_hls.Prelude.Int.{ℤ, pos, ◌+ℤ◌, ◌-ℤ◌, scale, min_ℤ, max_ℤ, leb_ℤ}
use hwt_hls.Prelude.Result
use hwt_hls.Prelude.Result.{
  Result, ok, err, index, require, recursion_error, time_constraint_error, assertion_error,
  value_error,
}
use hwt_hls.Clock.Signed.{start_clk_int, start_of_next_clk_period_int}
use hwt_hls.Netlist.{HlsNetNode, HlsNetNodeIn, HlsPipeline}
use hwt_hls.Scheduler.State.{Scheduled, RunOn, pure, lift, ◌>>=◌, ◌>>◌}

-- `scheduledIn` and `scheduledOut` as this pass writes them.
pub record Times : Type 0 where
  pub scheduled_in : List ℤ
  pub scheduled_out : List ℤ

abbrev pub AlapSchedule : Type 0
AlapSchedule = ℕ → Option Times

-- The numbers that do not change during the pass.
pub record AlapContext : Type 0 where
  pub hls : HlsPipeline
  pub asap : ℕ → Scheduled
  pub ffdelay : ℕ
  pub epsilon : ℕ

abbrev pub clk_of : AlapContext → ℕ
clk_of ctx = ctx.hls.normalized_clk_period

-- `min`, where `none` is `inf`
abbrev pub earlier : Option ℤ → ℤ → ℤ
earlier none t = t
earlier (some best) t = min_ℤ best t

-- The loop over the inputs that use one output; `visit` is the recursive call.
unfoldable pub use_times :
    (ℕ → RunOn AlapSchedule (List ℤ)) → Option ℤ → List HlsNetNodeIn → RunOn AlapSchedule (Option ℤ)
use_times visit best [] = pure best
use_times visit best (u ∷ us) = do
  ins ← visit u.obj
  i_t ← lift (index ins u.in_i)
  use_times visit (some (earlier best i_t)) us

-- The loop over `zip(asapOut, self.usedBy)`: when each output is needed, `none` where it is not used.
unfoldable pub out_times :
    (ℕ → RunOn AlapSchedule (List ℤ))
    → List ℕ
    → List (List HlsNetNodeIn)
    → RunOn AlapSchedule (List (Option ℤ))
unfolding use_times
out_times visit (_ ∷ asap_out) (uses ∷ rest) = do
  t ← use_times visit none uses
  ts ← out_times visit asap_out rest
  pure (t ∷ ts)
out_times visit _ _ = pure []

-- `oMinTime`
unfoldable pub min_time : Option ℤ → List (Option ℤ) → Option ℤ
min_time best [] = best
min_time best (none ∷ ts) = min_time best ts
min_time best (some t ∷ ts) = min_time (some (earlier best t)) ts

-- a list as a condition, as in `assert self.usedBy`
abbrev pub has_any : {A : Type 0} → List A → Bool
has_any [] = false
has_any (_ ∷ _) = true

module _ (ctx : AlapContext) where
  -- `start_of_next_clk_period(...) - ffdelay - epsilon`
  abbrev pub end_of_clk : ℤ → ℤ
  end_of_clk t = start_of_next_clk_period_int t (clk_of ctx) -ℤ pos ctx.ffdelay -ℤ pos ctx.epsilon

  abbrev pub unused_time : Option ℤ → ℕ → ℤ
  unused_time none asap_out = end_of_clk (pos asap_out)
  unused_time (some least) asap_out = max_ℤ (end_of_clk (pos asap_out)) least

  -- `oMinTime` after an unused output
  abbrev pub least_after : Option ℤ → ℤ → Option ℤ
  least_after none t = some t
  least_after (some least) t = some least

  -- the loop that resolves the times of unused outputs, over `zip(asapOut, outTimes)`
  unfoldable pub fill_unused : Option ℤ → List ℕ → List (Option ℤ) → List ℤ
  fill_unused least (a ∷ rest) (some t ∷ ts) = t ∷ fill_unused least rest ts
  fill_unused least (a ∷ rest) (none ∷ ts) =
      unused_time least a ∷ fill_unused (least_after least (unused_time least a)) rest ts
  fill_unused least _ _ = []

  -- `min(ot - lp for ...)`; the `min` of nothing raises ValueError
  unfoldable pub earliest_required : Option ℤ → List ℤ → List ℕ → Result ℤ
  earliest_required best (t ∷ ts) (lp ∷ lps) =
      earliest_required (some (earlier best (t -ℤ pos lp))) ts lps
  earliest_required none _ _ = err value_error
  earliest_required (some t) _ _ = ok t

  -- `start_clk(...) * clkPeriod`
  abbrev pub clk_start : ℤ → ℤ
  clk_start t = scale (start_clk_int t (clk_of ctx)) (clk_of ctx)

  -- one turn of the loop over the inputs: the node moves to the end of the previous clock period if
  -- the input would not fit
  unfoldable pub fit_input : ℤ → ℕ → ℕ → ℤ
  fit_input t in_delay in_cycles =
      let in_time = t -ℤ pos in_delay -ℤ pos (in_cycles * clk_of ctx) in
      if leb_ℤ in_time (clk_start t) then clk_start t -ℤ pos ctx.ffdelay -ℤ pos ctx.epsilon else t

  unfoldable pub fit_inputs : ℤ → List ℕ → List ℕ → Result ℤ
  fit_inputs t (in_delay ∷ ls) (in_cycles ∷ cs) =
      if ltb (in_delay + ctx.ffdelay) (clk_of ctx)
      then fit_inputs (fit_input t in_delay in_cycles) ls cs
      else err time_constraint_error
  fit_inputs t _ _ = ok t

  unfoldable pub zip_times : (ℕ → ℕ → ℤ) → List ℕ → List ℕ → List ℤ
  zip_times f (x ∷ xs) (y ∷ ys) = f x y ∷ zip_times f xs ys
  zip_times f _ _ = []

  unfoldable pub place_alap : HlsNetNode → ℤ → Times
  unfolding zip_times
  place_alap n t = record {
    scheduled_in =
        zip_times (λ in_delay in_cycles. t -ℤ pos (in_delay + in_cycles * clk_of ctx)) n.latency_pre
          n.in_cycles_offset;
    scheduled_out =
        zip_times (λ out_delay out_cycles. t +ℤ pos out_delay +ℤ pos (out_cycles * clk_of ctx))
          n.latency_post n.cycles_latency;
  }

  -- `timeWhenEarliesOutputRequired`, from the times of the outputs
  unfoldable pub required_time : ℕ → List ℤ → Result ℤ
  unfolding earliest_required fit_inputs fit_input
  required_time n [] =
      Result.◌>>=◌ (require (has_any (ctx.hls.node n).depends_on) assertion_error)
        λ _. Result.◌>>=◌ (index (ctx.asap n).scheduled_in 0) λ t. ok (end_of_clk (pos t))
  required_time n (t ∷ ts) =
      Result.◌>>=◌ (earliest_required none (t ∷ ts) (ctx.hls.node n).latency_post) λ required.
        fit_inputs required (ctx.hls.node n).latency_pre (ctx.hls.node n).in_cycles_offset

  abbrev pub record_times : ℕ → Times → RunOn AlapSchedule (List ℤ)
  record_times n v s = (ok v.scheduled_in, λ m. if n == m then some v else s m)

  unfoldable pub schedule_node_alap :
      (ℕ → RunOn AlapSchedule (List ℤ)) → ℕ → RunOn AlapSchedule (List ℤ)
  unfolding out_times min_time fill_unused required_time place_alap
  schedule_node_alap visit n = do
    lift (require (has_any (ctx.hls.node n).used_by) assertion_error)
    outs ← out_times visit (ctx.asap n).scheduled_out (ctx.hls.node n).used_by
    t ← lift (required_time n (fill_unused (min_time none outs) (ctx.asap n).scheduled_out outs))
    record_times n (place_alap (ctx.hls.node n) t)

  -- `if self.scheduledIn is not None:`
  abbrev pub alap_body :
      (ℕ → RunOn AlapSchedule (List ℤ)) → ℕ → Option Times → RunOn AlapSchedule (List ℤ)
  alap_body visit n none s = schedule_node_alap visit n s
  alap_body visit n (some v) s = (ok v.scheduled_in, s)

  unfoldable pub schedule_alap : ℕ → ℕ → RunOn AlapSchedule (List ℤ)
  unfolding schedule_node_alap
  schedule_alap zero n s = (err recursion_error, s)
  schedule_alap (suc limit) n s = alap_body (schedule_alap limit) n (s n) s
