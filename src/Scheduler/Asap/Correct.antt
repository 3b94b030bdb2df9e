-- ===== src/Scheduler/Asap/Correct.antt =====
-- What ASAP scheduling returns passes the scheduler's own assertions.
use hwt_hls.Prelude.{
  ℕ, ◌+◌, ◌*◌, ◌-◌, ◌≤◌, ◌<◌, ◌≡◌, refl, inl, inr, none, some, Option, subst, List, [], ◌∷◌, le→leb,
  All, All-Unit, arith,
}
use hwt_hls.Prelude.Result.{Error, ok}
use hwt_hls.Netlist.{HlsNetNodeOut, HlsPipeline, iter_all_nodes}
use hwt_hls.Scheduler.State.{Scheduled, Schedule, unscheduled}
use hwt_hls.Scheduler.Check.{
  outs_of, check_inputs, check_scheduled, check_nodes, check_all_nodes_scheduled,
}
use hwt_hls.Scheduler.Asap.{
  InputTiming, normalized_time, place, zip_inputs, zip_with, place_source, latest, schedule_each,
  run_asap, inputs_of,
}
use hwt_hls.Scheduler.Asap.Align.{align_fits}
use hwt_hls.Scheduler.Asap.Derivation.{Collected, Placed, Inv}
use hwt_hls.Scheduler.Ensures.{Ensures}
use hwt_hls.Scheduler.Asap.Rule.{
  InputRule, IsScheduled, Rule, retry_rule, schedule_each-Ensures, unscheduled-Inv,
}

module _ (hls : HlsPipeline) where
  le-normalized_time :
      (a : ℕ) (i : InputTiming)
      → i.in_delay < hls.normalized_clk_period
      → a + i.in_delay + i.in_cycles * hls.normalized_clk_period
        ≤ normalized_time hls.normalized_clk_period a i
  unfolding normalized_time
  le-normalized_time a i h = omega (arith, align_fits hls.normalized_clk_period a i.in_delay h)

  le-latest :
      (best a : ℕ) (i : InputTiming)
      → (best ≤ latest hls best a i)
        × (normalized_time hls.normalized_clk_period a i ≤ latest hls best a i)
  le-latest best a i = ground arith

  check_inputs-nil : (s : Schedule) (ts : List ℕ) → check_inputs s ts [] ≡ ok tt
  unfolding check_inputs
  check_inputs-nil s [] = refl
  check_inputs-nil s (t ∷ ts) = refl

  pub Collected-le :
      (s : Schedule) (best : ℕ) (is : List InputTiming) (time : ℕ)
      → Collected hls s best is time
      → best ≤ time
  Collected-le s best [] time c = omega arith
  Collected-le s best (i ∷ is) time (a, _, _, c) =
      ground (arith, Collected-le s (latest hls best a i) is time c)

  -- Every input is taken no sooner than its driver gives it.
  check_inputs-Collected :
      (s : Schedule) (best time : ℕ) (ds : List HlsNetNodeOut) (ls cs : List ℕ)
      → Collected hls s best (zip_inputs ds ls cs) time
      → check_inputs s
          (zip_with
            (λ in_delay in_cycles. time - (in_delay + in_cycles * hls.normalized_clk_period))
            ls
            cs)
          ds
        ≡ ok tt
  unfolding check_inputs zip_with zip_inputs
  check_inputs-Collected s best time [] ls cs c = check_inputs-nil s _
  check_inputs-Collected s best time (d ∷ ds) [] cs c = refl
  check_inputs-Collected s best time (d ∷ ds) (l ∷ ls) [] c = refl
  check_inputs-Collected s best time (d ∷ ds) (l ∷ ls) (k ∷ cs) (a, (v, sv, va), fast, c) =
      let i : InputTiming = record { dep = d; in_delay = l; in_cycles = k } in
      let arrives = le-normalized_time a i fast in
      let bound = Collected-le s (latest hls best a i) (zip_inputs ds ls cs) time c in
      rw (sv, outs_of)
        (rw va (
          rw
            (le→leb a (time - (l + k * hls.normalized_clk_period))
              (omega (arith, arrives, bound, le-latest best a i)))
            (check_inputs-Collected s (latest hls best a i) time ds ls cs c)))

  check_scheduled-Placed :
      (s : Schedule) (n : ℕ) (v : Scheduled)
      → Placed hls s n v
      → check_inputs s v.scheduled_in (hls.node n).depends_on ≡ ok tt
  unfolding place place_source check_inputs
  check_scheduled-Placed s n v (inl (e, p)) = rw (e, p) refl
  check_scheduled-Placed s n v (inr (time, _, c, p)) = rw p (
      check_inputs-Collected s 0 time (hls.node n).depends_on (hls.node n).latency_pre
        (hls.node n).in_cycles_offset c)

  check_nodes-Inv :
      (s : Schedule) (ns : List ℕ)
      → Inv hls s
      → All (IsScheduled hls s) ns
      → check_nodes s hls ns ≡ ok tt
  unfolding check_nodes
  check_nodes-Inv s [] inv h = refl
  check_nodes-Inv s (n ∷ ns) inv ((v, sv), h) =
      rw (sv, check_scheduled)
        (rw (check_scheduled-Placed s n v (inv n v sv)) (check_nodes-Inv s ns inv h))

  abbrev Anything : Error → Type 0
  Anything e = Unit

  abbrev Always : ℕ → Option (List ℕ) → ℕ → Type 0
  Always limit path n = Unit

  inputs_allowed :
      (V : ℕ → Type 0)
      → ((n : ℕ) → V n)
      → (is : List InputTiming) → All (InputRule hls Anything V) is
  inputs_allowed V h [] = tt
  inputs_allowed V h (i ∷ is) = ((h i.dep.obj, λ s v p e. tt, λ e. tt), inputs_allowed V h is)

  any_rule : Rule hls Anything Always
  any_rule = record {
    overflow = λ path n c. tt;
    cycle = λ limit path n e c x. tt;
    inputs = λ limit path path' n c x. inputs_allowed (λ n. Unit) (λ n. tt) (inputs_of hls n);
  }

  pub run_asap-Ensures :
      (limit : ℕ)
      → Ensures
          (Inv hls)
          Anything
          unscheduled
          (λ _ t. All (IsScheduled hls t) (iter_all_nodes hls))
          (run_asap hls limit unscheduled)
  unfolding run_asap
  run_asap-Ensures limit =
      retry_rule hls Anything Anything unscheduled
        (λ _ t. All (IsScheduled hls t) (iter_all_nodes hls)) limit _
        (each none unscheduled (unscheduled-Inv hls)) (λ e n h. h) (λ t inv h. each (some []) t inv)
    where
      each :
          (path : Option (List ℕ)) (t : Schedule)
          → Inv hls t
          → Ensures
              (Inv hls)
              Anything
              t
              (λ _ t. All (IsScheduled hls t) (iter_all_nodes hls))
              (schedule_each hls limit path (iter_all_nodes hls) t)
      each path t =
          schedule_each-Ensures hls Anything Always any_rule limit path (iter_all_nodes hls) t
            (All-Unit (iter_all_nodes hls))

  pub run_asap-Inv :
      (limit : ℕ) (t : Schedule)
      → run_asap hls limit unscheduled ≡ (ok tt, t)
      → Inv hls t × All (IsScheduled hls t) (iter_all_nodes hls)
  run_asap-Inv limit t e =
      let (inv, _, all) =
        subst
          (Ensures (Inv hls) Anything unscheduled
            (λ _ t. All (IsScheduled hls t) (iter_all_nodes hls)))
          e (run_asap-Ensures limit) in
      (inv, all)

  -- After ASAP scheduling from an unscheduled netlist has returned, `_checkAllNodesScheduled`
  -- passes: each node is scheduled, and takes each input no sooner than its driver gives it.
  pub run_asap-check :
      (limit : ℕ) (t : Schedule)
      → run_asap hls limit unscheduled ≡ (ok tt, t)
      → check_all_nodes_scheduled t hls ≡ ok tt
  unfolding check_all_nodes_scheduled
  run_asap-check limit t e =
      let (inv, all) = run_asap-Inv limit t e in check_nodes-Inv t (iter_all_nodes hls) inv all
