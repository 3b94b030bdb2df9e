-- ===== src/Scheduler/Asap/Total.antt =====
-- Without cycles ASAP scheduling succeeds.
use hwt_hls.Prelude.{
  ℕ, zero, suc, ◌<◌, ◌≡◌, refl, inl, inr, none, Option, List, [], ◌∷◌, get_elem?, length, All,
  All-map, All-zip, ap, lt→ltb, arith,
}
use hwt_hls.Prelude.Result.{Error, Result, ok, err}
use hwt_hls.Netlist.{HlsNetNodeOut, HlsPipeline, iter_all_nodes}
use hwt_hls.Scheduler.State.{Scheduled, Schedule, unscheduled}
use hwt_hls.Scheduler.Asap.{zip_with, place, place_source, enter, run_asap}
use hwt_hls.Scheduler.Methods.{IsPlain}
use hwt_hls.Scheduler.Asap.Inputs.{zip_inputs-All}
use hwt_hls.Scheduler.Asap.Derivation.{Placed, Inv}
use hwt_hls.Scheduler.Ensures.{Ensures}
use hwt_hls.Scheduler.Asap.Rule.{
  InputRule, IsScheduled, Rule, retry_rule, schedule_each-Ensures, unscheduled-Inv,
}

zip_with-at :
    (f : ℕ → ℕ → ℕ) (xs ys : List ℕ) (p : ℕ)
    → p < length xs
    → length ys ≡ length xs
    → get_elem? (zip_with f xs ys) p ≡ none
    → ⊥
unfolding zip_with
zip_with-at f [] ys p h e n = absurd (omega arith)
zip_with-at f (x ∷ xs) [] p h e n = absurd (omega arith)
zip_with-at f (x ∷ xs) (y ∷ ys) zero h e n = cc
zip_with-at f (x ∷ xs) (y ∷ ys) (suc p) h e n = zip_with-at f xs ys p (omega arith) (omega arith) n

at-lt : (xs : List ℕ) (p : ℕ) → p < length xs → get_elem? xs p ≡ none → ⊥
at-lt [] p h n = absurd (omega arith)
at-lt (x ∷ xs) zero h n = cc
at-lt (x ∷ xs) (suc p) h n = at-lt xs p (omega arith) n

-- A netlist without cycles (each driver has a smaller `rank`) and without nodes that override
-- `scheduleAsap` (reads, writes, clusters), whose links lead to outputs that are there and whose operations fit into a clock
-- period.
pub record IsSchedulable (hls : HlsPipeline) (rank : ℕ → ℕ) : Type 0 where
  pub plain : IsPlain hls
  pub acyclic : (n : ℕ) → All (λ d. rank d.obj < rank n) (hls.node n).depends_on
  pub linked :
      (n : ℕ) → All (λ d. d.out_i < length (hls.node d.obj).latency_post) (hls.node n).depends_on
  pub realized : (n : ℕ) → length (hls.node n).cycles_latency ≡ length (hls.node n).latency_post
  pub fast : (n : ℕ) → All (λ l. l < hls.normalized_clk_period) (hls.node n).latency_pre

module _ (hls : HlsPipeline) (rank : ℕ → ℕ) (schedulable : IsSchedulable hls rank) where
  abbrev Never : Error → Type 0
  Never e = ⊥

  abbrev Within : ℕ → Option (List ℕ) → ℕ → Type 0
  Within limit path n = (path ≡ none) × (rank n < limit)

  port_given :
      (s : Schedule) (d : HlsNetNodeOut) (v : Scheduled)
      → d.out_i < length (hls.node d.obj).latency_post
      → Placed hls s d.obj v
      → get_elem? v.scheduled_out d.out_i ≡ none
      → ⊥
  unfolding place place_source
  port_given s d v h (inl (_, e)) n = at-lt _ d.out_i h (rw e at n)
  port_given s d v h (inr (_, _, _, e)) n =
      zip_with-at _ (hls.node d.obj).latency_post (hls.node d.obj).cycles_latency d.out_i h
        (schedulable.realized d.obj) (rw e at n)

  Within-Rule : Rule hls Never Within
  unfolding enter
  Within-Rule = record {
    overflow = λ path n c. omega arith;
    cycle = λ limit path n e c x. cc (ap (λ (p : Option (List ℕ)). enter p n) c.0);
    inputs = λ limit path path' n c x.
        zip_inputs-All (InputRule hls Never (Within limit path'))
          (λ d. (rank d.obj < rank n) × (d.out_i < length (hls.node d.obj).latency_post))
          (λ l. l < hls.normalized_clk_period) (hls.node n).depends_on (hls.node n).latency_pre
          (hls.node n).in_cycles_offset
          (λ i d l. (
            (cc (ap (λ (p : Option (List ℕ)). enter p n) c.0), omega arith),
            λ s v p e. port_given s i.dep v d.1 p e,
            λ e. ground (arith, lt→ltb i.in_delay hls.normalized_clk_period),
          ))
          (All-zip _ _ (hls.node n).depends_on (schedulable.acyclic n) (schedulable.linked n))
          (schedulable.fast n);
  }

  -- ASAP scheduling of a netlist without cycles, and without reads, writes and clusters of
  -- bitwise operators, whose links lead to outputs that are there and whose operations fit into
  -- a clock period, returns, if the recursion limit exceeds every rank.
  pub run_asap_returns :
      (limit : ℕ)
      → All (λ n. rank n < limit) (iter_all_nodes hls)
      → (t : Schedule) × (run_asap hls limit unscheduled ≡ (ok tt, t))
  unfolding run_asap
  run_asap_returns limit deep = returned (run_asap hls limit unscheduled) (
      retry_rule hls Never Never unscheduled (λ _ t. All (IsScheduled hls t) (iter_all_nodes hls))
        limit _
        (schedule_each-Ensures hls Never Within Within-Rule limit none (iter_all_nodes hls)
          unscheduled (All-map _ _ (iter_all_nodes hls) (λ n h. (refl, h)) deep)
          (unscheduled-Inv hls))
        (λ e n h. h) (λ t inv h. absurd h))
    where
      returned :
          (r : Result (Unit {0}) × Schedule)
          → Ensures
              (Inv hls)
              Never
              unscheduled
              (λ _ t. All (IsScheduled hls t) (iter_all_nodes hls))
              r
          → (t : Schedule) × (r ≡ (ok tt, t))
      returned (ok tt, t) h = (t, refl)
      returned (err e, t) h = absurd h.2
