-- ===== src/Scheduler/Asap/Earliest.antt =====
-- The specification of ASAP scheduling: of all schedules that give every operation its inputs in
-- time, within a clock period each, it is the earliest.
use hwt_hls.Prelude.{
  ℕ, zero, suc, ◌+◌, ◌*◌, ◌<◌, ◌≤◌, ◌≡◌, ◌≢◌, inl, inr, some, List, [], ◌∷◌, get_elem?, All,
  All-map, All-zip, All-Unit, List-cases, ap, arith,
}
use hwt_hls.Clock.{start_of_next_clk_period}
use hwt_hls.Prelude.Result.{ok}
use hwt_hls.Netlist.{HlsNetNodeOut, HlsPipeline}
use hwt_hls.Scheduler.State.{Scheduled, Schedule, unscheduled}
use hwt_hls.Scheduler.Asap.{
  InputTiming, run_asap, align, normalized_time, zip_with, place, place_source, inputs_of, latest,
}
use hwt_hls.Scheduler.Methods.{IsPlain}
use hwt_hls.Scheduler.Asap.Align.{align_fits, align_least}
use hwt_hls.Scheduler.Asap.Correct.{Collected-le, run_asap-Inv}
use hwt_hls.Scheduler.Asap.Inputs.{zip_inputs-All}
use hwt_hls.Scheduler.Asap.Derivation.{Available, Collected, Placed, Inv}

-- An output of an operation that starts sooner is there sooner.
zip_with_mono :
    (clk x y : ℕ) (ls cs : List ℕ) (p a b : ℕ)
    → x ≤ y
    → get_elem? (zip_with (λ l c. x + l + c * clk) ls cs) p ≡ some a
    → get_elem? (zip_with (λ l c. y + l + c * clk) ls cs) p ≡ some b
    → a ≤ b
unfolding zip_with
zip_with_mono clk x y [] cs p a b h e f = cc
zip_with_mono clk x y (l ∷ ls) [] p a b h e f = cc
zip_with_mono clk x y (l ∷ ls) (c ∷ cs) zero a b h e f = ground arith
zip_with_mono clk x y (l ∷ ls) (c ∷ cs) (suc p) a b h e f = zip_with_mono clk x y ls cs p a b h e f

-- Output `p` of a node whose operation starts at `start`; sources do not start.
abbrev pub out_times : HlsPipeline → (ℕ → ℕ) → ℕ → List HlsNetNodeOut → List ℕ
out_times hls start n [] = (place_source (hls.node n)).scheduled_out
out_times hls start n (_ ∷ _) =
    (place hls.normalized_clk_period (hls.node n) (start n)).scheduled_out

module _ (hls : HlsPipeline) where
  abbrev pub outs : (ℕ → ℕ) → ℕ → List ℕ
  outs start n = out_times hls start n (hls.node n).depends_on

  -- The input is taken at a moment `at` when its value is there, and from which its delay is over
  -- before the next clock edge; the operation waits for that and for the input's cycles.
  abbrev pub InputMet : (ℕ → ℕ) → ℕ → InputTiming → Type 0
  InputMet start n i =
      (a : ℕ) × (get_elem? (outs start i.dep.obj) i.dep.out_i ≡ some a)
      × (at : ℕ) × (a ≤ at)
      × (at + i.in_delay < start_of_next_clk_period at hls.normalized_clk_period)
      × (at + i.in_delay + i.in_cycles * hls.normalized_clk_period ≤ start n)

  abbrev pub IsFeasible : (ℕ → ℕ) → Type 0
  IsFeasible start = (n : ℕ) → All (InputMet start n) (inputs_of hls n)

  Collected-least :
      (s : Schedule) (best : ℕ) (is : List InputTiming) (time bound : ℕ)
      → Collected hls s best is time
      → best ≤ bound
      → All
          (λ i.
            (a : ℕ)
            → Available s i.dep a
            → i.in_delay < hls.normalized_clk_period
            → normalized_time hls.normalized_clk_period a i ≤ bound)
          is
      → time ≤ bound
  Collected-least s best [] time bound c h all = omega arith
  Collected-least s best (i ∷ is) time bound (a, av, fast, c) h (met, all) =
      let here = met a av fast in
      Collected-least s (latest hls best a i) is time bound c (ground arith) all

module _ (hls : HlsPipeline) (rank start : ℕ → ℕ) (s : Schedule) (inv : Inv hls s)
    (acyclic : (n : ℕ) → All (λ d. rank d.obj < rank n) (hls.node n).depends_on)
    (feasible : IsFeasible hls start) where
  abbrev NoLater : ℕ → Type 0
  NoLater n =
      (v : Scheduled) (p a b : ℕ)
      → s n ≡ some v
      → get_elem? v.scheduled_out p ≡ some a
      → get_elem? (outs hls start n) p ≡ some b
      → a ≤ b

  input-NoLater :
      (n : ℕ) (i : InputTiming)
      → NoLater i.dep.obj
      → InputMet hls start n i
      → (a : ℕ) → Available s i.dep a
      → i.in_delay < hls.normalized_clk_period
      → normalized_time hls.normalized_clk_period a i ≤ start n
  unfolding normalized_time
  input-NoLater n i ih (b, out, at, le, fits, met) a (v, sv, va) fast =
      let sooner = ih v i.dep.out_i a b sv va out in
      let aligned = align_least hls.normalized_clk_period a i.in_delay at fast (omega arith) fits in
      omega arith

  Placed-NoLater :
      (n : ℕ)
      → All (λ i. NoLater i.dep.obj) (inputs_of hls n)
      → (v : Scheduled) (p a b : ℕ) → Placed hls s n v
      → get_elem? v.scheduled_out p ≡ some a
      → get_elem? (outs hls start n) p ≡ some b
      → a ≤ b
  unfolding place
  Placed-NoLater n ih v p a b (inl (e, q)) x y =
      let there : get_elem? (place_source (hls.node n)).scheduled_out p ≡ some b =
        rw (ap (out_times hls start n) e) at y in
      let here : get_elem? (place_source (hls.node n)).scheduled_out p ≡ some a = rw q at x in
      ground arith
  Placed-NoLater n ih v p a b (inr (time, ne, c, q)) x y =
      let bound : time ≤ start n =
        Collected-least hls s 0 (inputs_of hls n) time (start n) c (omega arith) (
          All-map _ _ (inputs_of hls n) (λ i h. input-NoLater n i h.0 h.1)
            (All-zip _ _ (inputs_of hls n) ih (feasible n))) in
      elim (List-cases (hls.node n).depends_on) [
        | inl e ↦ absurd (ne e)
        | inr (d, ds, e) ↦
            zip_with_mono hls.normalized_clk_period time (start n) (hls.node n).latency_post
              (hls.node n).cycles_latency p a b bound (rw q at x)
              (rw (ap (out_times hls start n) e) at y)
      ]

  rank-NoLater : (k n : ℕ) → rank n < k → NoLater n
  rank-NoLater zero n h v p a b sv = absurd (omega arith)
  rank-NoLater (suc k) n h v p a b sv =
      Placed-NoLater n
        (zip_inputs-All (λ i. NoLater i.dep.obj) (λ d. rank d.obj < rank n) (λ l. Unit)
          (hls.node n).depends_on (hls.node n).latency_pre (hls.node n).in_cycles_offset
          (λ i d l. rank-NoLater k i.dep.obj (omega arith)) (acyclic n)
          (All-Unit (hls.node n).latency_pre))
        v p a b (inv n v sv)

-- No feasible schedule of a netlist without cycles, and without reads, writes and clusters of
-- bitwise operators, which are scheduled by methods of their own, has an output sooner than ASAP
-- scheduling.
pub run_asap_earliest :
    (hls : HlsPipeline) (rank start : ℕ → ℕ) (limit : ℕ) (t : Schedule)
    → IsPlain hls
    → ((n : ℕ) → All (λ d. rank d.obj < rank n) (hls.node n).depends_on)
    → IsFeasible hls start
    → run_asap hls limit unscheduled ≡ (ok tt, t)
    → (n : ℕ) (v : Scheduled) (p a b : ℕ) → t n ≡ some v
    → get_elem? v.scheduled_out p ≡ some a
    → get_elem? (outs hls start n) p ≡ some b
    → a ≤ b
run_asap_earliest hls rank start limit t plain acyclic feasible e n =
    rank-NoLater hls rank start t (run_asap-Inv hls limit t e).0 acyclic feasible (suc (rank n)) n
      (omega arith)

module _ (hls : HlsPipeline) where
  -- The input's value is there at `a`, and from the moment `at` on the operation can take it.
  abbrev pub InputTaken : Schedule → ℕ → InputTiming → Type 0
  InputTaken t time i =
      (a : ℕ) × Available t i.dep a
      × (at : ℕ) × (a ≤ at)
      × (at + i.in_delay < start_of_next_clk_period at hls.normalized_clk_period)
      × (at + i.in_delay + i.in_cycles * hls.normalized_clk_period ≤ time)

  Collected-taken :
      (t : Schedule) (best : ℕ) (is : List InputTiming) (time : ℕ)
      → Collected hls t best is time
      → All (InputTaken t time) is
  unfolding normalized_time
  Collected-taken t best [] time c = tt
  Collected-taken t best (i ∷ is) time (a, av, fast, c) =
      let (le, fits, _) = align_fits hls.normalized_clk_period a i.in_delay fast in
      let bound = Collected-le hls t (latest hls best a i) is time c in
      (
        (a, av, align hls.normalized_clk_period a i.in_delay, le, fits, ground arith),
        Collected-taken t (latest hls best a i) is time c,
      )

  -- ASAP scheduling is feasible itself: every scheduled node with drivers has one time for its
  -- operation, from which its `scheduledIn` and `scheduledOut` follow, and each input is taken
  -- when its value is there, with its delay inside of one clock period.
  pub run_asap_feasible :
      (limit : ℕ) (t : Schedule)
      → run_asap hls limit unscheduled ≡ (ok tt, t)
      → (n : ℕ) (v : Scheduled) → t n ≡ some v
      → ((hls.node n).depends_on ≢ [])
      → (time : ℕ) × (v ≡ place hls.normalized_clk_period (hls.node n) time)
        × All (InputTaken t time) (inputs_of hls n)
  run_asap_feasible limit t e n v tv ne = elim ((run_asap-Inv hls limit t e).0 n v tv) [
    | inl (e, _) ↦ absurd (ne e)
    | inr (time, _, c, q) ↦ (time, q, Collected-taken t 0 (inputs_of hls n) time c)
  ]
