-- ===== src/Scheduler/Asap/Cycle.antt =====
-- What the debug run of ASAP scheduling reports is a cycle.
use hwt_hls.Prelude.{
  ℕ, ◌≡◌, refl, inl, inr, Bool-cases, none, some, Option, List, [], ◌∷◌, Memᴰ, contains,
  contains-mem, All, All-Unit, subst, arith,
}
use mathlib.Core.List.Memᴰ
use hwt_hls.Prelude.Result.{Error, ok, err, cycle_error}
use hwt_hls.Netlist.{HlsNetNodeOut, HlsPipeline, iter_all_nodes}
use hwt_hls.Scheduler.State.{Schedule, unscheduled}
use hwt_hls.Scheduler.Asap.{enter, run_asap}
use hwt_hls.Scheduler.Asap.Inputs.{zip_inputs-All}
use hwt_hls.Scheduler.Asap.Derivation.{Inv}
use hwt_hls.Scheduler.Ensures.{Ensures}
use hwt_hls.Scheduler.Asap.Rule.{
  InputRule, IsScheduled, Rule, retry_rule, schedule_each-Ensures, unscheduled-Inv,
}

module _ (hls : HlsPipeline) where
  -- `n` drives an input of `m`.
  abbrev pub Depends : ℕ → ℕ → Type 0
  Depends m n = (p : ℕ) × Memᴰ (record { obj = n; out_i = p }) (hls.node m).depends_on

  -- A walk along one dependency at least.
  pub data Walk (a : ℕ) : ℕ → Type 0 where
    one : {b : ℕ} → Depends a b → Walk a b
    more : {b c : ℕ} → Walk a b → Depends b c → Walk a c

  abbrev IsStack : List ℕ → ℕ → Type 0
  IsStack [] n = Unit
  IsStack (m ∷ path) n = Depends m n × IsStack path m

  stack-Walk : (path : List ℕ) (k n : ℕ) → IsStack path n → Memᴰ k path → Walk k n
  stack-Walk [] k n h m = absurd (Memᴰ.not-nil m)
  stack-Walk (x ∷ path) k n (d, h) (Memᴰ.head e) = rw e (one d)
  stack-Walk (x ∷ path) k n (d, h) (Memᴰ.tail m) = more (stack-Walk path k x h m) d

  abbrev Reports : Error → Type 0
  Reports (cycle_error k) = Walk k k
  Reports other = Unit

  abbrev Stacked : ℕ → Option (List ℕ) → ℕ → Type 0
  Stacked limit none n = Unit
  Stacked limit (some path) n = IsStack path n

  depends_all :
      (n : ℕ) (V : ℕ → Type 0)
      → ((m : ℕ) → Depends n m → V m)
      → (ds : List HlsNetNodeOut)
      → ((d : HlsNetNodeOut) → Memᴰ d ds → Memᴰ d (hls.node n).depends_on)
      → All (λ d. V d.obj) ds
  depends_all n V f [] sub = tt
  depends_all n V f (d ∷ ds) sub =
      (f d.obj (d.out_i, sub d (Memᴰ.head refl)), depends_all n V f ds (λ e m. sub e (Memᴰ.tail m)))

  found :
      (path : Option (List ℕ)) (n limit : ℕ) (e : Error)
      → Stacked limit path n
      → enter path n ≡ err e
      → Reports e
  unfolding enter
  found none n limit e c x = cc
  found (some path) n limit e c x = elim (Bool-cases (contains path n)) [
    | inl h ↦
        let same : cycle_error n ≡ e = ground arith in
        subst Reports same (stack-Walk path n n c (contains-mem path n h))
    | inr h ↦ ground arith
  ]

  pushed :
      (limit : ℕ) (path path' : Option (List ℕ)) (n m : ℕ)
      → Stacked limit path n
      → enter path n ≡ ok path'
      → Depends n m
      → Stacked limit path' m
  unfolding enter
  pushed limit none path' n m c x d =
      let none_pushed : none ≡ path' = cc in subst (λ p. Stacked limit p m) none_pushed tt
  pushed limit (some path) path' n m c x d = elim (Bool-cases (contains path n)) [
    | inl h ↦ absurd (ground arith)
    | inr h ↦
        let one_pushed : some (n ∷ path) ≡ path' = ground arith in
        subst (λ p. Stacked limit p m) one_pushed (d, c)
  ]

  stack_rule : Rule hls Reports Stacked
  unfolding enter
  stack_rule = record {
    overflow = λ path n c. tt;
    cycle = λ limit path n e c x. found path n limit e c x;
    inputs = λ limit path path' n c x.
        zip_inputs-All (InputRule hls Reports (Stacked limit path'))
          (λ d. Stacked limit path' d.obj) (λ l. Unit) (hls.node n).depends_on
          (hls.node n).latency_pre (hls.node n).in_cycles_offset
          (λ i d l. (d, λ s v p e. tt, λ e. tt))
          (depends_all n (Stacked limit path') (λ m d. pushed limit path path' n m c x d)
            (hls.node n).depends_on (λ d m. m))
          (All-Unit (hls.node n).latency_pre);
  }

  -- A node that the debug run of ASAP scheduling reports lies on a cycle of dependencies.
  pub run_asap_cycle :
      (limit k : ℕ) (t : Schedule)
      → run_asap hls limit unscheduled ≡ (err (cycle_error k), t)
      → Walk k k
  unfolding run_asap
  run_asap_cycle limit k t e =
      let Done = λ (u : Unit {0}) (t : Schedule). All (IsScheduled hls t) (iter_all_nodes hls) in
      let each = λ (path : Option (List ℕ)) (s : Schedule).
        schedule_each-Ensures hls Reports Stacked stack_rule limit path (iter_all_nodes hls) s in
      let all =
        retry_rule hls Reports Reports unscheduled Done limit _
          (each none unscheduled (All-Unit (iter_all_nodes hls)) (unscheduled-Inv hls)) (λ e n h. h)
          (λ s inv h. each (some []) s (All-Unit (iter_all_nodes hls)) inv) in
      (subst (Ensures (Inv hls) Reports unscheduled Done) e all).2
