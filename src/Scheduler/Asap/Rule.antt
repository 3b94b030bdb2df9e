-- ===== src/Scheduler/Asap/Rule.antt =====
-- One induction over the recursion of ASAP scheduling, for every claim about how it may fail.
use hwt_hls.Prelude.{
  ℕ, zero, suc, ◌≡◌, refl, inl, inr, true, false, Option, none, some, List, [], ◌∷◌, ltb, ltb→lt,
  get_elem?, All, arith,
}
use hwt_hls.Prelude.Result.{
  Error, Result, ok, err, index, require, recursion_error, index_error, time_constraint_error,
}
use hwt_hls.Netlist.{HlsPipeline, iter_all_nodes}
use hwt_hls.Scheduler.State.{Scheduled, Schedule, unscheduled, Run, lift}
use hwt_hls.Scheduler.Ensures.{
  Ensures, weaken, bind_rule, consequence, lookup_rule, require_rule, lift_rule,
}
use hwt_hls.Scheduler.Asap.{
  InputTiming, place, place_source, enter, input_times, inputs_of, latest, record_schedule,
  node_body, schedule_node, asap_body, schedule_asap, schedule_each, retry_for_debug,
}
use hwt_hls.Scheduler.Asap.Derivation.{Collected, Placed, Inv, assign-Extends, assign-Inv}

module _ (hls : HlsPipeline) where
  -- A visit of `n` schedules it and returns the times of its outputs.
  abbrev pub Visited : ℕ → List ℕ → Schedule → Type 0
  Visited n outs t = (v : Scheduled) × (t n ≡ some v) × (outs ≡ v.scheduled_out)

  abbrev pub IsScheduled : Schedule → ℕ → Type 0
  IsScheduled t n = (v : Scheduled) × (t n ≡ some v)

  -- An input may be visited under `V`, and what may be raised about it satisfies `E`.
  abbrev pub InputRule : (Error → Type 0) → (ℕ → Type 0) → InputTiming → Type 0
  InputRule E V i =
      V i.dep.obj
      × ((s : Schedule) (v : Scheduled)
          → Placed hls s i.dep.obj v
          → get_elem? v.scheduled_out i.dep.out_i ≡ none
          → E index_error)
      × (ltb i.in_delay hls.normalized_clk_period ≡ false → E time_constraint_error)

  -- `C limit path n` allows a call with that much of the stack left.
  pub record Rule (E : Error → Type 0) (C : ℕ → Option (List ℕ) → ℕ → Type 0) : Type 0 where
    pub overflow : (path : Option (List ℕ)) (n : ℕ) → C zero path n → E recursion_error
    pub cycle :
        (limit : ℕ) (path : Option (List ℕ)) (n : ℕ) (e : Error)
        → C (suc limit) path n
        → enter path n ≡ err e
        → E e
    pub inputs :
        (limit : ℕ) (path path' : Option (List ℕ)) (n : ℕ)
        → C (suc limit) path n
        → enter path n ≡ ok path'
        → All (InputRule E (C limit path')) (inputs_of hls n)

  -- Writing the derived times of the node itself.
  record_schedule-Ensures :
      (E : Error → Type 0) (n : ℕ) (w : Scheduled) (s : Schedule)
      → Inv hls s
      → Placed hls s n w
      → Ensures (Inv hls) E s (Visited n) (record_schedule hls n w s)
  record_schedule-Ensures E n w s inv p =
      (assign-Inv hls s n w inv p, assign-Extends hls s n w inv p, (w, ground arith, refl))

  module _ (E : Error → Type 0) (V : ℕ → Type 0) (visit : ℕ → Run (List ℕ))
      (visits : (n : ℕ) (s : Schedule)
        → V n
        → Inv hls s
        → Ensures (Inv hls) E s (Visited n) (visit n s)) where
    input_times-Ensures :
        (best : ℕ) (is : List InputTiming) (s : Schedule)
        → All (InputRule E V) is
        → Inv hls s
        → Ensures
            (Inv hls)
            E
            s
            (λ time t. Collected hls t best is time)
            (input_times hls visit best is s)
    unfolding input_times
    input_times-Ensures best [] s h inv = (inv, λ n v x. x, refl)
    input_times-Ensures best (i ∷ is) s ((v, bad_port, slow), h) inv =
        bind_rule (Inv hls) E s (Visited i.dep.obj) _ (visit i.dep.obj) _ (visits i.dep.obj s v inv)
          λ outs t inv_t s_t (w, tw, e).
            bind_rule (Inv hls) E t (λ a u. get_elem? outs i.dep.out_i ≡ some a) _
              (lift (index outs i.dep.out_i)) _
              (lookup_rule (Inv hls) E t (get_elem? outs i.dep.out_i) inv_t
                (λ none_at. bad_port t w (inv_t i.dep.obj w tw) (rw e at none_at)))
              λ a u inv_u t_u at.
                bind_rule (Inv hls) E u (λ _ _. ltb i.in_delay hls.normalized_clk_period ≡ true) _
                  (lift (require (ltb i.in_delay hls.normalized_clk_period) time_constraint_error))
                  _ (require_rule (Inv hls) E u _ time_constraint_error inv_u slow)
                  λ _ x inv_x u_x fast.
                    consequence (Inv hls) E x
                      (λ time y. Collected hls y (latest hls best a i) is time) _
                      (input_times hls visit (latest hls best a i) is x)
                      (input_times-Ensures (latest hls best a i) is x h inv_x)
                      λ time y x_y c.
                        (a, (w, x_y _ w (u_x _ w (t_u _ w tw)), rw e at at), ltb→lt _ _ fast, c)

  module _ (E : Error → Type 0) (C : ℕ → Option (List ℕ) → ℕ → Type 0) (rule : Rule E C) where
    schedule_node-Ensures :
        (limit : ℕ) (path : Option (List ℕ)) (n : ℕ) (s : Schedule)
        → ((path' : Option (List ℕ)) (m : ℕ) (t : Schedule)
            → C limit path' m
            → Inv hls t
            → Ensures (Inv hls) E t (Visited m) (schedule_asap hls limit path' m t))
        → C (suc limit) path n
        → Inv hls s
        → Ensures (Inv hls) E s (Visited n) (schedule_node hls (schedule_asap hls limit) path n s)
    unfolding schedule_node
    schedule_node-Ensures limit path n s ih c inv =
        (elim (hls.node n).depends_on
            as (λ ds.
              (hls.node n).depends_on ≡ ds
              → Ensures (Inv hls) E s (Visited n)
                  (node_body hls (schedule_asap hls limit) path n ds s)) [
                    | [] ↦ λ e.
                        record_schedule-Ensures E n (place_source (hls.node n)) s inv
                          (inl (e, refl))
                    | d ∷ ds ↦ λ e.
                        bind_rule (Inv hls) E s (λ path' t. enter path n ≡ ok path') _
                          (lift (enter path n)) _
                          (lift_rule (Inv hls) E s (enter path n) inv
                            (λ x. rule.cycle limit path n x c))
                          λ path' t inv_t s_t entered.
                            bind_rule (Inv hls) E t
                              (λ time u. Collected hls u 0 (inputs_of hls n) time) _
                              (input_times hls (schedule_asap hls limit path') 0 (inputs_of hls n))
                              _
                              (input_times-Ensures E (C limit path') (schedule_asap hls limit path')
                                (λ m u allowed inv_u. ih path' m u allowed inv_u) 0
                                (inputs_of hls n) t (rule.inputs limit path path' n c entered)
                                inv_t)
                              λ time u inv_u t_u collected.
                                record_schedule-Ensures E n
                                  (place hls.normalized_clk_period (hls.node n) time) u inv_u
                                  (inr (time, λ none_given. cc, collected, refl))
                  ])
          refl

    asap_body-Ensures :
        (limit : ℕ) (path : Option (List ℕ)) (n : ℕ) (s : Schedule)
        → ((path' : Option (List ℕ)) (m : ℕ) (t : Schedule)
            → C limit path' m
            → Inv hls t
            → Ensures (Inv hls) E t (Visited m) (schedule_asap hls limit path' m t))
        → C (suc limit) path n
        → Inv hls s
        → (o : Option Scheduled) → s n ≡ o
        → Ensures (Inv hls) E s (Visited n) (asap_body hls (schedule_asap hls limit) path n o s)
    asap_body-Ensures limit path n s ih c inv none e = schedule_node-Ensures limit path n s ih c inv
    asap_body-Ensures limit path n s ih c inv (some v) e = (inv, λ m w x. x, (v, e, refl))

    -- Every call keeps the invariant and schedules its node, whatever is raised.
    pub schedule_asap-Ensures :
        (limit : ℕ) (path : Option (List ℕ)) (n : ℕ) (s : Schedule)
        → C limit path n
        → Inv hls s
        → Ensures (Inv hls) E s (Visited n) (schedule_asap hls limit path n s)
    unfolding schedule_asap
    schedule_asap-Ensures zero path n s c inv = (inv, λ m v x. x, rule.overflow path n c)
    schedule_asap-Ensures (suc limit) path n s c inv =
        asap_body-Ensures limit path n s
          (λ path' m t d inv_t. schedule_asap-Ensures limit path' m t d inv_t) c inv (s n) refl

    -- The loop over all nodes schedules each of them.
    pub schedule_each-Ensures :
        (limit : ℕ) (path : Option (List ℕ)) (ns : List ℕ) (s : Schedule)
        → All (C limit path) ns
        → Inv hls s
        → Ensures (Inv hls) E s (λ _ t. All (IsScheduled t) ns) (schedule_each hls limit path ns s)
    unfolding schedule_each
    schedule_each-Ensures limit path [] s c inv = (inv, λ m w x. x, tt)
    schedule_each-Ensures limit path (n ∷ ns) s (c, cs) inv =
        bind_rule (Inv hls) E s (Visited n) _ (schedule_asap hls limit path n) _
          (schedule_asap-Ensures limit path n s c inv)
          λ outs t inv_t s_t (v, tv, _).
            consequence (Inv hls) E t (λ _ u. All (IsScheduled u) ns) _
              (schedule_each hls limit path ns t) (schedule_each-Ensures limit path ns t cs inv_t)
              λ _ u t_u rest. ((v, t_u n v tv), rest)

  -- What the first run leaves, and what the debug run does from there.
  pub retry_rule :
      (E F : Error → Type 0) (s : Schedule) (Q : Unit {0} → Schedule → Type 0) (limit : ℕ)
      (r : Result (Unit {0}) × Schedule)
      → Ensures (Inv hls) E s Q r
      → ((e : Error) → (e ≡ recursion_error → ⊥) → E e → F e)
      → ((t : Schedule)
          → Inv hls t
          → E recursion_error
          → Ensures (Inv hls) F t Q (schedule_each hls limit (some []) (iter_all_nodes hls) t))
      → Ensures (Inv hls) F s Q (retry_for_debug hls limit r)
  unfolding retry_for_debug
  retry_rule E F s Q limit (ok a, t) h k d = h
  retry_rule E F s Q limit (err recursion_error, t) (inv, x, e) k d =
      weaken (Inv hls) F s t Q (schedule_each hls limit (some []) (iter_all_nodes hls) t) x
        (d t inv e)
  retry_rule E F s Q limit (err e, t) (inv, x, h) k d = (inv, x, k _ (λ p. cc) h)

  pub unscheduled-Inv : Inv hls unscheduled
  unscheduled-Inv n v h = cc
