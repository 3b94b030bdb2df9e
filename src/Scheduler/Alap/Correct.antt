-- ===== src/Scheduler/Alap/Correct.antt =====
-- The recursion of the ALAP compaction keeps its invariant, whatever it raises.
use hwt_hls.Prelude.{
  ℕ, zero, suc, ◌≡◌, refl, Option, none, some, List, [], ◌∷◌, get_elem?, true, arith,
}
use hwt_hls.Prelude.Int.{ℤ}
use hwt_hls.Prelude.Result.{Error, ok, index, require, assertion_error}
use hwt_hls.Netlist.{HlsNetNodeIn}
use hwt_hls.Scheduler.State.{RunOn, lift}
use hwt_hls.Scheduler.Ensures.{
  Ensures, bind_rule, consequence, lookup_rule, require_rule, lift_rule,
}
use hwt_hls.Scheduler.Alap.{
  Times, AlapSchedule, AlapContext, earlier, use_times, out_times, has_any, place_alap,
  record_times, schedule_node_alap, alap_body, schedule_alap,
}
use hwt_hls.Scheduler.Alap.Rule.{
  Needed, AllNeeded, Needed-Extends, AllNeeded-Extends, node_time, PlacedLate, AlapInv,
  written-Extends, written-AlapInv,
}

-- Anything may be raised.
abbrev pub Anything : Error → Type 0
Anything e = Unit

-- A visit of `n` schedules it and returns the times of its inputs.
abbrev pub Visited : ℕ → List ℤ → AlapSchedule → Type 0
Visited n ins t = (v : Times) × (t n ≡ some v) × (ins ≡ v.scheduled_in)

module _ (ctx : AlapContext) where
  record_times-Ensures :
      (n : ℕ) (v : Times) (s : AlapSchedule)
      → AlapInv ctx s
      → PlacedLate ctx s n v
      → Ensures (AlapInv ctx) Anything s (Visited n) (record_times ctx n v s)
  record_times-Ensures n v s inv p =
      (written-AlapInv ctx s n v inv p, written-Extends ctx s n v inv p, (v, ground arith, refl))

  module _ (visit : ℕ → RunOn AlapSchedule (List ℤ))
      (visits : (n : ℕ) (s : AlapSchedule)
        → AlapInv ctx s
        → Ensures (AlapInv ctx) Anything s (Visited n) (visit n s)) where
    use_times-Ensures :
        (best : Option ℤ) (us : List HlsNetNodeIn) (s : AlapSchedule)
        → AlapInv ctx s
        → Ensures (AlapInv ctx) Anything s (λ o t. Needed t best us o) (use_times visit best us s)
    unfolding use_times
    use_times-Ensures best [] s inv = (inv, λ n v x. x, refl)
    use_times-Ensures best (u ∷ us) s inv =
        bind_rule (AlapInv ctx) Anything s (Visited u.obj) _ (visit u.obj) _ (visits u.obj s inv)
          λ ins t inv_t s_t (v, tv, e).
            bind_rule (AlapInv ctx) Anything t (λ a _. get_elem? ins u.in_i ≡ some a) _
              (lift (index ins u.in_i)) _
              (lookup_rule (AlapInv ctx) Anything t (get_elem? ins u.in_i) inv_t (λ _. tt))
              λ a x inv_x t_x at.
                consequence (AlapInv ctx) Anything x (λ o y. Needed y (some (earlier best a)) us o)
                  _ (use_times visit (some (earlier best a)) us x)
                  (use_times-Ensures (some (earlier best a)) us x inv_x)
                  λ o y x_y rest. (a, (v, x_y u.obj v (t_x u.obj v tv), rw e at at), rest)

    out_times-Ensures :
        (asap : List ℕ) (uses : List (List HlsNetNodeIn)) (s : AlapSchedule)
        → AlapInv ctx s
        → Ensures
            (AlapInv ctx)
            Anything
            s
            (λ os t. AllNeeded t asap uses os)
            (out_times visit asap uses s)
    unfolding out_times
    out_times-Ensures [] uses s inv = (inv, λ n v x. x, refl)
    out_times-Ensures (_ ∷ asap) [] s inv = (inv, λ n v x. x, refl)
    out_times-Ensures (_ ∷ asap) (us ∷ rest) s inv =
        bind_rule (AlapInv ctx) Anything s (λ o t. Needed t none us o) _ (use_times visit none us) _
          (use_times-Ensures none us s inv)
          λ o t inv_t s_t first.
            bind_rule (AlapInv ctx) Anything t (λ os x. AllNeeded x asap rest os) _
              (out_times visit asap rest) _ (out_times-Ensures asap rest t inv_t)
              λ os x inv_x t_x more.
                (inv_x, λ n v h. h, (o, os, refl, Needed-Extends t x none us o t_x first, more))

    schedule_node_alap-Ensures :
        (n : ℕ) (s : AlapSchedule)
        → AlapInv ctx s
        → Ensures (AlapInv ctx) Anything s (Visited n) (schedule_node_alap ctx visit n s)
    unfolding schedule_node_alap
    schedule_node_alap-Ensures n s inv =
        bind_rule (AlapInv ctx) Anything s (λ _ _. has_any (ctx.hls.node n).used_by ≡ true) _
          (lift (require (has_any (ctx.hls.node n).used_by) assertion_error)) _
          (require_rule (AlapInv ctx) Anything s _ assertion_error inv (λ _. tt))
          λ _ t inv_t s_t some_out.
            bind_rule (AlapInv ctx) Anything t
              (λ os x. AllNeeded x (ctx.asap n).scheduled_out (ctx.hls.node n).used_by os) _
              (out_times visit (ctx.asap n).scheduled_out (ctx.hls.node n).used_by) _
              (out_times-Ensures (ctx.asap n).scheduled_out (ctx.hls.node n).used_by t inv_t)
              λ os x inv_x t_x needed.
                bind_rule (AlapInv ctx) Anything x (λ a _. node_time ctx n os ≡ ok a) _
                  (lift (node_time ctx n os)) _
                  (lift_rule (AlapInv ctx) Anything x (node_time ctx n os) inv_x (λ _ _. tt))
                  λ a y inv_y x_y timed.
                    record_times-Ensures n (place_alap ctx (ctx.hls.node n) a) y inv_y (
                      os,
                      a,
                      AllNeeded-Extends x y (ctx.asap n).scheduled_out (ctx.hls.node n).used_by os
                          x_y needed,
                      timed,
                      refl,
                    )

    alap_body-Ensures :
        (n : ℕ) (s : AlapSchedule) (o : Option Times)
        → s n ≡ o
        → AlapInv ctx s
        → Ensures (AlapInv ctx) Anything s (Visited n) (alap_body ctx visit n o s)
    alap_body-Ensures n s none e inv = schedule_node_alap-Ensures n s inv
    alap_body-Ensures n s (some v) e inv = (inv, λ m w x. x, (v, e, refl))

  -- A call of the ALAP compaction on any node, from a schedule in which every scheduled node has
  -- the times that the compaction computes from those of its users: whatever it returns or raises, the schedule it leaves
  -- is again such a schedule, what was scheduled stays as it was, and a returned value is the
  -- times of the inputs of the node, which is now scheduled.
  pub schedule_alap-PlacedLate :
      (limit n : ℕ) (s : AlapSchedule)
      → AlapInv ctx s
      → Ensures (AlapInv ctx) Anything s (Visited n) (schedule_alap ctx limit n s)
  unfolding schedule_alap
  schedule_alap-PlacedLate zero n s inv = (inv, λ m w x. x, tt)
  schedule_alap-PlacedLate (suc limit) n s inv =
      alap_body-Ensures (schedule_alap ctx limit) (λ m t i. schedule_alap-PlacedLate limit m t i) n
        s (s n) refl inv
