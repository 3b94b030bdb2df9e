-- ===== src/Scheduler/Alap/InTime.antt =====
-- Between an output of a node and its users, after a call of the ALAP compaction.
use hwt_hls.Prelude.{ℕ, zero, suc, ◌<◌, ◌≡◌, Option, none, some, List, [], ◌∷◌, get_elem?}
use hwt_hls.Prelude.Int.{ℤ, ◌≤ℤ◌}
use hwt_hls.Prelude.Result.{Result, ok, err}
use hwt_hls.Netlist.{HlsNetNodeIn}
use hwt_hls.Scheduler.Methods.{IsPlain}
use hwt_hls.Scheduler.Ensures.{Ensures}
use hwt_hls.Scheduler.Alap.{Times, AlapSchedule, AlapContext, clk_of, earlier, schedule_alap}
use hwt_hls.Scheduler.Alap.Rule.{Takes, Needed, AllNeeded, AlapInv}
use hwt_hls.Scheduler.Alap.Correct.{Anything, Visited, schedule_alap-PlacedLate}
use hwt_hls.Scheduler.Alap.Needed.{scheduled_out-Needed}

-- A schedule that has no node yet.
abbrev pub nothing_scheduled : AlapSchedule
nothing_scheduled n = none

Needed-Takes :
    (s : AlapSchedule) (best : Option ℤ) (us : List HlsNetNodeIn) (o : Option ℤ) (i : ℕ)
    (u : HlsNetNodeIn)
    → Needed s best us o
    → get_elem? us i ≡ some u
    → (b : ℤ) × Takes s u b
Needed-Takes s best [] o i u n h = cc
Needed-Takes s best (w ∷ us) o zero u (t, q, n) h = let same : w ≡ u = cc in (t, rw (← same) q)
Needed-Takes s best (w ∷ us) o (suc i) u (t, q, n) h =
    Needed-Takes s (some (earlier best t)) us o i u n h

AllNeeded-Takes :
    (s : AlapSchedule) (asap : List ℕ) (uses : List (List HlsNetNodeIn)) (os : List (Option ℤ))
    (o a i : ℕ) (us : List HlsNetNodeIn) (u : HlsNetNodeIn)
    → AllNeeded s asap uses os
    → get_elem? asap o ≡ some a
    → get_elem? uses o ≡ some us
    → get_elem? us i ≡ some u
    → (b : ℤ) × Takes s u b
AllNeeded-Takes s [] uses os o a i us u n h k l = cc
AllNeeded-Takes s (w ∷ asap) [] os o a i us u n h k l = cc
AllNeeded-Takes s (w ∷ asap) (ws ∷ uses) os zero a i us u (t, more, e, n, ns) h k l =
    let same : ws ≡ us = cc in Needed-Takes s none us t i u (rw (← same) n) l
AllNeeded-Takes s (w ∷ asap) (ws ∷ uses) os (suc o) a i us u (t, more, e, n, ns) h k l =
    AllNeeded-Takes s asap uses more o a i us u ns h k l

module _ (ctx : AlapContext) where
  left-AlapInv :
      (n : ℕ) (s : AlapSchedule) (r : Result (List ℤ) × AlapSchedule)
      → Ensures (AlapInv ctx) Anything s (Visited n) r
      → AlapInv ctx r.1
  left-AlapInv n s (ok ins, t) h = h.0
  left-AlapInv n s (err e, t) h = h.0

  -- A call of the ALAP compaction for a node, from an empty schedule, with a clock period that
  -- is not 0 and without reads, writes and clusters of bitwise operators, leaves a schedule of
  -- this kind, whether it returns or raises: where a node is in the schedule and its ASAP
  -- schedule has an output, every user of the output is in the schedule as well, and an output
  -- whose value needs no clock cycle more is ready no later than at the time at which the user
  -- takes it.
  pub schedule_alap_in_time :
      (limit n m o i asap : ℕ) (v : Times) (us : List HlsNetNodeIn) (u : HlsNetNodeIn) (t : ℤ)
      → IsPlain ctx.hls
      → 0 < clk_of ctx
      → (schedule_alap ctx limit n nothing_scheduled).1 m ≡ some v
      → get_elem? (ctx.asap m).scheduled_out o ≡ some asap
      → get_elem? (ctx.hls.node m).used_by o ≡ some us
      → get_elem? us i ≡ some u
      → get_elem? (ctx.hls.node m).cycles_latency o ≡ some 0
      → get_elem? v.scheduled_out o ≡ some t
      → (b : ℤ) × Takes (schedule_alap ctx limit n nothing_scheduled).1 u b × (t ≤ℤ b)
  schedule_alap_in_time limit n m o i asap v us u t plain c there at used user zero_cycles ready =
      let after = (schedule_alap ctx limit n nothing_scheduled).1 in
      let run = schedule_alap-PlacedLate ctx limit n nothing_scheduled (λ k w h. cc) in
      let inv =
        left-AlapInv n nothing_scheduled (schedule_alap ctx limit n nothing_scheduled) run in
      let (outs, _, needed, _, _) = inv m v there in
      let (b, takes) =
        AllNeeded-Takes after (ctx.asap m).scheduled_out (ctx.hls.node m).used_by outs o asap i us u
          needed at used user in
      (
        b,
        takes,
        scheduled_out-Needed ctx after m o i asap v us u t b inv c there zero_cycles at used user
            takes ready,
      )
