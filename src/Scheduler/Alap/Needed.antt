-- ===== src/Scheduler/Alap/Needed.antt =====
-- No output of a node is placed after the time at which a user takes it.
use hwt_hls.Prelude.{
  ℕ, zero, suc, ◌+◌, ◌*◌, ◌<◌, ◌≡◌, refl, sym, ◌∙◌, ap, Option, none, some, List, [], ◌∷◌, ltb,
  get_elem?, Bool-cases, inl, inr, arith,
}
use hwt_hls.Prelude.Int.{ℤ, pos, ◌+ℤ◌, ◌-ℤ◌, ◌≤ℤ◌, int_laws}
use hwt_hls.Prelude.Result.{ok, err, both_return, time_constraint_error}
use hwt_hls.Clock.Signed.{start_clk_int-le}
use hwt_hls.Netlist.{HlsNetNodeIn}
use hwt_hls.Scheduler.Alap.{
  Times, AlapSchedule, AlapContext, clk_of, earlier, earliest_required, fit_input, fit_inputs,
  fill_unused, unused_time, least_after, zip_times, required_time, place_alap, min_time,
}
use hwt_hls.Scheduler.Alap.Rule.{Takes, Takes-unique, Needed, AllNeeded, AlapInv}

≤ℤ_trans : (a b c : ℤ) → a ≤ℤ b → b ≤ℤ c → a ≤ℤ c
≤ℤ_trans a b c h k = omega arith

earlier-le : (best : Option ℤ) (t : ℤ) → earlier best t ≤ℤ t
earlier-le none t = omega arith
earlier-le (some b) t = ground arith

earlier_some-le : (b t : ℤ) → earlier (some b) t ≤ℤ b
earlier_some-le b t = ground arith

Needed-le_best :
    (s : AlapSchedule) (b : ℤ) (us : List HlsNetNodeIn) (o : Option ℤ)
    → Needed s (some b) us o
    → (m : ℤ) × (o ≡ some m) × (m ≤ℤ b)
Needed-le_best s b [] o e = (b, sym e, omega arith)
Needed-le_best s b (u ∷ us) o (t, p, n) =
    let (m, e, h) = Needed-le_best s (earlier (some b) t) us o n in
    (m, e, ≤ℤ_trans m (earlier (some b) t) b h (earlier_some-le b t))

Needed-le :
    (s : AlapSchedule) (best : Option ℤ) (us : List HlsNetNodeIn) (o : Option ℤ) (i : ℕ)
    (u : HlsNetNodeIn) (b : ℤ)
    → Needed s best us o
    → get_elem? us i ≡ some u
    → Takes s u b
    → (m : ℤ) × (o ≡ some m) × (m ≤ℤ b)
Needed-le s best [] o i u b n h p = cc
Needed-le s best (w ∷ us) o zero u b (t, q, n) h p =
    let (m, e, k) = Needed-le_best s (earlier best t) us o n in
    let same : w ≡ u = cc in
    let time : t ≡ b = Takes-unique s u t b (rw (← same) q) p in
    (m, e, ≤ℤ_trans m (earlier best t) b k (rw (← time) (earlier-le best t)))
Needed-le s best (w ∷ us) o (suc i) u b (t, q, n) h p =
    Needed-le s (some (earlier best t)) us o i u b n h p

module _ (ctx : AlapContext) where
  fit_input-le : (t : ℤ) (d c : ℕ) → 0 < clk_of ctx → fit_input ctx t d c ≤ℤ t
  unfolding fit_input
  fit_input-le t d c h = let start = start_clk_int-le t (clk_of ctx) h in grind int_laws

  fit_inputs-le :
      (t r : ℤ) (ls cs : List ℕ) → 0 < clk_of ctx → fit_inputs ctx t ls cs ≡ ok r → r ≤ℤ t
  unfolding fit_inputs
  fit_inputs-le t r [] cs h e = ground arith
  fit_inputs-le t r (d ∷ ls) [] h e = ground arith
  fit_inputs-le t r (d ∷ ls) (c ∷ cs) h e =
      let rest = fit_inputs-le (fit_input ctx t d c) r ls cs h in
      let first = fit_input-le t d c h in
      elim (Bool-cases (ltb (d + ctx.ffdelay) (clk_of ctx))) [
        | inl b ↦ ≤ℤ_trans r (fit_input ctx t d c) t (rest (rw b at e)) first
        | inr b ↦ let bad : err time_constraint_error ≡ ok r = rw b at e in cc
      ]

  earliest_required-le_best :
      (b r : ℤ) (ts : List ℤ) (lps : List ℕ) → earliest_required ctx (some b) ts lps ≡ ok r → r ≤ℤ b
  unfolding earliest_required
  earliest_required-le_best b r [] lps e = ground arith
  earliest_required-le_best b r (t ∷ ts) [] e = ground arith
  earliest_required-le_best b r (t ∷ ts) (lp ∷ lps) e =
      ≤ℤ_trans r (earlier (some b) (t -ℤ pos lp)) b
        (earliest_required-le_best (earlier (some b) (t -ℤ pos lp)) r ts lps e)
        (earlier_some-le b (t -ℤ pos lp))

  earliest_required-le :
      (best : Option ℤ) (r t : ℤ) (ts : List ℤ) (lps : List ℕ) (o lp : ℕ)
      → earliest_required ctx best ts lps ≡ ok r
      → get_elem? ts o ≡ some t
      → get_elem? lps o ≡ some lp
      → r ≤ℤ t -ℤ pos lp
  unfolding earliest_required
  earliest_required-le best r t [] lps o lp e h k = cc
  earliest_required-le best r t (a ∷ ts) [] o lp e h k = cc
  earliest_required-le best r t (a ∷ ts) (l ∷ lps) zero lp e h k =
      let same : a -ℤ pos l ≡ t -ℤ pos lp = cc in
      ≤ℤ_trans r (earlier best (a -ℤ pos l)) (t -ℤ pos lp)
        (earliest_required-le_best (earlier best (a -ℤ pos l)) r ts lps e)
        (rw (← same) (earlier-le best (a -ℤ pos l)))
  earliest_required-le best r t (a ∷ ts) (l ∷ lps) (suc o) lp e h k =
      earliest_required-le (some (earlier best (a -ℤ pos l))) r t ts lps o lp e h k

  -- An output with users keeps the time at which they need it.
  fill_unused-used :
      (s : AlapSchedule) (least : Option ℤ) (asap : List ℕ) (uses : List (List HlsNetNodeIn))
      (outs : List (Option ℤ)) (o a i : ℕ) (us : List HlsNetNodeIn) (u : HlsNetNodeIn) (b : ℤ)
      → AllNeeded s asap uses outs
      → get_elem? asap o ≡ some a
      → get_elem? uses o ≡ some us
      → get_elem? us i ≡ some u
      → Takes s u b
      → (m : ℤ) × (get_elem? (fill_unused ctx least asap outs) o ≡ some m) × (m ≤ℤ b)
  unfolding fill_unused
  fill_unused-used s least [] uses outs o a i us u b n h k l p = cc
  fill_unused-used s least (_ ∷ asap) [] outs o a i us u b n h k l p = cc
  fill_unused-used s least (w ∷ asap) (ws ∷ uses) outs zero a i us u b (t, more, e, n, ns) h k l p =
      let same : ws ≡ us = cc in
      let (m, f, q) = Needed-le s none us t i u b (rw (← same) n) l p in
      let filled : outs ≡ some m ∷ more = e ∙ ap (λ x. x ∷ more) f in (m, rw filled refl, q)
  fill_unused-used s least (w ∷ asap) (ws ∷ uses) outs (suc o) a i us u b (none, more, e, n, ns) h k
        l p =
      let (m, f, q) =
        fill_unused-used s (least_after ctx least (unused_time ctx least w)) asap uses more o a i us
          u b ns h k l p in
      (m, rw e f, q)
  fill_unused-used s least (w ∷ asap) (ws ∷ uses) outs (suc o) a i us u b (some t, more, e, n, ns) h
        k l p =
      let (m, f, q) = fill_unused-used s least asap uses more o a i us u b ns h k l p in
      (m, rw e f, q)

  get_elem-zip_times :
      (f : ℕ → ℕ → ℤ) (xs ys : List ℕ) (o : ℕ) (t : ℤ)
      → get_elem? (zip_times ctx f xs ys) o ≡ some t
      → (x y : ℕ) × (get_elem? xs o ≡ some x) × (get_elem? ys o ≡ some y) × (t ≡ f x y)
  unfolding zip_times
  get_elem-zip_times f [] ys o t h = cc
  get_elem-zip_times f (x ∷ xs) [] o t h = cc
  get_elem-zip_times f (x ∷ xs) (y ∷ ys) zero t h = (x, y, refl, refl, cc)
  get_elem-zip_times f (x ∷ xs) (y ∷ ys) (suc o) t h = get_elem-zip_times f xs ys o t h

  required_time-le :
      (n o lp : ℕ) (ts : List ℤ) (r t : ℤ)
      → 0 < clk_of ctx
      → required_time ctx n ts ≡ ok r
      → get_elem? ts o ≡ some t
      → get_elem? (ctx.hls.node n).latency_post o ≡ some lp
      → r ≤ℤ t -ℤ pos lp
  unfolding required_time
  required_time-le n o lp [] r t c e h k = cc
  required_time-le n o lp (a ∷ ts) r t c e h k =
      let (m, f, g) = both_return _ _ e in
      ≤ℤ_trans r m (t -ℤ pos lp)
        (fit_inputs-le m r (ctx.hls.node n).latency_pre (ctx.hls.node n).in_cycles_offset c g)
        (earliest_required-le none m t (a ∷ ts) (ctx.hls.node n).latency_post o lp f h k)

  placed_in_time :
      (r t m b : ℤ) (x clk : ℕ)
      → t ≡ r +ℤ pos x +ℤ pos (0 * clk)
      → r ≤ℤ m -ℤ pos x
      → m ≤ℤ b
      → t ≤ℤ b
  placed_in_time r t m b x clk e h k = grind int_laws

  -- In a schedule where every node has the times that the ALAP compaction computes from those of
  -- its users, with a clock period that is not 0, an output whose value needs no clock cycle
  -- more is ready no later than at the time at which any of its users takes it.
  pub scheduled_out-Needed :
      (s : AlapSchedule) (n o i asap : ℕ) (v : Times) (us : List HlsNetNodeIn) (u : HlsNetNodeIn)
      (t b : ℤ)
      → AlapInv ctx s
      → 0 < clk_of ctx
      → s n ≡ some v
      → get_elem? (ctx.hls.node n).cycles_latency o ≡ some 0
      → get_elem? (ctx.asap n).scheduled_out o ≡ some asap
      → get_elem? (ctx.hls.node n).used_by o ≡ some us
      → get_elem? us i ≡ some u
      → Takes s u b
      → get_elem? v.scheduled_out o ≡ some t
      → t ≤ℤ b
  unfolding place_alap
  scheduled_out-Needed s n o i asap v us u t b inv c sn zero_cycles at used user takes ready =
      let (outs, r, needed, timed, placed) = inv n v sn in
      let (m, filled, in_time) =
        fill_unused-used s (min_time none outs) (ctx.asap n).scheduled_out (ctx.hls.node n).used_by
          outs o asap i us u b needed at used user takes in
      let (x, y, post, cycles, e) =
        get_elem-zip_times _ (ctx.hls.node n).latency_post (ctx.hls.node n).cycles_latency o t
          (rw placed at ready) in
      let no_cycle : y ≡ 0 = cc in
      placed_in_time r t m b x (clk_of ctx) (rw no_cycle at e)
        (required_time-le n o x
          (fill_unused ctx (min_time none outs) (ctx.asap n).scheduled_out outs) r m c timed filled
          post)
        in_time
