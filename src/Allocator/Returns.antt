-- ===== src/Allocator/Returns.antt =====
-- Without persistence ranges, reading a `TimeIndependentRtlResource` works at every time from its
-- first period on.
use hwt_hls.Prelude.{
  ℕ, zero, suc, ◌+◌, ◌-◌, ◌≤◌, ◌≡◌, refl, sym, ap, ◌∙◌, subst, Bool, none, some, List, [], ◌∷◌,
  ◌++◌, ltb, ◌==◌, Option, length, get_elem?, Bool-cases, inl, inr, arith,
}
use hwt_hls.Prelude.Result.{ok}
use hwt_hls.Clock.{start_clk}
use hwt_hls.Allocator.{
  TimeIndependentRtlResourceItem, reg, TimeIndependentRtlResource, is_in_persistence_ranges, Got,
  next_item, add_regs, last_item, look_up, get_now, get, original,
}
use hwt_hls.Allocator.Delays.{delay, edges, IsDelayed, Delayed, get-Delayed}

abbrev Returns : Got → Type 0
Returns r =
    (x : TimeIndependentRtlResourceItem) × (values : List TimeIndependentRtlResourceItem) × (r
      ≡ (ok x, values))

add_regs-Returns :
    (is_sync : Bool) (dst i : ℕ) (prev : TimeIndependentRtlResourceItem)
    (values : List TimeIndependentRtlResourceItem)
    → Returns (add_regs is_sync [] dst i prev values)
unfolding add_regs next_item is_in_persistence_ranges
add_regs-Returns is_sync dst zero prev values = (prev, values, refl)
add_regs-Returns is_sync dst (suc i) prev values =
    add_regs-Returns is_sync dst i (reg (dst - i) prev) (values ++ reg (dst - i) prev ∷ [])

look_up-Returns :
    (is_sync : Bool) (dst i : ℕ) (o : Option TimeIndependentRtlResourceItem)
    (values : List TimeIndependentRtlResourceItem)
    → Returns (look_up is_sync [] dst i o values)
unfolding look_up
look_up-Returns is_sync dst i none values =
    add_regs-Returns is_sync dst (i + 1 - length values) (last_item original values) values
look_up-Returns is_sync dst i (some x) values = (x, values, refl)

get_now-Returns :
    (clk_period : ℕ) (r : TimeIndependentRtlResource) (offset now : ℕ)
    (x : TimeIndependentRtlResourceItem) (rest : List TimeIndependentRtlResourceItem)
    → r.values_in_time ≡ x ∷ rest
    → r.persistence_ranges ≡ []
    → start_clk offset clk_period ≤ start_clk now clk_period
    → Returns (get_now clk_period r now (some offset))
unfolding get_now
get_now-Returns clk_period r offset now x rest e p h = elim (Bool-cases (offset == now)) [
  | inl q ↦ rw (q, e) (x, x ∷ rest, refl)
  | inr q ↦ elim (Bool-cases (ltb (start_clk now clk_period) (start_clk offset clk_period))) [
    | inl l ↦ ground arith
    | inr l ↦
        rw (q, l, p)
          (look_up-Returns r.is_sync (start_clk now clk_period)
            (start_clk now clk_period - start_clk offset clk_period)
            (get_elem? r.values_in_time (start_clk now clk_period - start_clk offset clk_period))
            r.values_in_time)
  ]
]

edges_without_ranges : (first n : ℕ) → edges [] first n ≡ n
unfolding is_in_persistence_ranges
edges_without_ranges first zero = refl
edges_without_ranges first (suc n) = let rest = edges_without_ranges first n in omega arith

get-get_now :
    (clk_period epsilon : ℕ) (r : TimeIndependentRtlResource) (time : ℕ)
    → get clk_period epsilon r time ≡ get_now clk_period r (time + epsilon) r.time_offset
unfolding get
get-get_now clk_period epsilon r time = refl

-- For a resource with a start time and without persistence ranges, whose items have passed one
-- register for each clock period after the first one, `get` at a time whose period is not before
-- the first one returns, and what it returns has passed as many registers as there are periods
-- between.
pub get_returns :
    (clk_period epsilon : ℕ) (r : TimeIndependentRtlResource) (offset time : ℕ)
    (x : TimeIndependentRtlResourceItem) (rest : List TimeIndependentRtlResourceItem)
    → r.time_offset ≡ some offset
    → r.values_in_time ≡ x ∷ rest
    → r.persistence_ranges ≡ []
    → IsDelayed [] (start_clk offset clk_period) r.values_in_time
    → start_clk offset clk_period ≤ start_clk (time + epsilon) clk_period
    → (y : TimeIndependentRtlResourceItem) × (values : List TimeIndependentRtlResourceItem) × (get
          clk_period epsilon r time
        ≡ (ok y, values))
      × (delay y ≡ start_clk (time + epsilon) clk_period - start_clk offset clk_period)
get_returns clk_period epsilon r offset time x rest o v p inv h =
    let (y, values, e) = get_now-Returns clk_period r offset (time + epsilon) x rest v p h in
    let got : get clk_period epsilon r time ≡ (ok y, values) =
      get-get_now clk_period epsilon r time ∙ ap (get_now clk_period r (time + epsilon)) o ∙ e in
    let delayed =
      get-Delayed clk_period epsilon r offset time (length rest) o (ap length v)
        (subst (λ q. IsDelayed q (start_clk offset clk_period) r.values_in_time) (sym p) inv) in
    let known =
      subst
        (λ g.
          Delayed r.persistence_ranges (start_clk offset clk_period)
            (start_clk (time + epsilon) clk_period - start_clk offset clk_period) g)
        got delayed in
    let count =
      subst
        (λ q.
          delay y
          ≡ edges q (start_clk offset clk_period)
              (start_clk (time + epsilon) clk_period - start_clk offset clk_period))
        p known.1 in
    (y, values, got, count ∙ edges_without_ranges (start_clk offset clk_period) _)
