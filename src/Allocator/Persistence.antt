-- ===== src/Allocator/Persistence.antt =====
-- How long the register chain of a `TimeIndependentRtlResource` holds its value back, told by the
-- clock periods in which the value persists.
use hwt_hls.Prelude.{
  ℕ, zero, suc, ◌+◌, ◌-◌, ◌≤◌, ◌<◌, ◌≡◌, refl, ap, true, some, List, [], ◌∷◌, ◌++◌, ltb, length,
  get_elem?, All, Bool-cases, inl, inr, arith,
}
use hwt_hls.Prelude.Result.{ok, err}
use hwt_hls.Clock.{start_clk}
use hwt_hls.Allocator.{
  TimeIndependentRtlResourceItem, TimeIndependentRtlResource, is_in_persistence_ranges, Got, get,
}
use hwt_hls.Allocator.Delays.{delay, edges, IsDelayed, Delayed, get-Delayed}

-- Of the ranges, the first one that does not start after the clock period ends no earlier than it.
abbrev pub Persists : List (ℕ × ℕ) → ℕ → Type 0
Persists ranges clk =
    (before : List (ℕ × ℕ)) × (low : ℕ) × (high : ℕ) × (after : List (ℕ × ℕ)) × (ranges
      ≡ before ++ (low, high) ∷ after)
    × All (λ (r : ℕ × ℕ). clk < r.0) before
    × (low ≤ clk)
    × (clk ≤ high)

is_in_persistence_ranges-at :
    (before after : List (ℕ × ℕ)) (low high clk : ℕ)
    → All (λ (r : ℕ × ℕ). clk < r.0) before
    → low ≤ clk
    → clk ≤ high
    → is_in_persistence_ranges (before ++ (low, high) ∷ after) clk ≡ true
unfolding is_in_persistence_ranges
is_in_persistence_ranges-at [] after low high clk h l k = ground arith
is_in_persistence_ranges-at ((a, b) ∷ before) after low high clk (h, hs) l k =
    ground (arith, is_in_persistence_ranges-at before after low high clk hs l k)

is_in_persistence_ranges-Persists :
    (ranges : List (ℕ × ℕ)) (clk : ℕ)
    → is_in_persistence_ranges ranges clk ≡ true
    → Persists ranges clk
unfolding is_in_persistence_ranges
is_in_persistence_ranges-Persists [] clk h = cc
is_in_persistence_ranges-Persists ((low, high) ∷ ranges) clk h = elim (Bool-cases (ltb clk low)) [
  | inl b ↦
      let (before, l, k, after, e, early, from, to) =
        is_in_persistence_ranges-Persists ranges clk (rw b at h) in
      (
        (low, high) ∷ before,
        l,
        k,
        after,
        ap (λ x. (low, high) ∷ x) e,
        (ground arith, early),
        from,
        to,
      )
  | inr b ↦ ([], low, high, ranges, refl, tt, ground arith, ground arith)
]

Persists-is_in_persistence_ranges :
    (ranges : List (ℕ × ℕ)) (clk : ℕ)
    → Persists ranges clk
    → is_in_persistence_ranges ranges clk ≡ true
Persists-is_in_persistence_ranges ranges clk (before, low, high, after, e, early, from, to) =
    rw e (is_in_persistence_ranges-at before after low high clk early from to)

module _ (ranges : List (ℕ × ℕ)) (first : ℕ) where
  -- `HeldBack n k`: of the n clock periods after the first one, k are such that the value does
  -- not persist.
  pub data HeldBack : ℕ → ℕ → Type 0 where
    at_first : HeldBack 0 0
    kept : {n k : ℕ} → Persists ranges (first + suc n) → HeldBack n k → HeldBack (suc n) k
    stored : {n k : ℕ} → ¬ Persists ranges (first + suc n) → HeldBack n k → HeldBack (suc n) (suc k)

  HeldBack-edges : (n : ℕ) → HeldBack n (edges ranges first n)
  HeldBack-edges zero = at_first
  HeldBack-edges (suc n) =
      let below = HeldBack-edges n in
      elim (Bool-cases (is_in_persistence_ranges ranges (first + suc n))) [
        | inl p ↦ rw p (kept (is_in_persistence_ranges-Persists ranges (first + suc n) p) below)
        | inr p ↦
            rw p
              (stored (λ q. cc (Persists-is_in_persistence_ranges ranges (first + suc n) q)) below)
      ]

  edges-HeldBack : {n k : ℕ} → HeldBack n k → k ≡ edges ranges first n
  edges-HeldBack at_first = refl
  edges-HeldBack (kept {n = n} p h) =
      let e = Persists-is_in_persistence_ranges ranges (first + suc n) p in rw e (edges-HeldBack h)
  edges-HeldBack (stored {n = n} p h) =
      elim (Bool-cases (is_in_persistence_ranges ranges (first + suc n))) [
        | inl q ↦ absurd (p (is_in_persistence_ranges-Persists ranges (first + suc n) q))
        | inr q ↦ rw q (ap suc (edges-HeldBack h))
      ]

  -- The item for every clock period has passed a register for each period up to it, the first one
  -- left out, in which the value does not persist.
  abbrev pub IsHeldBack : List TimeIndependentRtlResourceItem → Type 0
  IsHeldBack values =
      (i : ℕ) (x : TimeIndependentRtlResourceItem)
      → get_elem? values i ≡ some x
      → HeldBack i (delay x)

  -- What a call for the n-th clock period may give.
  abbrev pub HoldsBack : ℕ → Got → Type 0
  HoldsBack n (ok x, values) = IsHeldBack values × HeldBack n (delay x)
  HoldsBack n (err e, values) = IsHeldBack values

  IsDelayed-HeldBack :
      (values : List TimeIndependentRtlResourceItem)
      → IsDelayed ranges first values
      → IsHeldBack values
  IsDelayed-HeldBack values h i x at = let e = h i x at in rw e (HeldBack-edges i)

  Delayed-HoldsBack : (n : ℕ) (r : Got) → Delayed ranges first n r → HoldsBack n r
  Delayed-HoldsBack n (ok x, values) (h, e) = (IsDelayed-HeldBack values h, rw e (HeldBack-edges n))
  Delayed-HoldsBack n (err e, values) h = IsDelayed-HeldBack values h

-- If the item of every clock period has passed a register for each period, after the first one
-- and up to its own, in which the value does not persist, this holds again after `get`, whether
-- it returns or raises, and it holds of the item that it returns for the period of the requested
-- time. The value persists in a period if the first range that does not start after it ends no
-- earlier: the ranges behind this one do not count.
pub get-HoldsBack :
    (clk_period epsilon : ℕ) (r : TimeIndependentRtlResource) (offset time k : ℕ)
    → r.time_offset ≡ some offset
    → length r.values_in_time ≡ suc k
    → IsHeldBack r.persistence_ranges (start_clk offset clk_period) r.values_in_time
    → HoldsBack r.persistence_ranges
        (start_clk offset clk_period)
        (start_clk (time + epsilon) clk_period - start_clk offset clk_period)
        (get clk_period epsilon r time)
get-HoldsBack clk_period epsilon r offset time k e l inv =
    Delayed-HoldsBack r.persistence_ranges (start_clk offset clk_period)
      (start_clk (time + epsilon) clk_period - start_clk offset clk_period)
      (get clk_period epsilon r time)
      (get-Delayed clk_period epsilon r offset time k e l
        λ i x at. edges-HeldBack r.persistence_ranges (start_clk offset clk_period) (inv i x at))
