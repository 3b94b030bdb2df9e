-- ===== src/Scheduler/IoLimit/Moves.antt =====
-- Where an IO operation is moved.
use native.Mathlib.Nat.{div-lt_iff_lt-mul, le-div_iff_mul-le}
use hwt_hls.Prelude.{ℕ, ◌+◌, ◌*◌, ◌/◌, ◌≤◌, ◌<◌, ◌≡◌, refl, ap, ◌∙◌, arith}
use hwt_hls.Prelude.Int.{
  ℤ, pos, negsuc, pos_part, neg_part, ◌+ℤ◌, ◌-ℤ◌, ◌≤ℤ◌, scale, int_laws, eq_of_parts, +ℤ_parts,
}
use hwt_hls.Prelude.Result.{ok}
use hwt_hls.Clock.{start_clk}
use hwt_hls.Clock.Signed.{start_clk_int, start_of_next_clk_period_int}
use hwt_hls.Scheduler.Alap.{Times}
use hwt_hls.Scheduler.IoLimit.{shift_times, first_port_time, move_to_previous_clk}

start_clk_of_bounds : (n c clk : ℕ) → 0 < clk → c * clk ≤ n → n < (c + 1) * clk → n / clk ≡ c
start_clk_of_bounds n c clk h low high =
    let a : c ≤ n / clk = (le-div_iff_mul-le h).1 low in
    let b : n / clk < c + 1 = (div-lt_iff_lt-mul h).1 high in omega arith

-- A clock period is determined by its bounds.
start_clk_int_of_bounds :
    (t c : ℤ) (clk : ℕ)
    → 0 < clk
    → scale c clk ≤ℤ t
    → t +ℤ pos 1 ≤ℤ scale c clk +ℤ pos clk
    → start_clk_int t clk ≡ c
unfolding start_clk_int scale start_clk
start_clk_int_of_bounds (pos n) (pos c) clk h low high =
    ap pos (start_clk_of_bounds n c clk h (omega arith) (grind (int_laws)))
start_clk_int_of_bounds (pos n) (negsuc c) clk h low high = absurd (grind int_laws)
start_clk_int_of_bounds (negsuc n) (pos c) clk h low high = absurd (grind int_laws)
start_clk_int_of_bounds (negsuc n) (negsuc c) clk h low high =
    ap negsuc (start_clk_of_bounds n c clk h (grind int_laws) (grind int_laws))

scale_parts :
    (c : ℤ) (clk : ℕ)
    → (pos_part (scale c clk) ≡ pos_part c * clk) × (neg_part (scale c clk) ≡ neg_part c * clk)
unfolding scale
scale_parts (pos n) clk = (refl, omega arith)
scale_parts (negsuc n) clk = (ground arith, grind arith)

scale_next :
    (a b : ℤ) (clk : ℕ)
    → pos_part b + neg_part a ≡ pos_part a + neg_part b + 1
    → scale b clk ≡ scale a clk +ℤ pos clk
scale_next a b clk h =
    let e : (pos_part b + neg_part a) * clk ≡ (pos_part a + neg_part b + 1) * clk =
      ap (λ x. x * clk) h in
    eq_of_parts (scale b clk) (scale a clk +ℤ pos clk)
      (grind (arith, scale_parts a clk, scale_parts b clk, +ℤ_parts (scale a clk) (pos clk)))

scale-suc : (c : ℤ) (clk : ℕ) → scale (c +ℤ pos 1) clk ≡ scale c clk +ℤ pos clk
scale-suc c clk = scale_next c (c +ℤ pos 1) clk (omega int_laws)

scale-pred : (c : ℤ) (clk : ℕ) → scale c clk ≡ scale (c -ℤ pos 1) clk +ℤ pos clk
scale-pred c clk = scale_next (c -ℤ pos 1) c clk (omega int_laws)

start_clk_int_at : (c : ℤ) (clk : ℕ) → 0 < clk → start_clk_int (scale c clk) clk ≡ c
start_clk_int_at c clk h =
    start_clk_int_of_bounds (scale c clk) c clk h (omega arith) (omega int_laws)

start_clk_int_before :
    (c : ℤ) (clk ff : ℕ)
    → 0 < ff
    → ff ≤ clk
    → start_clk_int (scale c clk -ℤ pos ff) clk ≡ c -ℤ pos 1
start_clk_int_before c clk ff h k =
    let q = scale-pred c clk in
    start_clk_int_of_bounds (scale c clk -ℤ pos ff) (c -ℤ pos 1) clk (omega arith)
      (omega (int_laws, ap pos_part q, ap neg_part q))
      (omega (int_laws, ap pos_part q, ap neg_part q))

-- With a time to store a value that is more than 0 and at most a clock period, a turn of the
-- loop that limits IOs in the ALAP compaction shifts all times of the node by one distance, so
-- that its first port is in the clock period before, and would be in the one where it was after
-- the time to store a value.
pub move_to_previous_clk-before :
    (clk ff : ℕ) (v : Times) (t : ℤ)
    → 0 < ff
    → ff ≤ clk
    → first_port_time v ≡ ok t
    → (off : ℤ) × (move_to_previous_clk clk ff v ≡ ok (shift_times off v))
      × (start_clk_int (t +ℤ off) clk ≡ start_clk_int t clk -ℤ pos 1)
      × (start_clk_int (t +ℤ off +ℤ pos ff) clk ≡ start_clk_int t clk)
unfolding move_to_previous_clk start_of_next_clk_period_int
move_to_previous_clk-before clk ff v t h k e =
    let c = start_clk_int t clk in
    let q = scale-suc c clk in
    let off = scale (c +ℤ pos 1) clk -ℤ t -ℤ pos clk -ℤ pos ff in
    let at : t +ℤ off ≡ scale c clk -ℤ pos ff =
      eq_of_parts (t +ℤ off) (scale c clk -ℤ pos ff)
        (omega (int_laws, ap pos_part q, ap neg_part q)) in
    let back : t +ℤ off +ℤ pos ff ≡ scale c clk =
      eq_of_parts (t +ℤ off +ℤ pos ff) (scale c clk)
        (omega (int_laws, ap pos_part at, ap neg_part at)) in
    (
      off,
      rw e,
      ap (λ x. start_clk_int x clk) at ∙ start_clk_int_before c clk ff h k,
      ap (λ x. start_clk_int x clk) back ∙ start_clk_int_at c clk (omega arith),
    )
