-- ===== src/Scheduler/Compaction/Shift.antt =====
-- How the schedule is shifted to its start.
use native.Mathlib.Nat.{div-mul-le_self, lt-div-mul-add}
use hwt_hls.Prelude.{
  ℕ, ◌+◌, ◌-◌, ◌*◌, ◌/◌, ◌≤◌, ◌<◌, ◌≡◌, refl, Option, none, some, leb, arith, Bool-cases, inl, inr,
}
use hwt_hls.Prelude.Int.{ℤ, pos, ◌+ℤ◌, sub_ℕ}
use hwt_hls.Clock.{start_clk}
use hwt_hls.Scheduler.Compaction.{offset, shift_time}

-- the time after the shift, where there is one
abbrev pub shifted : Option ℤ → ℤ → ℤ
shifted none t = t
shifted (some off) t = shift_time off t

shift_back : (k t : ℕ) → k ≤ t → shift_time (sub_ℕ 0 k) (pos t) ≡ pos (t - k)
unfolding shift_time ◌+ℤ◌
shift_back k t h = ground arith

start_clk_below : (n clk : ℕ) → n < clk → n / clk ≡ 0
start_clk_below n clk h = grind arith

-- If the least time is not negative, the shift at the end of ALAP scheduling brings it into the
-- first clock period, and every other time keeps its distance to it.
pub shifted-first :
    (clk first t : ℕ)
    → 0 < clk
    → first ≤ t
    → (u v : ℕ) × (shifted (offset clk (some (pos first))) (pos first) ≡ pos u)
      × (shifted (offset clk (some (pos first))) (pos t) ≡ pos v)
      × (start_clk u clk ≡ 0)
      × (v + first ≡ u + t)
unfolding offset start_clk
shifted-first clk first t h le = elim (Bool-cases (leb clk first)) [
  | inl e ↦
      let low = div-mul-le_self first clk in
      let high = lt-div-mul-add {a = first} h in
      let k = first / clk * clk in
      rw e (
        first - k,
        t - k,
        shift_back k first low,
        shift_back k t (omega arith),
        start_clk_below (first - k) clk (omega arith),
        omega arith,
      )
  | inr e ↦ rw e (first, t, refl, refl, start_clk_below first clk (ground arith), omega arith)
]
