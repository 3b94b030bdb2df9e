-- ===== src/Analysis/Fsm/Ring.antt =====
-- The transition table of a state machine.
use native.Mathlib.Nat.{mod-add-mod}
use hwt_hls.Prelude.{
  ℕ, zero, suc, ◌+◌, ◌%◌, ◌<◌, ◌≡◌, refl, Option, none, some, List, [], ◌∷◌, map, ◌==◌,
  if◌then◌else◌, Bool-cases, inl, inr, ap, ◌∙◌, arith,
}
use hwt_hls.Scheduler.Clocks.{range_from}
use hwt_hls.Analysis.Fsm.{transitions}

abbrev pub only_key : List (ℕ × ℕ) → Option ℕ
only_key ((j, value) ∷ []) = some j
only_key _ = none

-- The state that the table gives after the state `i`, where there is just one.
abbrev pub next_state : List (ℕ × List (ℕ × ℕ)) → ℕ → Option ℕ
next_state [] i = none
next_state ((k, targets) ∷ rest) i = if k == i then only_key targets else next_state rest i

abbrev pub goes_on : List (ℕ × List (ℕ × ℕ)) → ℕ → Option ℕ → Option ℕ
goes_on table zero s = s
goes_on table (suc k) none = none
goes_on table (suc k) (some i) = goes_on table k (next_state table i)

next_state-map :
    (cnt first count i : ℕ)
    → first + count ≡ cnt
    → i < cnt
    → first + zero < suc i
    → next_state (map (λ i. (i, ((i + 1) % cnt, 1) ∷ [])) (range_from count first)) i
      ≡ some ((i + 1) % cnt)
unfolding range_from
next_state-map cnt first zero i e h l = absurd (omega arith)
next_state-map cnt first (suc count) i e h l = elim (Bool-cases (first == i)) [
  | inl p ↦ let same : first ≡ i = ground arith in rw (p, same) refl
  | inr p ↦ rw p (next_state-map cnt (suc first) count i (omega arith) h (ground arith))
]

next_state-transitions :
    (cnt i : ℕ) → i < cnt → next_state (transitions cnt) i ≡ some ((i + 1) % cnt)
unfolding transitions
next_state-transitions cnt i h = next_state-map cnt 0 cnt i (omega arith) h (omega arith)

-- From state i of a machine with cnt states, after k transitions the state is (i + k) % cnt.
pub goes_on-transitions :
    (cnt i k : ℕ) → i < cnt → goes_on (transitions cnt) k (some i) ≡ some ((i + k) % cnt)
goes_on-transitions cnt i zero h = ap some (grind arith)
goes_on-transitions cnt i (suc k) h =
    let step = next_state-transitions cnt i h in
    let rest = goes_on-transitions cnt ((i + 1) % cnt) k (grind arith) in
    ap (goes_on (transitions cnt) k) step
    ∙ rest
    ∙ ap some (mod-add-mod (i + 1) cnt k ∙ ap (λ (m : ℕ). m % cnt) (omega arith))
