-- ===== src/Ssa/Threads/Final.antt =====
-- The threads at the end of threadMining.py.
use hwt_hls.Prelude.{ℕ, ◌≡◌, refl, true, Option, none, some, List, [], ◌∷◌, All, arith}
use hwt_hls.Prelude.Result.{ok}
use hwt_hls.Ssa.Threads.{thread_of, Threads, merge_threads, check_later, finalize}
use hwt_hls.Ssa.Threads.Merged.{
  is_some_thread, IsPartition, Together, merge_threads-IsPartition, merge_threads-Together,
  merge_threads-joins,
}

found : (o : Option ℕ) (t : ℕ) → is_some_thread o t ≡ true → o ≡ some t
found none t h = absurd (ground arith)
found (some u) t h = ground arith

abbrev pub BothKnown : Threads → ℕ × ℕ → Type 0
BothKnown s p = Together s p.0 p.0 × Together s p.1 p.1

abbrev pub Keeps : Threads → Threads → Type 0
Keeps s after = (i j : ℕ) → Together s i j → Together after i j

All-Keeps :
    (s after : Threads)
    → Keeps s after
    → (ps : List (ℕ × ℕ)) → All (BothKnown s) ps
    → All (BothKnown after) ps
All-Keeps s after k [] h = tt
All-Keeps s after k (p ∷ ps) ((a, b), h) = ((k p.0 p.0 a, k p.1 p.1 b), All-Keeps s after k ps h)

check_later-Together :
    (ps : List (ℕ × ℕ)) (s : Threads)
    → IsPartition s
    → All (BothKnown s) ps
    → (after : Threads) × (check_later ps s ≡ ok after)
      × IsPartition after
      × Keeps s after
      × All (λ (p : ℕ × ℕ). Together after p.0 p.1) ps
unfolding check_later
check_later-Together [] s v h = (s, refl, v, λ i j t. t, tt)
check_later-Together ((src, dst) ∷ ps) s v (((t0, a, a'), (t1, b, b')), h) =
    let at_src = found (thread_of s.per_instr src) t0 a in
    let at_dst = found (thread_of s.per_instr dst) t1 b in
    let joined : Threads = merge_threads t0 t1 s in
    let kept : Keeps s joined = merge_threads-Together s v src t0 dst t1 a b in
    let (after, e, w, k, all) =
      check_later-Together ps joined (merge_threads-IsPartition s v src t0 dst t1 a b)
        (All-Keeps s joined kept ps h) in
    (
      after,
      rw (at_src, at_dst) e,
      w,
      λ i j t. k i j (kept i j t),
      (k src dst (merge_threads-joins s v src t0 dst t1 a b), all),
    )

-- The pairs that are checked at the end come together.
pub finalize-Together :
    (s : Threads)
    → IsPartition s
    → All (BothKnown s) s.to_check_later
    → (after : Threads) × (finalize s ≡ ok after)
      × IsPartition after
      × Keeps s after
      × All (λ (p : ℕ × ℕ). Together after p.0 p.1) s.to_check_later
unfolding finalize
finalize-Together s v h =
    let (after, e, w, k, all) = check_later-Together s.to_check_later s v h in
    (
      record after { to_check_later = [] },
      rw e refl,
      record { members_have = w.members_have },
      k,
      all,
    )
