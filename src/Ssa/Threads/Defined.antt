-- ===== src/Ssa/Threads/Defined.antt =====
-- The threads while the blocks are walked through.
use hwt_hls.Prelude.{
  ℕ, ◌<◌, ◌≡◌, refl, Bool, true, false, Option, none, some, List, [], ◌∷◌, ◌++◌, ◌==◌,
  if◌then◌else◌, arith,
}
use hwt_hls.Ssa.{Operand, const, value}
use hwt_hls.Ssa.Threads.{
  thread_of, Threads, merge_threads, join_known, merge_in_next_operand, merge_operands,
}
use hwt_hls.Ssa.Threads.Merged.{
  is_some_thread, has_thread, IsPartition, merge_threads-has_thread, merge_threads-IsPartition,
}

-- The next thread has not been used.
pub record IsMining (s : Threads) : Type 0 where
  pub partition : IsPartition s
  pub bound : (i t : ℕ) → has_thread s.per_instr i t ≡ true → t < s.next_thread

abbrev pub Live : Threads → Option ℕ → Type 0
Live s none = Unit
Live s (some t) = (i : ℕ) × (has_thread s.per_instr i t ≡ true)

abbrev pub HasNone : Threads → ℕ → Type 0
HasNone s i = (t : ℕ) → has_thread s.per_instr i t ≡ false

-- What a step over an operand keeps.
pub record Steps (s : Threads) (other : Option ℕ) (after : Threads) : Type 0 where
  pub mining : IsMining after
  pub live : Live after other
  pub none_yet : (i : ℕ) → HasNone s i → HasNone after i

pub below_either :
    (p q : Bool) (t0 t n : ℕ)
    → (if p then t0 == t else q) ≡ true
    → t0 < n
    → (q ≡ true → t < n)
    → t < n
below_either true q t0 t n h below own = ground arith
below_either false q t0 t n h below own = own h

Live-later :
    (s : Threads) (ps : List (ℕ × ℕ)) (other : Option ℕ)
    → Live s other
    → Live (record s { to_check_later = ps }) other
Live-later s ps none k = tt
Live-later s ps (some t) k = k

merge_threads-Steps :
    (s : Threads) (i0 t0 i1 t1 : ℕ)
    → IsMining s
    → has_thread s.per_instr i0 t0 ≡ true
    → has_thread s.per_instr i1 t1 ≡ true
    → Steps s (some t0) (merge_threads t0 t1 s)
unfolding merge_threads
merge_threads-Steps s i0 t0 i1 t1 v a b =
    let has = merge_threads-has_thread s v.partition i0 t0 i1 t1 a b in
    record {
      mining = record {
        partition = merge_threads-IsPartition s v.partition i0 t0 i1 t1 a b;
        bound = λ i t h.
            let there = has i t in
            let below = v.bound i0 t0 a in
            let own = v.bound i t in
            below_either (has_thread s.per_instr i t1) (has_thread s.per_instr i t) t0 t
              s.next_thread (rw there at h) below own;
      };
      live = (i0, rw (has i0 t0) (ground arith));
      none_yet = λ i h t. rw (has i t, h t1) (h t);
    }

has_thread-thread_of : (o : Option ℕ) (t : ℕ) → o ≡ some t → is_some_thread o t ≡ true
has_thread-thread_of o t e = rw e (ground arith)

join_known-Steps :
    (parent v : ℕ) (o other : Option ℕ) (s : Threads)
    → IsMining s
    → thread_of s.per_instr v ≡ o
    → Live s other
    → Steps s (join_known parent v o other s).0 (join_known parent v o other s).1
join_known-Steps parent v none other s m e k = record {
  mining = record {
    partition = record { members_have = m.partition.members_have };
    bound = m.bound;
  };
  live = Live-later s (s.to_check_later ++ (v, parent) ∷ []) other k;
  none_yet = λ i h. h;
}
join_known-Steps parent v (some t) none s m e k = record {
  mining = m;
  live = (v, has_thread-thread_of (thread_of s.per_instr v) t e);
  none_yet = λ i h. h;
}
join_known-Steps parent v (some t) (some o) s m e (i, k) =
    merge_threads-Steps s i o v t m k (has_thread-thread_of (thread_of s.per_instr v) t e)

merge_in_next_operand-Steps :
    (parent : ℕ) (o : Operand) (other : Option ℕ) (s : Threads)
    → IsMining s
    → Live s other
    → Steps s
        (merge_in_next_operand parent o (other, s)).0
        (merge_in_next_operand parent o (other, s)).1
unfolding merge_in_next_operand
merge_in_next_operand-Steps parent (const c) other s m k = record {
  mining = m;
  live = k;
  none_yet = λ i h. h;
}
merge_in_next_operand-Steps parent (value v) other s m k =
    join_known-Steps parent v (thread_of s.per_instr v) other s m refl k

pub merge_operands-Steps :
    (parent : ℕ) (os : List Operand) (other : Option ℕ) (s : Threads)
    → IsMining s
    → Live s other
    → Steps s (merge_operands parent os (other, s)).0 (merge_operands parent os (other, s)).1
unfolding merge_operands
merge_operands-Steps parent [] other s m k = record { mining = m; live = k; none_yet = λ i h. h }
merge_operands-Steps parent (o ∷ os) other s m k =
    let next = merge_in_next_operand parent o (other, s) in
    let first = merge_in_next_operand-Steps parent o other s m k in
    let rest = merge_operands-Steps parent os next.0 next.1 first.mining first.live in
    record {
      mining = rest.mining;
      live = rest.live;
      none_yet = λ i h. rest.none_yet i (first.none_yet i h);
    }
