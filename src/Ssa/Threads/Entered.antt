-- ===== src/Ssa/Threads/Entered.antt =====
-- The threads after an instruction has entered one.
use hwt_hls.Prelude.{
  ℕ, ◌+◌, ◌<◌, ◌≡◌, refl, subst, Bool, true, false, ◌||◌, Option, none, some, List, [], ◌∷◌,
  contains, ◌==◌, if◌then◌else◌, Bool-cases, inl, inr, arith,
}
use hwt_hls.Graph.{add}
use hwt_hls.Ssa.{set_at}
use hwt_hls.Ssa.Threads.{put_thread, Threads, enter_thread}
use hwt_hls.Ssa.Threads.Merged.{has_thread, put_thread-has_thread, contains-append_one}
use hwt_hls.Ssa.Threads.Defined.{IsMining, HasNone, Live, below_either}

-- The state after an instruction, in which the instructions that come later have no thread.
pub record Entered (s : Threads) (i : ℕ) (after : Threads) : Type 0 where
  pub mining : IsMining after
  pub none_yet : (j : ℕ) → (i == j) ≡ false → HasNone s j → HasNone after j

from_else : (p b q : Bool) → (if p then b else q) ≡ true → b ≡ false → q ≡ true
from_else true b q h e = absurd (ground arith)
from_else false b q h e = h

none_has : (s : Threads) → IsMining s → (j : ℕ) → has_thread s.per_instr j s.next_thread ≡ false
none_has s m j = elim (Bool-cases (has_thread s.per_instr j s.next_thread)) [
  | inl a ↦ let below = m.bound j s.next_thread a in absurd (ground arith)
  | inr a ↦ a
]

module _ (i t : ℕ) (s : Threads) (m : IsMining s) (h : HasNone s i) where
  -- What an instruction has after its thread was put in.
  put :
      (j u : ℕ)
      → has_thread (put_thread i t s.per_instr) j u
        ≡ (if i == j then t == u else has_thread s.per_instr j u)
  put j u = put_thread-has_thread s.per_instr i t j u

  none_of : (j u : ℕ) → (i == j) ≡ true → has_thread s.per_instr j u ≡ false
  none_of j u e =
      let same : i ≡ j = ground arith in
      subst (λ (k : ℕ). has_thread s.per_instr k u ≡ false) same (h u)

  none_after :
      (j : ℕ)
      → (i == j) ≡ false
      → (u : ℕ) → has_thread s.per_instr j u ≡ false
      → has_thread (put_thread i t s.per_instr) j u ≡ false
  none_after j e u k = rw (put j u, e) k

  -- a thread that the instruction did not enter
  other_members :
      (k u j : ℕ)
      → (t == u) ≡ false
      → has_thread (put_thread i t s.per_instr) k u ≡ true
      → contains (s.members u) j ≡ has_thread (put_thread i t s.per_instr) j u
  other_members k u j e has =
      let was = put k u in
      let there : has_thread s.per_instr k u ≡ true =
        from_else (i == k) (t == u) _ (rw was at has) e in
      let own = m.partition.members_have k u j there in
      rw (put j u, own)
        (elim (Bool-cases (i == j)) [ inl f ↦ rw (f, e) (none_of j u f) | inr f ↦ rw f refl ])

  bound_after :
      (n : ℕ)
      → t < n
      → ((k u : ℕ) → has_thread s.per_instr k u ≡ true → u < n)
      → (k u : ℕ) → has_thread (put_thread i t s.per_instr) k u ≡ true
      → u < n
  bound_after n below own k u has =
      let was = put k u in
      below_either (i == k) (has_thread s.per_instr k u) t u n (rw was at has) below (own k u)

  -- the thread that the instruction did enter
  own_members :
      (members : List ℕ)
      → ((j : ℕ) → contains members j ≡ has_thread s.per_instr j t || (i == j))
      → (u j : ℕ) → (t == u) ≡ true
      → contains members j ≡ has_thread (put_thread i t s.per_instr) j u
  own_members members c u j e =
      let same : t ≡ u = ground arith in
      let own = c j in
      rw (put j u, own, e)
        (elim (Bool-cases (i == j)) [
          | inl f ↦ let none_yet = none_of j t f in ground arith
          | inr f ↦
              subst
                (λ (w : ℕ).
                  has_thread s.per_instr j t || (i == j)
                  ≡ (if i == j then true else has_thread s.per_instr j w))
                same (ground arith)
        ])

  -- The instruction enters a thread whose members are given.
  entered_members :
      (members : List ℕ)
      → ((j : ℕ) → contains members j ≡ has_thread s.per_instr j t || (i == j))
      → (k u j : ℕ) → has_thread (put_thread i t s.per_instr) k u ≡ true
      → contains (set_at s.members t members u) j ≡ has_thread (put_thread i t s.per_instr) j u
  entered_members members c k u j has = elim (Bool-cases (t == u)) [
    | inl e ↦ rw e (own_members members c u j e)
    | inr e ↦ rw e (other_members k u j e has)
  ]

enter_new :
    (i : ℕ) (s : Threads) → IsMining s → HasNone s i → Entered s i (enter_thread i (none, s))
unfolding enter_thread
enter_new i s m h =
    let n = s.next_thread in
    record {
      mining = record {
        partition = record {
          members_have =
              entered_members i n s m h (i ∷ [])
                (λ j. let fresh = none_has s m j in rw fresh (ground arith));
        };
        bound =
            bound_after i n s m h (n + 1) (ground arith)
              (λ k u a. let below = m.bound k u a in ground arith);
      };
      none_yet = λ j e k u. none_after i n s m h j e u (k u);
    }

enter_old :
    (i t : ℕ) (s : Threads)
    → IsMining s
    → HasNone s i
    → Live s (some t)
    → Entered s i (enter_thread i (some t, s))
unfolding enter_thread
enter_old i t s m h (k, live) = record {
  mining = record {
    partition = record {
      members_have = entered_members i t s m h (add i (s.members t)) (λ j.
          rw (contains-append_one (s.members t) i j, m.partition.members_have k t j live) refl);
    };
    bound = bound_after i t s m h s.next_thread (m.bound k t live) m.bound;
  };
  none_yet = λ j e k u. none_after i t s m h j e u (k u);
}

pub enter_thread-Entered :
    (i : ℕ) (other : Option ℕ) (s : Threads)
    → IsMining s
    → HasNone s i
    → Live s other
    → Entered s i (enter_thread i (other, s))
enter_thread-Entered i none s m h k = enter_new i s m h
enter_thread-Entered i (some t) s m h k = enter_old i t s m h k
