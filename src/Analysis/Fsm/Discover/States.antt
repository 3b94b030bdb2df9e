-- ===== src/Analysis/Fsm/Discover/States.antt =====
-- The states of a machine against the clock periods of its accesses.
use hwt_hls.Prelude.{
  ℕ, zero, suc, ◌+◌, ◌≡◌, refl, sym, ap, subst, ◌∙◌, Bool, false, Option, none, some, List, [], ◌∷◌,
  ◌++◌, map, length, length-append, map-append, reverse, contains, ◌==◌, Bool-cases, inl, inr,
  arith,
}
use hwt_hls.Prelude.Result.{ok, both_return}
use hwt_hls.Clock.{start_clk}
use hwt_hls.Netlist.{HlsPipeline}
use hwt_hls.Graph.Distinct.{Distinct}
use hwt_hls.Scheduler.State.{Scheduled}
use hwt_hls.Scheduler.Clocks.{range_from}
use hwt_hls.Analysis.Fsm.{FsmNode, add_state, extend_last, Flood, flood}
use hwt_hls.Analysis.Fsm.Discover.{
  SeenClks, seen_in, set_seen, Building, enter_clk, add_found, add_access, add_accesses,
  check_nodes_in_clk,
}

-- The states are numbered from 0, each has a clock period of its own, and these are the ones that
-- were seen, in the same order.
pub record IsNumbered (b : Building) : Type 0 where
  pub numbers : map (λ (p : ℕ × ℕ). p.0) b.fsm.state_clk_i ≡ range_from (length b.fsm.states) 0
  pub clks : map (λ (p : ℕ × List ℕ). p.0) b.seen_clks ≡ map (λ (p : ℕ × ℕ). p.1) b.fsm.state_clk_i
  pub one_each : Distinct (map (λ (p : ℕ × ℕ). p.1) b.fsm.state_clk_i)

length-extend_last :
    (ns : List FsmNode) (states : List (List FsmNode))
    → length (extend_last ns states) ≡ length states
length-extend_last ns [] = refl
length-extend_last ns (s ∷ []) = refl
length-extend_last ns (s ∷ t ∷ rest) = ap suc (length-extend_last ns (t ∷ rest))

range_from-suc :
    (count first : ℕ)
    → range_from (suc count) first ≡ range_from count first ++ (first + count) ∷ []
unfolding range_from
range_from-suc zero first = ap (λ (n : ℕ). n ∷ []) (omega arith)
range_from-suc (suc count) first =
    ap (λ r. first ∷ r)
      (range_from-suc count (suc first)
        ∙ ap (λ (n : ℕ). range_from count (suc first) ++ n ∷ []) (omega arith))

seen_in-none :
    (clk_i : ℕ) (seen : SeenClks)
    → seen_in clk_i seen ≡ none
    → contains (map (λ p. p.0) seen) clk_i ≡ false
unfolding seen_in
seen_in-none clk_i [] h = refl
seen_in-none clk_i ((k, before) ∷ rest) h = elim (Bool-cases (k == clk_i)) [
  | inl e ↦ cc (rw e at h)
  | inr e ↦ rw e (seen_in-none clk_i rest (rw e at h))
]

set_seen-new :
    (clk_i : ℕ) (s : List ℕ) (seen : SeenClks)
    → seen_in clk_i seen ≡ none
    → map (λ p. p.0) (set_seen clk_i s seen) ≡ map (λ p. p.0) seen ++ clk_i ∷ []
unfolding seen_in set_seen
set_seen-new clk_i s [] h = refl
set_seen-new clk_i s ((k, before) ∷ rest) h = elim (Bool-cases (k == clk_i)) [
  | inl e ↦ cc (rw e at h)
  | inr e ↦ rw e (ap (λ r. k ∷ r) (set_seen-new clk_i s rest (rw e at h)))
]

set_seen-old :
    (clk_i : ℕ) (s before : List ℕ) (seen : SeenClks)
    → seen_in clk_i seen ≡ some before
    → map (λ p. p.0) (set_seen clk_i s seen) ≡ map (λ p. p.0) seen
unfolding seen_in set_seen
set_seen-old clk_i s before [] h = cc
set_seen-old clk_i s before ((k, at_k) ∷ rest) h = elim (Bool-cases (k == clk_i)) [
  | inl e ↦ rw e refl
  | inr e ↦ rw e (ap (λ r. k ∷ r) (set_seen-old clk_i s before rest (rw e at h)))
]

contains-snoc :
    (xs : List ℕ) (x a : ℕ)
    → contains xs x ≡ false
    → (a == x) ≡ false
    → contains (xs ++ a ∷ []) x ≡ false
contains-snoc [] x a h k = ground arith
contains-snoc (y ∷ ys) x a h k = ground (arith, contains-snoc ys x a)

Distinct-snoc :
    (xs : List ℕ) (a : ℕ) → contains xs a ≡ false → Distinct xs → Distinct (xs ++ a ∷ [])
Distinct-snoc [] a h d = (refl, tt)
Distinct-snoc (x ∷ xs) a h (new, d) =
    (contains-snoc xs x a new (ground arith), Distinct-snoc xs a (ground arith) d)

module _ (hls : HlsPipeline) (sched : ℕ → Scheduled) (predicate : ℕ → Bool) (limit : ℕ) where
  add_found-IsNumbered :
      (clk_i : ℕ) (o : Option (List ℕ)) (st : Flood) (b : Building)
      → seen_in clk_i b.seen_clks ≡ o
      → IsNumbered b
      → IsNumbered (add_found clk_i (enter_clk o clk_i b.fsm).1 st b)
  unfolding add_state
  add_found-IsNumbered clk_i none st b e v =
      let cnt = length b.fsm.states in
      let longer : length (extend_last (reverse st.found) (b.fsm.states ++ [] ∷ [])) ≡ suc cnt =
        length-extend_last (reverse st.found) (b.fsm.states ++ [] ∷ [])
        ∙ length-append b.fsm.states ([] ∷ [])
        ∙ omega arith in
      let clk_list = map (λ (p : ℕ × ℕ). p.1) b.fsm.state_clk_i in
      let added : map (λ (p : ℕ × ℕ). p.1) (b.fsm.state_clk_i ++ (cnt, clk_i) ∷ [])
          ≡ clk_list ++ clk_i ∷ [] =
        map-append (λ (p : ℕ × ℕ). p.1) b.fsm.state_clk_i ((cnt, clk_i) ∷ []) in
      let new : contains clk_list clk_i ≡ false =
        subst (λ (cs : List ℕ). contains cs clk_i ≡ false) v.clks
          (seen_in-none clk_i b.seen_clks e) in
      record {
        numbers =
            map-append (λ (p : ℕ × ℕ). p.0) b.fsm.state_clk_i ((cnt, clk_i) ∷ [])
            ∙ ap (λ (ns : List ℕ). ns ++ cnt ∷ []) v.numbers
            ∙ sym (range_from-suc cnt 0 ∙ ap (λ (n : ℕ). range_from cnt 0 ++ n ∷ []) (omega arith))
            ∙ ap (λ n. range_from n 0) (sym longer);
        clks =
            set_seen-new clk_i st.seen b.seen_clks e
            ∙ ap (λ (cs : List ℕ). cs ++ clk_i ∷ []) v.clks
            ∙ sym added;
        one_each = subst Distinct (sym added) (Distinct-snoc clk_list clk_i new v.one_each);
      }
  add_found-IsNumbered clk_i (some before) st b e v = record {
    numbers = v.numbers ∙ ap (λ n. range_from n 0) (sym (length-extend_last _ b.fsm.states));
    clks = set_seen-old clk_i st.seen before b.seen_clks e ∙ v.clks;
    one_each = v.one_each;
  }

  add_access-IsNumbered :
      (clk_i a : ℕ) (b after : Building)
      → add_access hls sched predicate limit clk_i a b ≡ ok after
      → IsNumbered b
      → IsNumbered after
  unfolding add_access
  add_access-IsNumbered clk_i a b after e v =
      let (st, flooded, rest) = both_return (flood hls sched clk_i predicate limit a _) _ e in
      let (done, checked, made) =
        both_return (check_nodes_in_clk hls sched predicate limit clk_i (reverse st.found)) _
          rest in
      let same : add_found clk_i (enter_clk (seen_in clk_i b.seen_clks) clk_i b.fsm).1 st b
          ≡ after =
        cc in
      subst IsNumbered same (add_found-IsNumbered clk_i (seen_in clk_i b.seen_clks) st b refl v)

  -- If the states of a machine are numbered from 0, with a clock period of its own each, which
  -- are the periods that were seen, in order, this holds again after the loop over the accesses
  -- has returned.
  pub add_accesses-IsNumbered :
      (accesses : List (ℕ × ℕ)) (b after : Building)
      → add_accesses hls sched predicate limit accesses b ≡ ok after
      → IsNumbered b
      → IsNumbered after
  unfolding add_accesses
  add_accesses-IsNumbered [] b after e v = let same : b ≡ after = cc in subst IsNumbered same v
  add_accesses-IsNumbered ((t, a) ∷ rest) b after e v =
      let (middle, first, more) = both_return _ _ e in
      add_accesses-IsNumbered rest middle after more
        (add_access-IsNumbered (start_clk t hls.normalized_clk_period) a b middle first v)
