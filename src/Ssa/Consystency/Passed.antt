-- ===== src/Ssa/Consystency/Passed.antt =====
-- What is known of the blocks that pass the check.
use hwt_hls.Prelude.{
  ℕ, zero, suc, ◌≡◌, refl, subst, Bool, true, false, List, [], ◌∷◌, contains, if◌then◌else◌, All,
  ◌⊎◌, Bool-cases, inl, inr, arith,
}
use hwt_hls.Prelude.Result.{ok_injective, required, Result, ok, both_return, assertion_error}
use hwt_hls.Graph.{add}
use hwt_hls.Ssa.{Operand, const, value, Ssa}
use hwt_hls.Ssa.Blocks.{iter_blocks}
use hwt_hls.Ssa.Liveness.{inputs_of}
use hwt_hls.Ssa.Consystency.{
  Collected, is_phi_object, is_defined, check_inputs, check_body, check_successors,
  check_predecessors, visit_collect, visit_check, check_ssa,
}

contains-add :
    (n : ℕ) (seen : List ℕ) (x : ℕ) → contains seen x ≡ true → contains (add n seen) x ≡ true
contains-add n seen x h = elim (Bool-cases (contains seen n)) [
  | inl k ↦ rw k h
  | inr k ↦ rw k (ground arith)
]

add-here : (n : ℕ) (seen : List ℕ) → contains (add n seen) n ≡ true
add-here n seen = elim (Bool-cases (contains seen n)) [
  | inl k ↦ rw k k
  | inr k ↦ rw k (ground arith)
]

add-only :
    (n : ℕ) (seen : List ℕ) (x : ℕ)
    → contains seen x ≡ false
    → contains (add n seen) x ≡ true
    → n ≡ x
add-only n seen x h k = elim (Bool-cases (contains seen n)) [
  | inl j ↦ let there = rw j at k in absurd (ground arith)
  | inr j ↦ let there = rw j at k in ground arith
]

module _ (ssa : Ssa) (branch_of : ℕ → ℕ) (is_read : ℕ → Bool) (c : Collected) where
  abbrev pub leads_to : ℕ → ℕ → Bool
  leads_to b x = contains (iter_blocks (ssa.user (branch_of b))) x

  -- A constant, a read, a phi that was collected, or another value that was collected.
  abbrev pub IsDefined : Operand → Type 0
  IsDefined (const k) = Unit
  IsDefined (value v) =
      (is_read v ≡ true)
      ⊎ ((is_phi_object (ssa.user v) ≡ true) × (contains c.phis v ≡ true))
      ⊎ ((is_phi_object (ssa.user v) ≡ false) × (contains c.variables v ≡ true))

  -- Every input of every instruction is defined.
  abbrev pub UsesDefined : List ℕ → Type 0
  UsesDefined = All (λ i. All IsDefined (inputs_of (ssa.user i)))

  IsDefined-of : (o : Operand) → is_defined ssa branch_of is_read c o ≡ true → IsDefined o
  IsDefined-of (const k) h = tt
  IsDefined-of (value v) h = elim (Bool-cases (is_read v)) [
    | inl r ↦ inl r
    | inr r ↦ inr (elim (Bool-cases (is_phi_object (ssa.user v))) [
      | inl p ↦ inl (p, rw (r, p) at h)
      | inr p ↦ inr (p, rw (r, p) at h)
    ])
  ]

  check_inputs-IsDefined :
      (os : List Operand) → check_inputs ssa branch_of is_read c os ≡ ok tt → All IsDefined os
  unfolding check_inputs
  check_inputs-IsDefined [] e = tt
  check_inputs-IsDefined (o ∷ os) e =
      let (h, e') = required (is_defined ssa branch_of is_read c o) assertion_error _ e in
      (IsDefined-of o h, check_inputs-IsDefined os e')

  check_body-UsesDefined :
      (is : List ℕ) → check_body ssa branch_of is_read c is ≡ ok tt → UsesDefined is
  unfolding check_body
  check_body-UsesDefined [] e = tt
  check_body-UsesDefined (i ∷ is) e =
      let inputs = inputs_of (ssa.user i) in
      let (u, first, rest) = both_return (check_inputs ssa branch_of is_read c inputs) _ e in
      (check_inputs-IsDefined inputs first, check_body-UsesDefined is rest)

  -- What a block uses is defined, its predecessors lead to it, and both they and its successors are seen.
  pub record Passed (seen : List ℕ) (x : ℕ) : Type 0 where
    pub body : UsesDefined (ssa.body x)
    pub before :
        All (λ (p : ℕ). (leads_to p x ≡ true) × (contains seen p ≡ true)) (ssa.predecessors x)
    pub behind : All (λ (b : ℕ). contains seen b ≡ true) (iter_blocks (ssa.user (branch_of x)))

  record Walks (seen after : List ℕ) : Type 0 where
    grows : (x : ℕ) → contains seen x ≡ true → contains after x ≡ true
    passed : (x : ℕ) → contains seen x ≡ false → contains after x ≡ true → Passed after x

  All-grows :
      (seen after bs : List ℕ)
      → ((x : ℕ) → contains seen x ≡ true → contains after x ≡ true)
      → All (λ (b : ℕ). contains seen b ≡ true) bs
      → All (λ (b : ℕ). contains after b ≡ true) bs
  All-grows seen after [] g h = tt
  All-grows seen after (b ∷ bs) g (h, hs) = (g b h, All-grows seen after bs g hs)

  All-leads :
      (x : ℕ) (seen after bs : List ℕ)
      → ((y : ℕ) → contains seen y ≡ true → contains after y ≡ true)
      → All (λ (p : ℕ). (leads_to p x ≡ true) × (contains seen p ≡ true)) bs
      → All (λ (p : ℕ). (leads_to p x ≡ true) × (contains after p ≡ true)) bs
  All-leads x seen after [] g h = tt
  All-leads x seen after (b ∷ bs) g ((l, h), hs) = ((l, g b h), All-leads x seen after bs g hs)

  Walks-refl : (seen : List ℕ) → Walks seen seen
  Walks-refl seen = record { grows = λ x h. h; passed = λ x h k. absurd (ground arith) }

  Walks-trans :
      (seen middle after : List ℕ) → Walks seen middle → Walks middle after → Walks seen after
  Walks-trans seen middle after s t = record {
    grows = λ x h. t.grows x (s.grows x h);
    passed = λ x h k. elim (Bool-cases (contains middle x)) [
      | inl m ↦
          let p = s.passed x h m in
          record {
            body = p.body;
            before = All-leads x middle after (ssa.predecessors x) t.grows p.before;
            behind = All-grows middle after (iter_blocks (ssa.user (branch_of x))) t.grows p.behind;
          }
      | inr m ↦ t.passed x m k
    ];
  }

  abbrev VisitWalks : (ℕ → List ℕ → Result (List ℕ)) → Type 0
  VisitWalks visit =
      (b : ℕ) (seen after : List ℕ)
      → visit b seen ≡ ok after
      → Walks seen after × (contains after b ≡ true)

  abbrev seen_or_visited : (ℕ → List ℕ → Result (List ℕ)) → ℕ → List ℕ → Result (List ℕ)
  seen_or_visited visit b seen = if contains seen b then ok seen else visit b seen

  step-Walks :
      (visit : ℕ → List ℕ → Result (List ℕ)) (b : ℕ) (seen after : List ℕ)
      → VisitWalks visit
      → seen_or_visited visit b seen ≡ ok after
      → Walks seen after × (contains after b ≡ true)
  step-Walks visit b seen after v e = elim (Bool-cases (contains seen b)) [
    | inl k ↦
        let same : seen ≡ after = ok_injective (rw k at e) in
        subst (λ (a : List ℕ). Walks seen a × (contains a b ≡ true)) same (Walks-refl seen, k)
    | inr k ↦ v b seen after (rw k at e)
  ]

  module _ (visit : ℕ → List ℕ → Result (List ℕ)) (v : VisitWalks visit) where
    check_successors-Walks :
        (bs seen after : List ℕ)
        → check_successors ssa branch_of is_read c visit bs seen ≡ ok after
        → Walks seen after × All (λ (b : ℕ). contains after b ≡ true) bs
    unfolding check_successors
    check_successors-Walks [] seen after e =
        (subst (Walks seen) (ok_injective e) (Walks-refl seen), tt)
    check_successors-Walks (b ∷ bs) seen after e =
        let (k, e') = required (contains c.blocks b) assertion_error _ e in
        let (middle, step, rest) = both_return (seen_or_visited visit b seen) _ e' in
        let (s, h) = step-Walks visit b seen middle v step in
        let (t, hs) = check_successors-Walks bs middle after rest in
        (Walks-trans seen middle after s t, (t.grows b h, hs))

    check_predecessors-Walks :
        (bb : ℕ) (bs seen after : List ℕ)
        → check_predecessors ssa branch_of is_read c visit bb bs seen ≡ ok after
        → Walks seen after × All (λ (p : ℕ). (leads_to p bb ≡ true) × (contains after p ≡ true)) bs
    unfolding check_predecessors
    check_predecessors-Walks bb [] seen after e =
        (subst (Walks seen) (ok_injective e) (Walks-refl seen), tt)
    check_predecessors-Walks bb (b ∷ bs) seen after e =
        let (k, e') = required (contains c.blocks b) assertion_error _ e in
        let (leads, e'') = required (leads_to b bb) assertion_error _ e' in
        let (middle, step, rest) = both_return (seen_or_visited visit b seen) _ e'' in
        let (s, h) = step-Walks visit b seen middle v step in
        let (t, hs) = check_predecessors-Walks bb bs middle after rest in
        (Walks-trans seen middle after s t, ((leads, t.grows b h), hs))

  visit_check-Walks : (limit : ℕ) → VisitWalks (visit_check ssa branch_of is_read c limit)
  unfolding visit_check
  visit_check-Walks zero b seen after e = absurd (ground arith)
  visit_check-Walks (suc limit) b seen after e =
      let visit = visit_check ssa branch_of is_read c limit in
      let v = visit_check-Walks limit in
      let sucs = iter_blocks (ssa.user (branch_of b)) in
      let preds = ssa.predecessors b in
      let (k, e') = required (contains c.blocks b) assertion_error _ e in
      let (u, body, e'') = both_return (check_body ssa branch_of is_read c (ssa.body b)) _ e' in
      let (middle, first, second) =
        both_return (check_successors ssa branch_of is_read c visit sucs (add b seen)) _ e'' in
      let (s, behind) = check_successors-Walks visit v sucs (add b seen) middle first in
      let (t, before) = check_predecessors-Walks visit v b preds middle after second in
      let w = Walks-trans (add b seen) middle after s t in
      let here : Passed after b = record {
        body = check_body-UsesDefined (ssa.body b) body;
        before = before;
        behind = All-grows middle after sucs t.grows behind;
      } in
      (
        record {
          grows = λ x h. w.grows x (contains-add b seen x h);
          passed = λ x h m. elim (Bool-cases (contains (add b seen) x)) [
            | inl a ↦ subst (Passed after) (add-only b seen x h a) here
            | inr a ↦ w.passed x a m
          ];
        },
        w.grows b (add-here b seen),
      )

module _ (ssa : Ssa) (branch_of : ℕ → ℕ) (is_read : ℕ → Bool) where
  -- If the SSA passes the check, the start is among the blocks that it has seen, and of each of
  -- these: all values that its instructions use are reads, phis that were collected, or other
  -- values that were collected, its predecessors have it among their successors, and its
  -- predecessors and successors were seen as well.
  pub check_ssa-Passed :
      (limit start : ℕ) (seen : List ℕ)
      → check_ssa ssa branch_of is_read limit start ≡ ok seen
      → (c : Collected) × (visit_collect ssa branch_of is_read limit start
            (record { blocks = []; phis = []; variables = [] })
          ≡ ok c)
        × (contains seen start ≡ true)
        × ((x : ℕ) → contains seen x ≡ true → Passed ssa branch_of is_read c seen x)
  unfolding check_ssa
  check_ssa-Passed limit start seen e =
      let first : Collected = record { blocks = []; phis = []; variables = [] } in
      let (c, collected, e') =
        both_return (visit_collect ssa branch_of is_read limit start first) _ e in
      let (w, h) = visit_check-Walks ssa branch_of is_read c limit start [] seen e' in
      (c, collected, h, λ x k. w.passed x refl k)
