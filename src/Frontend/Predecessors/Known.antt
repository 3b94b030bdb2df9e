-- ===== src/Frontend/Predecessors/Known.antt =====
-- Which blocks are reported when a block is generated.
use hwt_hls.Prelude.{
  ℕ, ◌≡◌, refl, ◌∙◌, false, ◌&&◌, ◌||◌, List, [], ◌∷◌, ◌++◌, contains, ◌==◌, Bool-cases, inl, inr,
  arith,
}
use hwt_hls.Prelude.Result.{ok}
use hwt_hls.Frontend.Predecessors.{
  DiGraph, Tracker, all_known, check_all_newly_resolved_blocks, check_generated, add_generated,
}

contains-append : (xs ys : List ℕ) (a : ℕ) → contains (xs ++ ys) a ≡ contains xs a || contains ys a
contains-append [] ys a = refl
contains-append (x ∷ xs) ys a = ground (arith, contains-append xs ys a)

module _ (cfg : DiGraph) where
  check-contains :
      (t : Tracker) (b m : ℕ)
      → contains (check_all_newly_resolved_blocks cfg t b) m
        ≡ (b == m) && all_known t (cfg.predecessors m)
  unfolding check_all_newly_resolved_blocks
  check-contains t b m = elim (Bool-cases (b == m)) [
    | inl e ↦
        let same : b ≡ m = ground arith in
        rw same (elim (Bool-cases (all_known t (cfg.predecessors m))) [
          | inl k ↦ rw k (ground arith)
          | inr k ↦ rw k (ground arith)
        ])
    | inr e ↦ elim (Bool-cases (all_known t (cfg.predecessors b))) [
      | inl k ↦ rw k (ground arith)
      | inr k ↦ rw k (ground arith)
    ]
  ]

  check_generated-contains :
      (t : Tracker) (bs : List ℕ) (m : ℕ)
      → contains (check_generated cfg t bs) m
        ≡ contains bs m && (contains t.generated m && all_known t (cfg.predecessors m))
  unfolding check_generated
  check_generated-contains t [] m = refl
  check_generated-contains t (b ∷ bs) m = elim (Bool-cases (contains t.generated b)) [
    | inl g ↦ rw g (
        contains-append (check_all_newly_resolved_blocks cfg t b) (check_generated cfg t bs) m
        ∙ elim (Bool-cases (b == m)) [
          | inl e ↦
              let same : b ≡ m = ground arith in
              let known = check-contains t b m in
              let rest = check_generated-contains t bs m in ground arith
          | inr e ↦ ground (arith, check-contains t b m, check_generated-contains t bs m)
        ])
    | inr g ↦ rw g (ground (arith, check_generated-contains t bs m))
  ]

  -- For a block that is not known yet, `addGenerated` returns and marks it, and yields exactly
  -- those blocks, among the block and its generated successors, all whose predecessors are known
  -- now.
  pub add_generated-contains :
      (block : ℕ) (t : Tracker)
      → contains t.generated block ≡ false
      → contains t.not_generated block ≡ false
      → (reported : List ℕ) × (after : Tracker) × (add_generated cfg block t ≡ ok (reported, after))
        × (after ≡ record t { generated = block ∷ t.generated })
        × ((m : ℕ)
            → contains reported m
              ≡ ((block == m) || (contains (cfg.successors block) m && contains after.generated m))
                && all_known after (cfg.predecessors m))
  unfolding add_generated
  add_generated-contains block t g n =
      let after : Tracker = record t { generated = block ∷ t.generated } in
      (
        check_all_newly_resolved_blocks cfg after block
            ++ check_generated cfg after (cfg.successors block),
        after,
        rw (g, n) refl,
        refl,
        λ m.
            contains-append (check_all_newly_resolved_blocks cfg after block)
              (check_generated cfg after (cfg.successors block)) m
            ∙ ground (
              arith,
              check-contains after block m,
              check_generated-contains after (cfg.successors block) m,
            ),
      )
