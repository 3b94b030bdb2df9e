-- ===== src/AxiReads/Start.antt =====
-- When the start block of the reads is found.
use hwt_hls.Prelude.{
  ℕ, ◌≡◌, refl, ap, ◌∙◌, subst, true, false, Option, none, some, List, [], ◌∷◌, map, All, ◌⊎◌,
  Bool-cases, inl, inr, arith,
}
use hwt_hls.Prelude.Result.{Error, Result, ok, err, ◌>>=◌}
use hwt_hls.AxiReads.{Transitions, ReadCfg, Reads}
use hwt_hls.AxiReads.Blocks.{
  union_predecessors, select_last, common_of, common_of_union, find_common_predecessor_of_blocks,
  all_are, start_of_blocks, find_read_start_block,
}

common_of-err : (ps : List ℕ) → (e : Error) × (common_of ps ≡ err e)
common_of-err [] = (_, refl)
common_of-err (p ∷ []) = (_, refl)
common_of-err (p ∷ q ∷ ps) = (_, refl)

module _ (reads : Reads) where
  common_of_union-err :
      (r : Result (Option (List ℕ)))
      → (e : Error) × ((r >>= λ ps. common_of_union reads ps) ≡ err e)
  common_of_union-err (err e) = (e, refl)
  common_of_union-err (ok none) = (_, refl)
  common_of_union-err (ok (some ps)) = common_of-err (select_last reads ps ps)

  -- The search of a common predecessor returns no block.
  no_common_predecessor :
      (limit b c : ℕ) (bs : List ℕ)
      → (e : Error) × (find_common_predecessor_of_blocks reads limit (b ∷ c ∷ bs) ≡ err e)
  unfolding find_common_predecessor_of_blocks
  no_common_predecessor limit b c bs =
      common_of_union-err (union_predecessors reads limit (b ∷ c ∷ bs) none)

  abbrev pub AllIn : ℕ → Transitions → Type 0
  AllIn b first = All (λ (t : ℕ × ℕ). reads.block t.1 ≡ b) first

  all_are-AllIn :
      (b : ℕ) (ts : Transitions) → all_are b (map (λ t. reads.block t.1) ts) ≡ true → AllIn b ts
  all_are-AllIn b [] h = tt
  all_are-AllIn b ((off, r) ∷ ts) h = (ground arith, all_are-AllIn b ts (ground arith))

  AllIn-all_are :
      (b : ℕ) (ts : Transitions) → AllIn b ts → all_are b (map (λ t. reads.block t.1) ts) ≡ true
  AllIn-all_are b [] h = refl
  AllIn-all_are b ((off, r) ∷ ts) (h, hs) = ground (arith, AllIn-all_are b ts hs)

  start_of_blocks-cases :
      (limit c : ℕ) (cs : List ℕ)
      → ((all_are c cs ≡ true) × (start_of_blocks reads limit (c ∷ cs) ≡ ok c))
        ⊎ ((all_are c cs ≡ false) × ((e : Error) × (start_of_blocks reads limit (c ∷ cs) ≡ err e)))
  unfolding start_of_blocks
  start_of_blocks-cases limit c [] = inl (refl, refl)
  start_of_blocks-cases limit c (d ∷ cs) = elim (Bool-cases (all_are c (d ∷ cs))) [
    | inl h ↦ inl (h, rw h refl)
    | inr h ↦ let (e, f) = no_common_predecessor limit c d cs in inr (h, (e, rw h f))
  ]

  start-AllIn :
      (limit b : ℕ) (t : ℕ × ℕ) (ts : Transitions)
      → (AllIn b (t ∷ ts)
          → start_of_blocks reads limit (map (λ (u : ℕ × ℕ). reads.block u.1) (t ∷ ts)) ≡ ok b)
        × (start_of_blocks reads limit (map (λ (u : ℕ × ℕ). reads.block u.1) (t ∷ ts)) ≡ ok b
            → AllIn b (t ∷ ts))
  start-AllIn limit b (off, r) ts =
      elim (start_of_blocks-cases limit (reads.block r) (map (λ (u : ℕ × ℕ). reads.block u.1) ts)) [
        | inl (h, s) ↦ (
          λ m. s ∙ ap ok m.0,
          λ q.
              let same : reads.block r ≡ b = cc in
              (same, subst (λ (c : ℕ). AllIn c ts) same (all_are-AllIn (reads.block r) ts h)),
        )
        | inr (h, (e, s)) ↦ (
          λ m. let all = AllIn-all_are b ts m.1 in let same = m.0 in absurd (ground arith),
          λ q. absurd (ground arith),
        )
      ]

  -- If there is a first read of a frame, the start block of the reads is found exactly if all
  -- first reads are in one block, and it is this block: for first reads in several blocks an
  -- error is raised.
  pub find_read_start_block-AllIn :
      (limit : ℕ) (cfg : ReadCfg) (t : ℕ × ℕ) (ts : Transitions) (b : ℕ)
      → cfg none ≡ some (t ∷ ts)
      → (AllIn b (t ∷ ts) → find_read_start_block reads limit cfg ≡ ok b)
        × (find_read_start_block reads limit cfg ≡ ok b → AllIn b (t ∷ ts))
  unfolding find_read_start_block
  find_read_start_block-AllIn limit cfg t ts b e = rw e (start-AllIn limit b t ts)
