-- ===== src/AxiReads/Blocks.antt =====
-- The block where the reads of a frame start (readGraphDetector.py).
use hwt_hls.Prelude.{
  ℕ, zero, suc, Bool, true, false, ◌&&◌, Option, none, some, List, [], ◌∷◌, map, contains, ◌==◌,
  if◌then◌else◌,
}
use hwt_hls.Prelude.Result.{
  Result, ok, err, or_raise, ◌>>=◌, key_error, type_error, recursion_error, not_implemented_error,
}
use hwt_hls.Graph.{add}
use hwt_hls.AxiReads.{ReadCfg, Reads}

abbrev pub union : List ℕ → List ℕ → List ℕ
union [] ys = ys
union (x ∷ xs) ys = add x (union xs ys)

abbrev pub outside : List ℕ → List ℕ → List ℕ
outside preds [] = []
outside preds (b ∷ bs) =
    let rest = outside preds bs in if contains preds b then rest else add b rest

-- whether a block is selected, by its successors that are no predecessors
abbrev pub is_last : ℕ → List ℕ → Bool
is_last p [] = true
is_last p (b ∷ []) = b == p
is_last p (b ∷ c ∷ bs) = false

-- The end: `preds[0]` is the index of a set.
abbrev pub common_of : List ℕ → Result ℕ
common_of (p ∷ []) = err type_error
common_of _ = err not_implemented_error

-- `len(set(startBlocks)) == 1`
abbrev pub all_are : ℕ → List ℕ → Bool
all_are b [] = true
all_are b (c ∷ bs) = (b == c) && all_are b bs

module _ (reads : Reads) where
  -- `collectAllPredecessors`
  unfoldable pub collect_each_predecessor :
      (ℕ → List ℕ → Result (List ℕ)) → List ℕ → List ℕ → Result (List ℕ)
  collect_each_predecessor visit [] seen = ok seen
  collect_each_predecessor visit (p ∷ ps) seen = do
    seen' ← (if contains seen p then ok seen else visit p (p ∷ seen))
    collect_each_predecessor visit ps seen'

  unfoldable pub collect_all_predecessors : ℕ → ℕ → List ℕ → Result (List ℕ)
  unfolding collect_each_predecessor
  collect_all_predecessors zero b seen = err recursion_error
  collect_all_predecessors (suc limit) b seen =
      collect_each_predecessor (collect_all_predecessors limit) (reads.predecessors b) seen

  -- the loop over the blocks; `preds` is `none` for None
  unfoldable pub union_predecessors : ℕ → List ℕ → Option (List ℕ) → Result (Option (List ℕ))
  unfolding collect_all_predecessors
  union_predecessors limit [] preds = ok preds
  union_predecessors limit (b ∷ bs) preds = do
    ps ← collect_all_predecessors limit b (b ∷ [])
    union_predecessors limit bs (some (elim preds [ none ↦ ps | some qs ↦ union ps qs ]))

  unfoldable pub select_last : List ℕ → List ℕ → List ℕ
  select_last preds [] = []
  select_last preds (p ∷ ps) =
      let rest = select_last preds ps in
      if is_last p (outside preds (reads.successors p)) then p ∷ rest else rest

  abbrev pub common_of_union : Option (List ℕ) → Result ℕ
  common_of_union none = err type_error
  common_of_union (some preds) = common_of (select_last preds preds)

  -- `findCommonPredecessorOfBlocks`
  unfoldable pub find_common_predecessor_of_blocks : ℕ → List ℕ → Result ℕ
  unfolding union_predecessors select_last
  find_common_predecessor_of_blocks limit (b ∷ []) = ok b
  find_common_predecessor_of_blocks limit blocks = do
    preds ← union_predecessors limit blocks none
    common_of_union preds

  unfoldable pub start_of_blocks : ℕ → List ℕ → Result ℕ
  unfolding find_common_predecessor_of_blocks
  start_of_blocks limit [] = find_common_predecessor_of_blocks limit []
  start_of_blocks limit (b ∷ bs) =
      if all_are b bs then ok b else find_common_predecessor_of_blocks limit (b ∷ bs)

  -- `findReadStartBlock`
  unfoldable pub find_read_start_block : ℕ → ReadCfg → Result ℕ
  unfolding start_of_blocks
  find_read_start_block limit cfg = do
    first ← or_raise key_error (cfg none)
    start_of_blocks limit (map (λ t. reads.block t.1) first)
