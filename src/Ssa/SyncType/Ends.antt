-- ===== src/Ssa/SyncType/Ends.antt =====
-- That the spread of the need for control ends.
use hwt_hls.Prelude.{
  ℕ, zero, suc, ◌+◌, ◌<◌, ◌≤◌, ◌≡◌, refl, Bool, true, false, ◌||◌, Option, none, some, List, [],
  ◌∷◌, contains, contains-mem, ◌==◌, if◌then◌else◌, All, All-mem, Bool-cases, inl, inr, arith,
}
use hwt_hls.Prelude.Result.{Result, ok}
use hwt_hls.Hwt.{UniqListOps}
use hwt_hls.Ssa.Threads.{is_empty}
use hwt_hls.Ssa.SyncType.{
  BlockMeta, Metas, meta_of, set_meta, SyncContext, successors_of, predecessors_of,
  mark_predecessors, mark_successors, on_block_needs_control,
}
use hwt_hls.Ssa.SyncType.Control.{
  found, is_marked, Grows, Spreads, Closed, VisitSpreads, marked_or_visited,
  mark_predecessors-Spreads, step-Spreads, on_block_needs_control-Closed,
}

abbrev pub has_meta : Metas → ℕ → Bool
has_meta metas b = elim (metas b) [ none ↦ false | some m ↦ true ]

abbrev pub HaveMetas : Metas → List ℕ → Type 0
HaveMetas metas bs = All (λ (b : ℕ). has_meta metas b ≡ true) bs

-- How many blocks of a list need no control.
abbrev pub count_open : Metas → List ℕ → ℕ
count_open metas [] = 0
count_open metas (b ∷ bs) = (if is_marked metas b then 0 else 1) + count_open metas bs

count_open-Grows :
    (metas after : Metas) (bs : List ℕ)
    → Grows metas after
    → count_open after bs ≤ count_open metas bs
count_open-Grows metas after [] g = ground arith
count_open-Grows metas after (b ∷ bs) g =
    let rest = count_open-Grows metas after bs g in
    let here = g b in
    elim (Bool-cases (is_marked metas b)) [
      | inl h ↦ let marked = here h in ground arith
      | inr h ↦ ground arith
    ]

HaveMetas-set_meta :
    (metas : Metas) (b : ℕ) (m : BlockMeta) (bs : List ℕ)
    → HaveMetas metas bs
    → HaveMetas (set_meta b m metas) bs
HaveMetas-set_meta metas b m [] h = tt
HaveMetas-set_meta metas b m (x ∷ bs) (h, hs) = (
  elim (Bool-cases (b == x)) [
    | inl e ↦ rw (has_meta, set_meta, e) refl
    | inr e ↦ rw (has_meta, set_meta, e) h
  ],
  HaveMetas-set_meta metas b m bs hs,
)

Grows-set_meta :
    (metas : Metas) (b : ℕ) (m : BlockMeta)
    → m.needs_control ≡ true
    → Grows metas (set_meta b m metas)
Grows-set_meta metas b m h x k = elim (Bool-cases (b == x)) [
  | inl e ↦ rw (is_marked, set_meta, e) h
  | inr e ↦ rw (is_marked, set_meta, e) k
]

less_of_mark :
    (after before : Bool) (m n : ℕ)
    → after ≡ true
    → before ≡ false
    → m ≤ n
    → (if after then 0 else 1) + m < (if before then 0 else 1) + n
less_of_mark after before m n a b h = ground arith

less_of_rest :
    (after before : Bool) (m n : ℕ)
    → after ≡ before
    → m < n
    → (if after then 0 else 1) + m < (if before then 0 else 1) + n
less_of_rest after before m n e h = rw e (ground arith)

-- A new mark leaves fewer blocks that need no control.
count_open-set_meta :
    (metas : Metas) (b : ℕ) (m : BlockMeta) (bs : List ℕ)
    → m.needs_control ≡ true
    → is_marked metas b ≡ false
    → contains bs b ≡ true
    → count_open (set_meta b m metas) bs < count_open metas bs
count_open-set_meta metas b m [] h k c = absurd (ground arith)
count_open-set_meta metas b m (x ∷ bs) h k c = elim (Bool-cases (b == x)) [
  | inl e ↦
      let rest = count_open-Grows metas (set_meta b m metas) bs (Grows-set_meta metas b m h) in
      let same : b ≡ x = ground arith in
      let there : is_marked metas x ≡ false = rw same at k in
      let marked : is_marked (set_meta b m metas) x ≡ true = rw (is_marked, set_meta, e) h in
      less_of_mark (is_marked (set_meta b m metas) x) (is_marked metas x) _ _ marked there rest
  | inr e ↦
      let rest = count_open-set_meta metas b m bs h k (ground arith) in
      let kept : is_marked (set_meta b m metas) x ≡ is_marked metas x =
        rw (is_marked, set_meta, e) refl in
      less_of_rest (is_marked (set_meta b m metas) x) (is_marked metas x) _ _ kept rest
]

abbrev is_some : Option BlockMeta → Bool
is_some o = elim o [ none ↦ false | some m ↦ true ]

has_option : (o : Option BlockMeta) → is_some o ≡ true → (m : BlockMeta) × (o ≡ some m)
has_option none h = absurd (ground arith)
has_option (some m) h = (m, refl)

meta_of_has :
    (metas : Metas) (b : ℕ) → has_meta metas b ≡ true → (m : BlockMeta) × (meta_of metas b ≡ ok m)
meta_of_has metas b h = let (m, e) = has_option (metas b) h in (m, rw (meta_of, e) refl)

is_marked-none :
    (metas : Metas) (b : ℕ) (m : BlockMeta)
    → meta_of metas b ≡ ok m
    → m.needs_control ≡ false
    → is_marked metas b ≡ false
is_marked-none metas b m e h = let there = found (metas b) m e in rw (is_marked, there) h

module _ (l : UniqListOps) (ctx : SyncContext) (all : List ℕ) where
  -- The list has the blocks around each of its blocks.
  abbrev pub InRegion : List ℕ → Type 0
  InRegion bs = All (λ (b : ℕ). contains all b ≡ true) bs

  abbrev pub IsRegion : Type 0
  IsRegion =
      All (λ (b : ℕ). InRegion (predecessors_of l ctx b) × InRegion (successors_of l ctx b)) all

  abbrev VisitEnds : ℕ → (ℕ → Metas → Result Metas) → Type 0
  VisitEnds limit visit =
      (b : ℕ) (metas : Metas)
      → contains all b ≡ true
      → HaveMetas metas all
      → count_open metas all < limit
      → (after : Metas) × (visit b metas ≡ ok after) × HaveMetas after all

  abbrev marked_predecessor : ℕ → BlockMeta → BlockMeta
  marked_predecessor b m = record m {
    needs_control = true;
    requires_starter = m.requires_starter || is_empty (predecessors_of l ctx b);
  }

  module _ (limit : ℕ) (visit : ℕ → Metas → Result Metas) (v : VisitEnds limit visit) where
    step-Ends :
        (b : ℕ) (m marked : BlockMeta) (metas : Metas)
        → contains all b ≡ true
        → HaveMetas metas all
        → meta_of metas b ≡ ok m
        → marked.needs_control ≡ true
        → count_open metas all ≤ limit
        → (after : Metas) × (marked_or_visited l ctx visit b m marked metas ≡ ok after)
          × HaveMetas after all
    step-Ends b m marked metas here h e k c = elim (Bool-cases m.needs_control) [
      | inl n ↦ (metas, rw n refl, h)
      | inr n ↦
          let less = count_open-set_meta metas b marked all k (is_marked-none metas b m e n) here in
          let (after, f, g) =
            v b (set_meta b marked metas) here (HaveMetas-set_meta metas b marked all h)
              (ground arith) in
          (after, rw n f, g)
    ]

    module _ (spreads : VisitSpreads l ctx visit) where
      mark_predecessors-Ends :
          (bs : List ℕ) (metas : Metas)
          → InRegion bs
          → HaveMetas metas all
          → count_open metas all ≤ limit
          → (after : Metas) × (mark_predecessors l ctx visit bs metas ≡ ok after)
            × HaveMetas after all
      unfolding mark_predecessors
      mark_predecessors-Ends [] metas r h c = (metas, refl, h)
      mark_predecessors-Ends (b ∷ bs) metas (here, r) h c =
          let (m, e) = meta_of_has metas b (All-mem _ all h (contains-mem all b here)) in
          let (middle, f, g) = step-Ends b m (marked_predecessor b m) metas here h e refl c in
          let grown =
            (step-Spreads l ctx visit b m (marked_predecessor b m) metas middle spreads e refl
              f).0 in
          let fewer = count_open-Grows metas middle all grown.grows in
          let (after, f', g') = mark_predecessors-Ends bs middle r g (ground arith) in
          (after, rw (e, f) f', g')

      mark_successors-Ends :
          (bs : List ℕ) (metas : Metas)
          → InRegion bs
          → HaveMetas metas all
          → count_open metas all ≤ limit
          → (after : Metas) × (mark_successors l ctx visit bs metas ≡ ok after)
            × HaveMetas after all
      unfolding mark_successors
      mark_successors-Ends [] metas r h c = (metas, refl, h)
      mark_successors-Ends (b ∷ bs) metas (here, r) h c =
          let (m, e) = meta_of_has metas b (All-mem _ all h (contains-mem all b here)) in
          let (middle, f, g) =
            step-Ends b m (record m { needs_control = true }) metas here h e refl c in
          let grown =
            (step-Spreads l ctx visit b m (record m { needs_control = true }) metas middle spreads e
              refl f).0 in
          let fewer = count_open-Grows metas middle all grown.grows in
          let (after, f', g') = mark_successors-Ends bs middle r g (ground arith) in
          (after, rw (e, f) f', g')

  on_block_needs_control-VisitEnds :
      IsRegion → (limit : ℕ) → VisitEnds limit (on_block_needs_control l ctx limit)
  unfolding on_block_needs_control
  on_block_needs_control-VisitEnds r zero b metas here h c = absurd (ground arith)
  on_block_needs_control-VisitEnds r (suc limit) b metas here h c =
      let visit = on_block_needs_control l ctx limit in
      let v = on_block_needs_control-VisitEnds r limit in
      let spreads = on_block_needs_control-Closed l ctx limit in
      let around = All-mem _ all r (contains-mem all b here) in
      let (middle, f, g) =
        mark_predecessors-Ends limit visit v spreads (predecessors_of l ctx b) metas around.0 h
          (ground arith) in
      let grown =
        (mark_predecessors-Spreads l ctx visit spreads (predecessors_of l ctx b) metas middle
          f).0 in
      let fewer = count_open-Grows metas middle all grown.grows in
      let (after, f', g') =
        mark_successors-Ends limit visit v spreads (successors_of l ctx b) middle around.1 g
          (ground arith) in
      (after, rw f f', g')

  -- If a list of blocks has the blocks around each of its blocks, each of them has its meta
  -- data, and the recursion limit exceeds the number of those that need no control:
  -- `_onBlockNeedsControl` of one of them returns; no block loses its need for control, all
  -- blocks around this block need control afterwards, and so do those around every block that
  -- did not need it before and does now.
  pub on_block_needs_control-Spreads :
      (limit b : ℕ) (metas : Metas)
      → IsRegion
      → contains all b ≡ true
      → HaveMetas metas all
      → count_open metas all < limit
      → (after : Metas) × (on_block_needs_control l ctx limit b metas ≡ ok after)
        × Spreads l ctx metas after
        × Closed l ctx after b
  on_block_needs_control-Spreads limit b metas r here h c =
      let (after, e, g) = on_block_needs_control-VisitEnds r limit b metas here h c in
      let (s, k) = on_block_needs_control-Closed l ctx limit b metas after e in (after, e, s, k)
